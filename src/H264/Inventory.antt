-- ===== src/H264/Inventory.antt =====
-- The inventory of a stream and `validate_inventory`, with the profile tables, of
-- experiments/h264-profile-selection/selection.py.
use omarchy_m1_video.Prelude.{
  ℕ, ◌+◌, Bool, true, false, ◌&&◌, ◌||◌, Option, none, some, List, [], ◌∷◌, leb, ◌==◌,
  if◌then◌else◌, any, all,
}
use omarchy_m1_video.Exec.{Result, ok, err}

pub data VaProfile : Type 0 where
  constrained_baseline main high high10 : VaProfile

pub data FfProfile : Type 0 where
  ff_baseline ff_constrained_baseline ff_main ff_extended ff_high ff_high10 ff_high10_intra :
      FfProfile
  ff_unknown : ℕ → FfProfile

pub data SliceType : Type 0 where
  slice_i slice_p slice_b slice_sp slice_si : SliceType

-- Names are equal when their numbers are.
unfoldable pub va_number : VaProfile → ℕ
va_number constrained_baseline = 0
va_number main = 1
va_number high = 2
va_number high10 = 3

unfoldable pub ff_number : FfProfile → ℕ
ff_number ff_baseline = 0
ff_number ff_constrained_baseline = 1
ff_number ff_main = 2
ff_number ff_extended = 3
ff_number ff_high = 4
ff_number ff_high10 = 5
ff_number ff_high10_intra = 6
ff_number (ff_unknown n) = 7 + n

unfoldable pub va_eq : VaProfile → VaProfile → Bool
va_eq a b = va_number a == va_number b

-- A profile that is `None` equals no name.
unfoldable pub ff_eq : Option FfProfile → FfProfile → Bool
ff_eq none b = false
ff_eq (some a) b = ff_number a == ff_number b

unfoldable pub is_advertised : VaProfile → List VaProfile → Bool
is_advertised v profiles = any (va_eq v) profiles

abbrev pub vaapi_profile_map : List (FfProfile × VaProfile)
vaapi_profile_map =
    (ff_high10_intra, high10)
    ∷ (ff_high10, high10)
    ∷ (ff_constrained_baseline, constrained_baseline)
    ∷ (ff_main, main)
    ∷ (ff_high, high)
    ∷ []

-- VA_PROFILE_ALLOWED_FF
unfoldable pub allowed_ff : VaProfile → List FfProfile
allowed_ff constrained_baseline = ff_baseline ∷ ff_constrained_baseline ∷ []
allowed_ff main = ff_baseline ∷ ff_constrained_baseline ∷ ff_main ∷ ff_extended ∷ []
allowed_ff high = ff_baseline ∷ ff_constrained_baseline ∷ ff_main ∷ ff_extended ∷ ff_high ∷ []
allowed_ff high10 =
    ff_baseline ∷ ff_constrained_baseline ∷ ff_main ∷ ff_extended ∷ ff_high ∷ ff_high10
    ∷ ff_high10_intra ∷ []

-- VA_PROFILE_MAX_BIT_DEPTH_MINUS8
unfoldable pub max_bit_depth_minus8 : VaProfile → ℕ
max_bit_depth_minus8 constrained_baseline = 0
max_bit_depth_minus8 main = 0
max_bit_depth_minus8 high = 0
max_bit_depth_minus8 high10 = 2

pub record Sps : Type 0 where
  pub profile_idc : ℕ
  pub constraint_set1_flag : Bool
  pub constraint_set3_flag : Bool
  pub frame_mbs_only_flag : Bool
  pub mb_adaptive_frame_field_flag : Bool
  pub chroma_format_idc : ℕ
  pub bit_depth_luma_minus8 : ℕ
  pub bit_depth_chroma_minus8 : ℕ
  pub parse_ok : Bool

pub record Pps : Type 0 where
  pub num_slice_groups_minus1 : ℕ
  pub entropy_coding_mode_flag : Bool
  pub redundant_pic_cnt_present_flag : Bool
  pub transform_8x8_mode_flag : Bool
  pub parse_ok : Bool

pub record Slice : Type 0 where
  pub nal_unit_type : ℕ
  pub slice_type : SliceType
  pub field_pic_flag : Bool
  pub first_mb_in_slice : ℕ
  pub redundant_pic_cnt : ℕ
  pub parse_ok : Bool

pub record Picture : Type 0 where
  pub sps : Sps
  pub pps : Pps
  pub slices : List Slice

pub record Stream : Type 0 where
  pub pictures : List Picture
  pub advertised : Option (List VaProfile)
  pub allow_profile_mismatch : Option Bool

pub data FixtureError : Type 0 where
  no_pictures bad_picture bad_advertised duplicate_advertised : FixtureError

abbrev pub sps_in_range : Sps → Bool
sps_in_range s =
    leb s.profile_idc 255
    && (leb s.chroma_format_idc 3
        && (leb s.bit_depth_luma_minus8 6 && leb s.bit_depth_chroma_minus8 6))

abbrev pub slice_in_range : Slice → Bool
slice_in_range s =
    leb s.nal_unit_type 31 && (leb s.first_mb_in_slice 4294967295 && leb s.redundant_pic_cnt 127)

abbrev pub has_slices : List Slice → Bool
has_slices [] = false
has_slices (_ ∷ _) = true

unfoldable pub picture_in_range : Picture → Bool
picture_in_range pic =
    sps_in_range pic.sps
    && (leb pic.pps.num_slice_groups_minus1 7
        && (has_slices pic.slices && all slice_in_range pic.slices))

-- len(set(profiles)) != len(profiles)
unfoldable pub has_duplicate : List VaProfile → Bool
has_duplicate [] = false
has_duplicate (v ∷ vs) = is_advertised v vs || has_duplicate vs

-- `advertised`, or the stream's own list where it is `None`
abbrev pub profiles_of : Option (List VaProfile) → Stream → Option (List VaProfile)
profiles_of none stream = stream.advertised
profiles_of (some vs) stream = some vs

unfoldable pub validate_profiles : Option (List VaProfile) → Result FixtureError (List VaProfile)
validate_profiles none = err bad_advertised
validate_profiles (some vs) = if has_duplicate vs then err duplicate_advertised else ok vs

-- Returns the pictures as a first one and the rest, and the advertised profiles.
unfoldable pub validate_inventory :
    Stream → Option (List VaProfile) → Result FixtureError (Picture × List Picture × List VaProfile)
unfolding validate_profiles
validate_inventory stream advertised = elim stream.pictures [
  | [] ↦ err no_pictures
  | first ∷ rest ↦
      if all picture_in_range (first ∷ rest)
      then elim (validate_profiles (profiles_of advertised stream)) [
        | err e ↦ err e
        | ok profiles ↦ ok (first, rest, profiles)
      ]
      else err bad_picture
]
