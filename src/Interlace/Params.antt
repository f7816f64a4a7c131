-- ===== src/Interlace/Params.antt =====
-- `parse_sps` and `parse_pps` of tests/h264-interlace-scan.py.
use omarchy_m1_video.Prelude.{
  ℕ, zero, suc, ◌+◌, Option, none, some, List, [], ◌∷◌, ◌==◌, ltb, if◌then◌else◌, any, drop,
}
use omarchy_m1_video.Exec.{Result, pure, ◌>>=◌, ◌>>◌}
use omarchy_m1_video.Interlace.Reader.{Caught, Read, bit, bits, ue, skip_scaling_list}

pub record Sps : Type 0 where
  pub profile_idc : ℕ
  pub constraint_flags : ℕ
  pub level_idc : ℕ
  pub sps_id : ℕ
  pub chroma_format_idc : ℕ
  pub separate_colour_plane : Option ℕ
  pub bit_depth_luma_minus8 : ℕ
  pub bit_depth_chroma_minus8 : ℕ
  pub log2_max_frame_num_minus4 : ℕ
  pub poc_type : ℕ
  pub log2_max_poc_lsb_minus4 : Option ℕ
  pub delta_poc_always_zero : Option ℕ
  pub max_num_ref_frames : ℕ
  pub gaps_in_frame_num_allowed : ℕ
  pub pic_width_in_mbs : ℕ
  pub pic_height_in_map_units : ℕ
  pub frame_mbs_only : ℕ
  pub mb_adaptive_frame_field : ℕ
  pub direct_8x8_inference : ℕ

pub record Pps : Type 0 where
  pub pps_id : ℕ
  pub sps_id : ℕ
  pub entropy_coding_mode : ℕ
  pub num_slice_groups_minus1 : ℕ

abbrev pub high_profiles : List ℕ
high_profiles = 100 ∷ 110 ∷ 122 ∷ 244 ∷ 44 ∷ 83 ∷ 86 ∷ 118 ∷ 128 ∷ 138 ∷ 139 ∷ 134 ∷ 135 ∷ []

-- The scaling lists from `i` on: 16 coefficients for the first six, 64 for the others.
unfoldable pub skip_scaling_lists : ℕ → ℕ → Read Unit
skip_scaling_lists zero i = pure tt
skip_scaling_lists (suc left) i = do
  present ← bit
  (if present == 0 then pure tt else skip_scaling_list (if ltb i 6 then 16 else 64) 8 8)
  skip_scaling_lists left (suc i)

-- The chroma format, the colour plane flag and the two depths.
pub record Format : Type 0 where
  pub chroma : ℕ
  pub separate : Option ℕ
  pub luma_depth : ℕ
  pub chroma_depth : ℕ

unfoldable pub read_high_format : Read Format
read_high_format = do
  chroma ← ue
  separate ← (if chroma == 3 then (bit >>= λ b. pure (some b)) else pure none)
  luma ← ue
  depth ← ue
  bit
  scaling ← bit
  (if scaling == 0 then pure tt else skip_scaling_lists (if chroma == 3 then 12 else 8) 0)
  pure (record { chroma = chroma; separate = separate; luma_depth = luma; chroma_depth = depth })

unfoldable pub read_format : ℕ → Read Format
read_format profile =
    if any (λ p. profile == p) high_profiles
    then read_high_format
    else pure (record { chroma = 1; separate = none; luma_depth = 0; chroma_depth = 0 })

unfoldable pub skip_codes : ℕ → Read Unit
skip_codes zero = pure tt
skip_codes (suc n) = do ue; skip_codes n

-- What a picture order count type of 0 and of 1 records.
unfoldable pub read_poc : ℕ → Read (Option ℕ × Option ℕ)
read_poc poc_type =
    if poc_type == 0
    then (ue >>= λ lsb. pure (some lsb, none))
    else if poc_type == 1
    then (do delta ← bit; ue; ue; cycle ← ue; skip_codes cycle; pure (none, some delta))
    else pure (none, none)

unfoldable pub parse_sps : Read Sps
parse_sps = do
  profile ← bits 8
  constraints ← bits 8
  level ← bits 8
  id ← ue
  format ← read_format profile
  frame_num ← ue
  poc_type ← ue
  (lsb, delta) ← read_poc poc_type
  refs ← ue
  gaps ← bit
  width ← ue
  height ← ue
  only ← bit
  mbaff ← (if only == 0 then bit else pure 0)
  direct ← bit
  pure (record {
    profile_idc = profile;
    constraint_flags = constraints;
    level_idc = level;
    sps_id = id;
    chroma_format_idc = format.chroma;
    separate_colour_plane = format.separate;
    bit_depth_luma_minus8 = format.luma_depth;
    bit_depth_chroma_minus8 = format.chroma_depth;
    log2_max_frame_num_minus4 = frame_num;
    poc_type = poc_type;
    log2_max_poc_lsb_minus4 = lsb;
    delta_poc_always_zero = delta;
    max_num_ref_frames = refs;
    gaps_in_frame_num_allowed = gaps;
    pic_width_in_mbs = width + 1;
    pic_height_in_map_units = height + 1;
    frame_mbs_only = only;
    mb_adaptive_frame_field = mbaff;
    direct_8x8_inference = direct;
  })

unfoldable pub parse_pps : Read Pps
parse_pps = do
  pps ← ue
  sps ← ue
  entropy ← bit
  bit
  groups ← ue
  pure (record {
    pps_id = pps;
    sps_id = sps;
    entropy_coding_mode = entropy;
    num_slice_groups_minus1 = groups;
  })

-- A parse of a payload after its header byte.
unfoldable pub parsing : {A : Type 0} → Read A → List ℕ → Result Caught A
parsing m rbsp = (m (record { data_ = drop 1 rbsp; pos = 0 })).0
