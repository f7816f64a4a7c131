-- ===== src/Tests/H264.antt =====
-- Runs of the profile selection.
use omarchy_m1_video.Prelude.{◌≡◌, ◌⊎◌, refl, true, false, none, some, [], ◌∷◌, any}
use omarchy_m1_video.Exec.{ok}
use omarchy_m1_video.H264.Inventory as Inventory
use omarchy_m1_video.H264.Inventory.{
  Sps, Pps, Slice, Picture, Stream, SliceType, VaProfile, FfProfile, constrained_baseline, main,
  high, ff_main, ff_extended, is_advertised, vaapi_profile_map, validate_inventory,
}
use omarchy_m1_video.H264.Checks as Checks
use omarchy_m1_video.H264.Checks.{default_checks, ffmpeg_profile_from_sps, Reason}
use omarchy_m1_video.H264.Select as Select
use omarchy_m1_video.H264.Fixture as Fixture
use omarchy_m1_video.H264.Select.{
  Decision, select, select_proposed, select_current, vaapi_current_match, first_reason,
  scan_picture,
}
use omarchy_m1_video.H264.Contract.Current.{is_exact_row, current_exact, current_selects}
use omarchy_m1_video.H264.Contract.Proposed.{IsSound, select_proposed-IsSound}
use omarchy_m1_video.H264.Contract.Agreement.{as_current, select_proposed-select_current}
use omarchy_m1_video.H264.Contract.Rejection.{IsExplained, select_proposed-IsExplained}

abbrev main_sps : Sps
main_sps = record {
  profile_idc = 77;
  constraint_set1_flag = false;
  constraint_set3_flag = false;
  frame_mbs_only_flag = true;
  mb_adaptive_frame_field_flag = false;
  chroma_format_idc = 1;
  bit_depth_luma_minus8 = 0;
  bit_depth_chroma_minus8 = 0;
  parse_ok = true;
}

abbrev slice_of : SliceType → Slice
slice_of t = record {
  nal_unit_type = 1;
  slice_type = t;
  field_pic_flag = false;
  first_mb_in_slice = 0;
  redundant_pic_cnt = 0;
  parse_ok = true;
}

abbrev picture_of : SliceType → Picture
picture_of t = record {
  sps = main_sps;
  pps = record {
    num_slice_groups_minus1 = 0;
    entropy_coding_mode_flag = true;
    redundant_pic_cnt_present_flag = false;
    transform_8x8_mode_flag = false;
    parse_ok = true;
  };
  slices = slice_of t ∷ [];
}

abbrev stream : Stream
stream = record {
  pictures = picture_of SliceType.slice_i ∷ picture_of SliceType.slice_b ∷ [];
  advertised = some (main ∷ high ∷ []);
  allow_profile_mismatch = none;
}

decided :
    (d : Decision) × (select_proposed stream none default_checks ≡ ok d)
    × (d.status ≡ select)
    × (d.exact_match ≡ some true)
    × (d.va_profile ≡ some main)
unfolding Inventory.va_number Inventory.ff_number Inventory.va_eq Inventory.ff_eq is_advertised
    Inventory.allowed_ff Inventory.max_bit_depth_minus8 Inventory.picture_in_range
    Inventory.has_duplicate Inventory.validate_profiles validate_inventory
    Checks.ffmpeg_profile_from_sps Checks.is_unordered Checks.is_out_of_order
    Checks.policy_disallowed Checks.picture_disallowed Checks.allowed_slices_for_ff_profile
    Checks.slice_disallowed Checks.slices_disallowed Checks.picture_slice_disallowed
    Checks.sps_incompatible_with_va Select.match_rows Select.match_decision vaapi_current_match
    Select.has_b_slice Select.proposed_va_for_safe_stream scan_picture first_reason
    Select.select_advertised Select.select_compatible Select.select_mapped Select.select_scanned
    select_proposed
decided = (_, refl, refl, refl, refl)

stream_valid :
    validate_inventory stream none
    ≡ ok (picture_of SliceType.slice_i, picture_of SliceType.slice_b ∷ [], main ∷ high ∷ [])
unfolding Inventory.va_number Inventory.ff_number Inventory.va_eq Inventory.ff_eq is_advertised
    Inventory.allowed_ff Inventory.max_bit_depth_minus8 Inventory.picture_in_range
    Inventory.has_duplicate Inventory.validate_profiles validate_inventory
    Checks.ffmpeg_profile_from_sps Checks.is_unordered Checks.is_out_of_order
    Checks.policy_disallowed Checks.picture_disallowed Checks.allowed_slices_for_ff_profile
    Checks.slice_disallowed Checks.slices_disallowed Checks.picture_slice_disallowed
    Checks.sps_incompatible_with_va Select.match_rows Select.match_decision vaapi_current_match
    Select.has_b_slice Select.proposed_va_for_safe_stream scan_picture first_reason
    Select.select_advertised Select.select_compatible Select.select_mapped Select.select_scanned
    select_proposed
stream_valid = refl

select_proposed-IsSound_example : IsSound stream.pictures (main ∷ high ∷ []) decided.0
select_proposed-IsSound_example =
    select_proposed-IsSound stream none decided.0 (picture_of SliceType.slice_i)
      (picture_of SliceType.slice_b ∷ []) (main ∷ high ∷ []) stream_valid decided.1 decided.2

select_proposed-select_current_example :
    select_current stream none false ≡ ok (as_current decided.0)
select_proposed-select_current_example =
    select_proposed-select_current stream none default_checks false decided.0 decided.1 decided.2
      decided.3

current_exact_example :
    (vaapi_current_match (some ff_extended) (high ∷ []) true).exact_match
    ≡ some (any (is_exact_row (some ff_extended) (high ∷ [])) vaapi_profile_map)
current_exact_example = current_exact (some ff_extended) (high ∷ []) true

extended_selects : (vaapi_current_match (some ff_extended) (high ∷ []) true).status ≡ select
unfolding Inventory.va_number Inventory.ff_number Inventory.va_eq Inventory.ff_eq is_advertised
    Inventory.allowed_ff Inventory.max_bit_depth_minus8 Inventory.picture_in_range
    Inventory.has_duplicate Inventory.validate_profiles validate_inventory
    Checks.ffmpeg_profile_from_sps Checks.is_unordered Checks.is_out_of_order
    Checks.policy_disallowed Checks.picture_disallowed Checks.allowed_slices_for_ff_profile
    Checks.slice_disallowed Checks.slices_disallowed Checks.picture_slice_disallowed
    Checks.sps_incompatible_with_va Select.match_rows Select.match_decision vaapi_current_match
    Select.has_b_slice Select.proposed_va_for_safe_stream scan_picture first_reason
    Select.select_advertised Select.select_compatible Select.select_mapped Select.select_scanned
    select_proposed
extended_selects = refl

current_selects_example :
    (v : VaProfile) × ((vaapi_current_match (some ff_extended) (high ∷ []) true).va_profile
      ≡ some v)
    × (is_advertised v (high ∷ []) ≡ true)
    × (((vaapi_current_match (some ff_extended) (high ∷ []) true).exact_match ≡ some true)
        ⊎ (true ≡ true))
current_selects_example = current_selects (some ff_extended) (high ∷ []) true extended_selects

-- The second picture has an SP slice.
abbrev switching : Stream
switching = record stream {
  pictures = picture_of SliceType.slice_i ∷ picture_of SliceType.slice_sp ∷ [];
}

switching_valid :
    validate_inventory switching none
    ≡ ok (picture_of SliceType.slice_i, picture_of SliceType.slice_sp ∷ [], main ∷ high ∷ [])
unfolding Inventory.va_number Inventory.ff_number Inventory.va_eq Inventory.ff_eq is_advertised
    Inventory.allowed_ff Inventory.max_bit_depth_minus8 Inventory.picture_in_range
    Inventory.has_duplicate Inventory.validate_profiles validate_inventory
    Checks.ffmpeg_profile_from_sps Checks.is_unordered Checks.is_out_of_order
    Checks.policy_disallowed Checks.picture_disallowed Checks.allowed_slices_for_ff_profile
    Checks.slice_disallowed Checks.slices_disallowed Checks.picture_slice_disallowed
    Checks.sps_incompatible_with_va Select.match_rows Select.match_decision vaapi_current_match
    Select.has_b_slice Select.proposed_va_for_safe_stream scan_picture first_reason
    Select.select_advertised Select.select_compatible Select.select_mapped Select.select_scanned
    select_proposed
switching_valid = refl

switched :
    (d : Decision) × (select_proposed switching none default_checks ≡ ok d)
    × (d.reason ≡ Reason.sp_slice)
    × (d.picture_index ≡ some 1)
unfolding Inventory.va_number Inventory.ff_number Inventory.va_eq Inventory.ff_eq is_advertised
    Inventory.allowed_ff Inventory.max_bit_depth_minus8 Inventory.picture_in_range
    Inventory.has_duplicate Inventory.validate_profiles validate_inventory
    Checks.ffmpeg_profile_from_sps Checks.is_unordered Checks.is_out_of_order
    Checks.policy_disallowed Checks.picture_disallowed Checks.allowed_slices_for_ff_profile
    Checks.slice_disallowed Checks.slices_disallowed Checks.picture_slice_disallowed
    Checks.sps_incompatible_with_va Select.match_rows Select.match_decision vaapi_current_match
    Select.has_b_slice Select.proposed_va_for_safe_stream scan_picture first_reason
    Select.select_advertised Select.select_compatible Select.select_mapped Select.select_scanned
    select_proposed
switched = (_, refl, refl, refl)

select_proposed-IsExplained_example :
    IsExplained default_checks (ffmpeg_profile_from_sps main_sps) switching.pictures switched.0
select_proposed-IsExplained_example =
    select_proposed-IsExplained switching none default_checks switched.0
      (picture_of SliceType.slice_i) (picture_of SliceType.slice_sp ∷ []) (main ∷ high ∷ [])
      switching_valid switched.1

-- A fixture of the two pictures on the current path, which expects the reason that it gets.
abbrev fixture : Fixture.Fixture
fixture = record {
  schema = Fixture.schema_name;
  path = Fixture.current;
  stream = some stream;
  expected = some (record {
    status = some "select";
    va_profile = none;
    reason = some (some "exact_profile_match");
  });
  advertised = some (main ∷ high ∷ []);
}

fixture_agrees :
    (o : Fixture.Outcome) × (Fixture.run_fixture fixture none ≡ ok o) × (o.agrees ≡ true)
unfolding Inventory.va_number Inventory.ff_number Inventory.va_eq Inventory.ff_eq
    Inventory.is_advertised Inventory.allowed_ff Inventory.max_bit_depth_minus8
    Inventory.picture_in_range Inventory.has_duplicate Inventory.validate_profiles
    Inventory.validate_inventory Checks.ffmpeg_profile_from_sps Checks.is_unordered
    Checks.is_out_of_order Checks.policy_disallowed Checks.picture_disallowed
    Checks.allowed_slices_for_ff_profile Checks.slice_disallowed Checks.slices_disallowed
    Checks.picture_slice_disallowed Checks.sps_incompatible_with_va Select.match_rows
    Select.match_decision Select.vaapi_current_match Select.has_b_slice
    Select.proposed_va_for_safe_stream Select.scan_picture Select.first_reason
    Select.select_advertised Select.select_compatible Select.select_mapped Select.select_scanned
    Select.select_proposed Select.select_current Fixture.status_text Fixture.profile_text
    Fixture.reason_text Fixture.compare Fixture.decide Fixture.run_fixture
fixture_agrees = (_, refl, refl)
