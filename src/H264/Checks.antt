-- ===== src/H264/Checks.antt =====
-- The tests of one picture: `ffmpeg_profile_from_sps` and `picture_disallowed` to
-- `sps_incompatible_with_va` of experiments/h264-profile-selection/selection.py.
use omarchy_m1_video.Prelude.{
  ℕ, Bool, true, false, not, ◌&&◌, ◌||◌, Option, none, some, List, [], ◌∷◌, leb, ltb, ◌==◌, ◌!=◌,
  if◌then◌else◌, any,
}
use omarchy_m1_video.H264.Inventory.{
  Sps, Slice, Picture, SliceType, VaProfile, FfProfile, ff_baseline, ff_constrained_baseline,
  ff_main, ff_extended, ff_high, ff_high10, ff_high10_intra, ff_unknown, ff_eq, allowed_ff,
  max_bit_depth_minus8,
}

pub data Reason : Type 0 where
  malformed_header data_partition fmo fields unsupported_nal redundant_picture : Reason
  slice_order unsupported_transform unsupported_entropy : Reason
  sp_slice si_slice baseline_with_b_slices disallowed_slice : Reason
  sps_incompatible unmapped_profile va_profile_not_advertised : Reason
  exact_profile_match baseline_constrained_subset extended_main_subset : Reason
  no_h264_va_profile_advertised allow_profile_mismatch profile_mismatch : Reason

pub record Checks : Type 0 where
  pub fmo : Bool
  pub fields : Bool
  pub partitions : Bool
  pub malformed : Bool
  pub scan_all_pictures : Bool
  pub sps_compat : Bool
  pub slice_types : Bool

abbrev pub default_checks : Checks
default_checks = record {
  fmo = true;
  fields = true;
  partitions = true;
  malformed = true;
  scan_all_pictures = true;
  sps_compat = true;
  slice_types = true;
}

-- `none` is the `None` of an SPS that did not parse
unfoldable pub ffmpeg_profile_from_sps : Sps → Option FfProfile
ffmpeg_profile_from_sps sps =
    let idc = sps.profile_idc in
    if not sps.parse_ok
    then none
    else if idc == 66
    then some (if sps.constraint_set1_flag then ff_constrained_baseline else ff_baseline)
    else if idc == 77
    then some ff_main
    else if idc == 88
    then some ff_extended
    else if idc == 100
    then some ff_high
    else if idc == 110
    then some (if sps.constraint_set3_flag then ff_high10_intra else ff_high10)
    else some (ff_unknown idc)

abbrev pub nal_is_partition : ℕ → Bool
nal_is_partition t = t == 2 || (t == 3 || t == 4)

abbrev pub is_known_nal : ℕ → Bool
is_known_nal t = leb 1 t && leb t 5

-- any(b <= a for a, b in zip(starts, starts[1:]))
unfoldable pub is_unordered : ℕ → List Slice → Bool
is_unordered start [] = false
is_unordered start (s ∷ ss) = leb s.first_mb_in_slice start || is_unordered s.first_mb_in_slice ss

-- starts[0] != 0 or any(...); a validated picture has a slice
unfoldable pub is_out_of_order : List Slice → Bool
is_out_of_order [] = false
is_out_of_order (s ∷ ss) = s.first_mb_in_slice != 0 || is_unordered s.first_mb_in_slice ss

abbrev pub is_early_profile : ℕ → Bool
is_early_profile idc = idc == 66 || (idc == 77 || idc == 88)

abbrev pub reason_if : Bool → Reason → Option Reason → Option Reason
reason_if true r rest = some r
reason_if false r rest = rest

-- The tests that no entry of `checks` turns off.
unfoldable pub policy_disallowed : Picture → Option Reason
policy_disallowed pic =
    reason_if (any (λ s. not (is_known_nal s.nal_unit_type)) pic.slices) unsupported_nal (
      reason_if
        (pic.pps.redundant_pic_cnt_present_flag || any (λ s. s.redundant_pic_cnt != 0) pic.slices)
        redundant_picture
        (reason_if (is_out_of_order pic.slices) slice_order (
          reason_if (is_early_profile pic.sps.profile_idc && pic.pps.transform_8x8_mode_flag)
            unsupported_transform
            (reason_if
              ((pic.sps.profile_idc == 66 || pic.sps.profile_idc == 88)
                && pic.pps.entropy_coding_mode_flag)
              unsupported_entropy none))))

unfoldable pub picture_disallowed : Picture → Checks → Option Reason
picture_disallowed pic checks =
    reason_if
      (checks.malformed
        && (not pic.sps.parse_ok || (not pic.pps.parse_ok || any (λ s. not s.parse_ok) pic.slices)))
      malformed_header
      (reason_if (checks.partitions && any (λ s. nal_is_partition s.nal_unit_type) pic.slices)
        data_partition
        (reason_if (checks.fmo && ltb 0 pic.pps.num_slice_groups_minus1) fmo (
          reason_if
            (checks.fields
              && (not pic.sps.frame_mbs_only_flag
                  || (pic.sps.mb_adaptive_frame_field_flag
                      || any (λ s. s.field_pic_flag) pic.slices)))
            fields (policy_disallowed pic))))

-- The slice sets {I, P}, {I} and {I, P, B}.
pub data SliceSet : Type 0 where
  ip only_i ipb : SliceSet

unfoldable pub allowed_slices_for_ff_profile : Option FfProfile → SliceSet
allowed_slices_for_ff_profile (some ff_baseline) = ip
allowed_slices_for_ff_profile (some ff_constrained_baseline) = ip
allowed_slices_for_ff_profile (some ff_high10_intra) = only_i
allowed_slices_for_ff_profile _ = ipb

unfoldable pub slice_disallowed : SliceSet → SliceType → Option Reason
slice_disallowed allowed SliceType.slice_sp = some sp_slice
slice_disallowed allowed SliceType.slice_si = some si_slice
slice_disallowed ipb SliceType.slice_b = none
slice_disallowed ip SliceType.slice_b = some baseline_with_b_slices
slice_disallowed only_i SliceType.slice_b = some baseline_with_b_slices
slice_disallowed only_i SliceType.slice_p = some disallowed_slice
slice_disallowed ip SliceType.slice_p = none
slice_disallowed ipb SliceType.slice_p = none
slice_disallowed _ SliceType.slice_i = none

unfoldable pub slices_disallowed : SliceSet → List Slice → Option Reason
slices_disallowed allowed [] = none
slices_disallowed allowed (s ∷ ss) =
    let rest = slices_disallowed allowed ss in
    elim (slice_disallowed allowed s.slice_type) [ some r ↦ some r | none ↦ rest ]

unfoldable pub picture_slice_disallowed : Picture → Option FfProfile → Option Reason
picture_slice_disallowed pic profile =
    slices_disallowed (allowed_slices_for_ff_profile profile) pic.slices

unfoldable pub sps_incompatible_with_va : Sps → VaProfile → Option Reason
sps_incompatible_with_va sps va =
    let luma = sps.bit_depth_luma_minus8 in
    reason_if (not (any (ff_eq (ffmpeg_profile_from_sps sps)) (allowed_ff va))) sps_incompatible (
      reason_if
        (luma != sps.bit_depth_chroma_minus8
          || (not (luma == 0 || luma == 2) || ltb (max_bit_depth_minus8 va) luma))
        sps_incompatible (reason_if (sps.chroma_format_idc != 1) sps_incompatible none))
