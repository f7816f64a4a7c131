-- ===== src/H264/Contract/Proposed.antt =====
-- The proposed selection.
use omarchy_m1_video.Prelude.{
  ℕ, suc, ◌≤◌, ◌≡◌, ◌≢◌, ◌⊎◌, inl, inr, true, false, not, Option, none, some, List, [], ◌∷◌, any,
  arith, Option-cases, All, subst, ◌!=◌,
}
use omarchy_m1_video.Exec.{ok}
use omarchy_m1_video.H264.Inventory.{
  VaProfile, FfProfile, Picture, Slice, SliceType, Stream, ff_eq, is_advertised, allowed_ff,
  max_bit_depth_minus8, validate_inventory,
}
use omarchy_m1_video.H264.Checks.{
  Reason, default_checks, ffmpeg_profile_from_sps, picture_disallowed, policy_disallowed,
  sps_incompatible_with_va, picture_slice_disallowed, slices_disallowed, slice_disallowed, SliceSet,
  allowed_slices_for_ff_profile, is_out_of_order, nal_is_partition, is_known_nal,
}
use omarchy_m1_video.H264.Select.{
  select, Decision, select_proposed, select_scanned, select_mapped, select_compatible,
  select_advertised, first_reason, scan_picture, proposed_va_for_safe_stream,
}

abbrev pub IsFrameSlice : Slice → Type 0
IsFrameSlice s =
    (s.parse_ok ≡ true)
    × (s.field_pic_flag ≡ false)
    × ((s.nal_unit_type ≡ 1) ⊎ (s.nal_unit_type ≡ 5))
    × (s.redundant_pic_cnt ≡ 0)
    × (s.slice_type ≢ SliceType.slice_sp)
    × (s.slice_type ≢ SliceType.slice_si)

-- A picture that a decoder of the VA profile can take: a progressive frame without slice groups,
-- data partitions or redundant slices, 4:2:0 with equal depths that the profile has, of a profile
-- that the VA profile accepts.
pub record IsSafe (va : VaProfile) (pic : Picture) : Type 0 where
  pub headers_parse : (pic.sps.parse_ok ≡ true) × (pic.pps.parse_ok ≡ true)
  pub frames_only :
      (pic.sps.frame_mbs_only_flag ≡ true) × (pic.sps.mb_adaptive_frame_field_flag ≡ false)
  pub no_slice_groups : pic.pps.num_slice_groups_minus1 ≡ 0
  pub slices_plain : All IsFrameSlice pic.slices
  pub in_order : is_out_of_order pic.slices ≡ false
  pub subsampled : pic.sps.chroma_format_idc ≡ 1
  pub depths_equal : pic.sps.bit_depth_luma_minus8 ≡ pic.sps.bit_depth_chroma_minus8
  pub depth_in_profile : pic.sps.bit_depth_luma_minus8 ≤ max_bit_depth_minus8 va
  pub profile_accepted : any (ff_eq (ffmpeg_profile_from_sps pic.sps)) (allowed_ff va) ≡ true

known_nal : (t : ℕ) → nal_is_partition t ≡ false → not (is_known_nal t) ≡ false → (t ≡ 1) ⊎ (t ≡ 5)
known_nal t h k = ground arith

slice_disallowed-sp :
    (allowed : SliceSet) (t : SliceType)
    → slice_disallowed allowed t ≡ none
    → t ≢ SliceType.slice_sp
unfolding slice_disallowed
slice_disallowed-sp allowed t h = ground arith

slice_disallowed-si :
    (allowed : SliceSet) (t : SliceType)
    → slice_disallowed allowed t ≡ none
    → t ≢ SliceType.slice_si
unfolding slice_disallowed
slice_disallowed-si allowed t h = ground arith

-- No slice of the picture fails one of the tests on slices.
slices-IsFrameSlice :
    (allowed : SliceSet) (ss : List Slice)
    → any (λ s. not s.parse_ok) ss ≡ false
    → any (λ s. nal_is_partition s.nal_unit_type) ss ≡ false
    → any (λ s. s.field_pic_flag) ss ≡ false
    → any (λ s. not (is_known_nal s.nal_unit_type)) ss ≡ false
    → any (λ s. s.redundant_pic_cnt != 0) ss ≡ false
    → slices_disallowed allowed ss ≡ none
    → All IsFrameSlice ss
unfolding slices_disallowed
slices-IsFrameSlice allowed [] h1 h2 h3 h4 h5 h = tt
slices-IsFrameSlice allowed (s ∷ ss) h1 h2 h3 h4 h5 h = (
  (
    ground arith,
    ground arith,
    known_nal s.nal_unit_type (ground arith) (ground arith),
    ground arith,
    slice_disallowed-sp allowed s.slice_type (ground arith),
    slice_disallowed-si allowed s.slice_type (ground arith),
  ),
  slices-IsFrameSlice allowed ss (ground arith) (ground arith) (ground arith) (ground arith)
      (ground arith) (ground arith),
)

module _ (va : VaProfile) (pic : Picture) where
  scan-IsSafe :
      scan_picture default_checks pic ≡ none
      → sps_incompatible_with_va pic.sps va ≡ none
      → IsSafe va pic
  unfolding scan_picture picture_disallowed policy_disallowed picture_slice_disallowed
      sps_incompatible_with_va
  scan-IsSafe h k = record {
    headers_parse = (ground arith, ground arith);
    frames_only = (ground arith, ground arith);
    no_slice_groups = ground arith;
    slices_plain =
        slices-IsFrameSlice (allowed_slices_for_ff_profile (ffmpeg_profile_from_sps pic.sps))
          pic.slices (ground arith) (ground arith) (ground arith) (ground arith) (ground arith)
          (ground arith);
    in_order = ground arith;
    subsampled = ground arith;
    depths_equal = ground arith;
    depth_in_profile = ground arith;
    profile_accepted = ground arith;
  }

pub first_reason-none :
    (test : Picture → Option Reason) (i : ℕ) (pics : List Picture)
    → first_reason test i pics ≡ none
    → All (λ pic. test pic ≡ none) pics
unfolding first_reason
first_reason-none test i [] h = tt
first_reason-none test i (pic ∷ pics) h =
    (ground arith, first_reason-none test (suc i) pics (ground arith))

All-IsSafe :
    (va : VaProfile) (pics : List Picture)
    → All (λ pic. scan_picture default_checks pic ≡ none) pics
    → All (λ pic. sps_incompatible_with_va pic.sps va ≡ none) pics
    → All (IsSafe va) pics
All-IsSafe va [] h k = tt
All-IsSafe va (pic ∷ pics) (h, hs) (k, ks) = (scan-IsSafe va pic h k, All-IsSafe va pics hs ks)

-- What a selection of a VA profile has established of the pictures that it scanned.
abbrev pub IsSound : List Picture → List VaProfile → Decision → Type 0
IsSound pics advertised d =
    (va : VaProfile) × (d.va_profile ≡ some va)
    × (is_advertised va advertised ≡ true)
    × All (IsSafe va) pics

select_mapped-IsSound :
    (ff : Option FfProfile) (pics : List Picture) (advertised : List VaProfile)
    (target : Option VaProfile × Reason)
    → All (λ pic. scan_picture default_checks pic ≡ none) pics
    → (select_mapped default_checks ff pics advertised target).status ≡ select
    → IsSound pics advertised (select_mapped default_checks ff pics advertised target)
unfolding select_mapped select_compatible select_advertised
select_mapped-IsSound ff pics advertised (none, why) scanned h = absurd (ground arith)
select_mapped-IsSound ff pics advertised (some va, why) scanned h =
    elim (Option-cases (first_reason (λ pic. sps_incompatible_with_va pic.sps va) 0 pics)) [
      | inl p ↦ (
        va,
        ground arith,
        ground arith,
        All-IsSafe va pics scanned
            (first_reason-none (λ pic. sps_incompatible_with_va pic.sps va) 0 pics p),
      )
      | inr (r, p) ↦ absurd (ground arith)
    ]

select_scanned-IsSound :
    (first : Picture) (pics : List Picture) (advertised : List VaProfile)
    → (select_scanned default_checks first pics advertised).status ≡ select
    → IsSound pics advertised (select_scanned default_checks first pics advertised)
unfolding select_scanned
select_scanned-IsSound first pics advertised h =
    elim (Option-cases (first_reason (scan_picture default_checks) 0 pics)) [
      | inr ((r, i), p) ↦ absurd (ground arith)
      | inl p ↦
          rw (p, select_scanned)
            (select_mapped-IsSound (ffmpeg_profile_from_sps first.sps) pics advertised
              (proposed_va_for_safe_stream (ffmpeg_profile_from_sps first.sps) pics)
              (first_reason-none (scan_picture default_checks) 0 pics p)
              (rw (p, select_scanned) at h))
    ]

-- With the default checks, a selection on an inventory that validates is of a VA profile that is
-- advertised, and every picture of the stream is safe for it.
pub select_proposed-IsSound :
    (stream : Stream) (advertised : Option (List VaProfile)) (d : Decision) (first : Picture)
    (rest : List Picture) (profiles : List VaProfile)
    → validate_inventory stream advertised ≡ ok (first, rest, profiles)
    → select_proposed stream advertised default_checks ≡ ok d
    → d.status ≡ select
    → IsSound (first ∷ rest) profiles d
unfolding select_proposed
select_proposed-IsSound stream advertised d first rest profiles valid h selects =
    let same : select_scanned default_checks first (first ∷ rest) profiles ≡ d =
      cc (rw (valid, select_proposed) at h) in
    subst (IsSound (first ∷ rest) profiles) same
      (select_scanned-IsSound first (first ∷ rest) profiles (cc (same, selects)))
