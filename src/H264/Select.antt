-- ===== src/H264/Select.antt =====
-- `vaapi_current_match`, `select_current` and `select_proposed` of
-- experiments/h264-profile-selection/selection.py.
use omarchy_m1_video.Prelude.{
  ℕ, suc, Bool, true, false, not, Option, none, some, List, [], ◌∷◌, if◌then◌else◌, any, or_default,
}
use omarchy_m1_video.Exec.{Result, ok, err}
use omarchy_m1_video.H264.Inventory.{
  Picture, Stream, SliceType, VaProfile, FfProfile, FixtureError, constrained_baseline, main, high,
  high10, ff_baseline, ff_constrained_baseline, ff_main, ff_extended, ff_high, ff_high10,
  ff_high10_intra, ff_unknown, ff_eq, is_advertised, vaapi_profile_map, validate_inventory,
}
use omarchy_m1_video.H264.Checks.{
  Reason, Checks, picture_disallowed, picture_slice_disallowed, ffmpeg_profile_from_sps,
  sps_incompatible_with_va, baseline_with_b_slices, unmapped_profile, va_profile_not_advertised,
  exact_profile_match, baseline_constrained_subset, extended_main_subset,
  no_h264_va_profile_advertised, allow_profile_mismatch, profile_mismatch,
}

pub data Status : Type 0 where
  select refuse reject : Status

pub data SelectionPath : Type 0 where
  current_path proposed_path : SelectionPath

-- The result of a selection; a key that a result leaves out is `none`.
pub record Decision : Type 0 where
  pub status : Status
  pub reason : Reason
  pub va_profile : Option VaProfile
  pub ffmpeg_profile : Option FfProfile
  pub exact_match : Option Bool
  pub mismatch_uses : Option FfProfile
  pub would_mismatch_to : Option VaProfile
  pub wanted_va_profile : Option VaProfile
  pub picture_index : Option ℕ
  pub path : Option SelectionPath
  pub decoded_frame_evidence : Option Bool

abbrev pub decision : Status → Reason → Option VaProfile → Option FfProfile → Bool → Decision
decision status reason va ff exact = record {
  status = status;
  reason = reason;
  va_profile = va;
  ffmpeg_profile = ff;
  exact_match = some exact;
  mismatch_uses = none;
  would_mismatch_to = none;
  wanted_va_profile = none;
  picture_index = none;
  path = none;
  decoded_frame_evidence = none;
}

-- The two keys that a selection adds, and that `vaapi_current_match` does not have.
abbrev pub on_path : SelectionPath → Decision → Decision
on_path path d = record d { path = some path; decoded_frame_evidence = some false }

-- The keys of a result of `select_proposed`
abbrev pub proposal : Status → Reason → Option VaProfile → Option FfProfile → Bool → Decision
proposal status reason va ff exact = on_path proposed_path (decision status reason va ff exact)

-- What the loop over the map has when it ends: the last row that it took, and `exact`.
unfoldable pub match_rows :
    Option FfProfile
    → List VaProfile
    → List (FfProfile × VaProfile)
    → Option (FfProfile × VaProfile)
    → Bool
    → Option (FfProfile × VaProfile) × Bool
match_rows ff advertised [] matched exact = (matched, exact)
match_rows ff advertised ((row_ff, row_va) ∷ rows) matched exact =
    let skipped = match_rows ff advertised rows matched exact in
    let taken = match_rows ff advertised rows (some (row_ff, row_va)) false in
    if not (is_advertised row_va advertised)
    then skipped
    else if ff_eq ff row_ff
    then (some (row_ff, row_va), true)
    else taken

unfoldable pub match_decision :
    Option FfProfile → Bool → Option (FfProfile × VaProfile) → Bool → Decision
match_decision ff allow none exact = decision refuse no_h264_va_profile_advertised none ff false
match_decision ff allow (some (row_ff, row_va)) exact =
    if exact
    then decision select exact_profile_match (some row_va) ff true
    else if allow
    then record (decision select allow_profile_mismatch (some row_va) ff false) {
      mismatch_uses = some row_ff;
    }
    else record (decision refuse profile_mismatch none ff false) { would_mismatch_to = some row_va }

unfoldable pub vaapi_current_match : Option FfProfile → List VaProfile → Bool → Decision
unfolding match_decision
vaapi_current_match ff advertised allow =
    let (matched, exact) = match_rows ff advertised vaapi_profile_map none false in
    match_decision ff allow matched exact

abbrev pub is_b : SliceType → Bool
is_b SliceType.slice_b = true
is_b _ = false

unfoldable pub has_b_slice : List Picture → Bool
has_b_slice pictures = any (λ pic. any (λ s. is_b s.slice_type) pic.slices) pictures

unfoldable pub proposed_va_for_safe_stream :
    Option FfProfile → List Picture → Option VaProfile × Reason
proposed_va_for_safe_stream (some ff_constrained_baseline) ps =
    (some constrained_baseline, exact_profile_match)
proposed_va_for_safe_stream (some ff_main) ps = (some main, exact_profile_match)
proposed_va_for_safe_stream (some ff_high) ps = (some high, exact_profile_match)
proposed_va_for_safe_stream (some ff_high10) ps = (some high10, exact_profile_match)
proposed_va_for_safe_stream (some ff_high10_intra) ps = (some high10, exact_profile_match)
proposed_va_for_safe_stream (some ff_baseline) ps =
    if has_b_slice ps
    then (none, baseline_with_b_slices)
    else (some constrained_baseline, baseline_constrained_subset)
proposed_va_for_safe_stream (some ff_extended) ps = (some main, extended_main_subset)
proposed_va_for_safe_stream (some (ff_unknown n)) ps = (none, unmapped_profile)
proposed_va_for_safe_stream none ps = (none, unmapped_profile)

abbrev pub or_else : Option Reason → Option Reason → Option Reason
or_else (some r) other = some r
or_else none other = other

-- What the first loop finds in one picture.
unfoldable pub scan_picture : Checks → Picture → Option Reason
scan_picture checks pic = or_else (picture_disallowed pic checks) (
    if checks.slice_types
    then picture_slice_disallowed pic (ffmpeg_profile_from_sps pic.sps)
    else none)

-- The first picture for which the test gives a reason, from an index on.
unfoldable pub first_reason : (Picture → Option Reason) → ℕ → List Picture → Option (Reason × ℕ)
first_reason test i [] = none
first_reason test i (pic ∷ pics) =
    let rest = first_reason test (suc i) pics in
    elim (test pic) [ some r ↦ some (r, i) | none ↦ rest ]

-- `_reject`
abbrev pub rejected : Option FfProfile → Reason → Option ℕ → Decision
rejected ff reason index = record (proposal reject reason none ff false) { picture_index = index }

abbrev pub is_exact : Reason → Bool
is_exact exact_profile_match = true
is_exact _ = false

unfoldable pub select_advertised : Option FfProfile → List VaProfile → VaProfile → Reason → Decision
select_advertised ff advertised va why =
    if not (is_advertised va advertised)
    then record (proposal reject va_profile_not_advertised none ff false) {
      exact_match = none;
      wanted_va_profile = some va;
    }
    else proposal select why (some va) ff (is_exact why)

-- The second loop, which `sps_compat` turns on.
unfoldable pub select_compatible :
    Checks → Option FfProfile → List Picture → List VaProfile → VaProfile → Reason → Decision
unfolding select_advertised
select_compatible checks ff scan advertised va why =
    let done = select_advertised ff advertised va why in
    if checks.sps_compat
    then elim (first_reason (λ pic. sps_incompatible_with_va pic.sps va) 0 scan) [
      | some (reason, i) ↦ rejected ff reason (some i)
      | none ↦ done
    ]
    else done

unfoldable pub select_mapped :
    Checks → Option FfProfile → List Picture → List VaProfile → Option VaProfile × Reason → Decision
unfolding select_compatible
select_mapped checks ff scan advertised (none, why) = rejected ff why none
select_mapped checks ff scan advertised (some va, why) =
    select_compatible checks ff scan advertised va why

unfoldable pub select_scanned : Checks → Picture → List Picture → List VaProfile → Decision
unfolding select_mapped
select_scanned checks first scan advertised =
    let ff = ffmpeg_profile_from_sps first.sps in
    elim (first_reason (scan_picture checks) 0 scan) [
      | some (reason, i) ↦ rejected ff reason (some i)
      | none ↦ select_mapped checks ff scan advertised (proposed_va_for_safe_stream ff scan)
    ]

unfoldable pub select_proposed :
    Stream → Option (List VaProfile) → Checks → Result FixtureError Decision
unfolding select_scanned
select_proposed stream advertised checks = elim (validate_inventory stream advertised) [
  | err e ↦ err e
  | ok (first, rest, profiles) ↦ ok (
      select_scanned checks first (if checks.scan_all_pictures then first ∷ rest else first ∷ [])
        profiles)
]

unfoldable pub select_current :
    Stream → Option (List VaProfile) → Bool → Result FixtureError Decision
unfolding vaapi_current_match
select_current stream advertised allow = elim (validate_inventory stream advertised) [
  | err e ↦ err e
  | ok (first, rest, profiles) ↦ ok (
      on_path current_path (
        vaapi_current_match (ffmpeg_profile_from_sps first.sps) profiles
          (or_default stream.allow_profile_mismatch allow)))
]
