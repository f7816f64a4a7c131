-- ===== src/H264/Contract/Agreement.antt =====
-- Where the two selections meet.
use omarchy_m1_video.Prelude.{
  ◌≡◌, inl, inr, refl, Bool, true, Option, none, some, List, [], ◌∷◌, arith, Option-cases, sym, ap,
  ◌∙◌, or_default, if◌then◌else◌,
}
use omarchy_m1_video.Exec.{Result, ok, err}
use omarchy_m1_video.H264.Inventory.{
  VaProfile, FfProfile, Picture, Stream, FixtureError, ff_baseline, ff_constrained_baseline,
  ff_main, ff_extended, ff_high, ff_high10, ff_high10_intra, ff_unknown, ff_eq, ff_number,
  is_advertised, validate_inventory,
}
use omarchy_m1_video.H264.Checks.{Reason, Checks, ffmpeg_profile_from_sps, exact_profile_match}
use omarchy_m1_video.H264.Select.{
  proposal, on_path, current_path, select, Decision, decision, select_proposed, select_current,
  select_scanned, select_mapped, select_compatible, select_advertised, first_reason, scan_picture,
  proposed_va_for_safe_stream, vaapi_current_match, match_rows, match_decision,
}

-- The decision with the other path in the key `path`.
abbrev pub as_current : Decision → Decision
as_current d = record d { path = some current_path }

-- The profile that the proposal takes as it is, is the one that the map takes.
exact_target :
    (ff : Option FfProfile) (ps : List Picture) (advertised : List VaProfile) (allow : Bool)
    (va : VaProfile)
    → proposed_va_for_safe_stream ff ps ≡ (some va, exact_profile_match)
    → is_advertised va advertised ≡ true
    → vaapi_current_match ff advertised allow
      ≡ decision select exact_profile_match (some va) ff true
unfolding proposed_va_for_safe_stream vaapi_current_match match_rows match_decision ff_eq ff_number
exact_target none ps advertised allow va h p = absurd (ground arith)
exact_target (some ff_baseline) ps advertised allow va h p = absurd (ground arith)
exact_target (some ff_extended) ps advertised allow va h p = absurd (ground arith)
exact_target (some (ff_unknown n)) ps advertised allow va h p = absurd (ground arith)
exact_target (some ff_constrained_baseline) ps advertised allow va h p = ground arith
exact_target (some ff_main) ps advertised allow va h p = ground arith
exact_target (some ff_high) ps advertised allow va h p = ground arith
exact_target (some ff_high10) ps advertised allow va h p = ground arith
exact_target (some ff_high10_intra) ps advertised allow va h p = ground arith

module _ (checks : Checks) (ff : Option FfProfile) (ps : List Picture)
    (advertised : List VaProfile) where
  select_mapped-exact :
      (target : Option VaProfile × Reason)
      → (select_mapped checks ff ps advertised target).status ≡ select
      → (select_mapped checks ff ps advertised target).exact_match ≡ some true
      → (va : VaProfile) × (target ≡ (some va, exact_profile_match))
        × (is_advertised va advertised ≡ true)
        × (select_mapped checks ff ps advertised target
            ≡ proposal select exact_profile_match (some va) ff true)
  unfolding select_mapped select_compatible select_advertised
  select_mapped-exact (none, why) h e = absurd (ground arith)
  select_mapped-exact (some va, why) h e = (va, ground arith, ground arith, ground arith)

select_scanned-exact :
    (checks : Checks) (first : Picture) (ps : List Picture) (advertised : List VaProfile)
    (allow : Bool)
    → (select_scanned checks first ps advertised).status ≡ select
    → (select_scanned checks first ps advertised).exact_match ≡ some true
    → on_path current_path
        (vaapi_current_match (ffmpeg_profile_from_sps first.sps) advertised allow)
      ≡ as_current (select_scanned checks first ps advertised)
unfolding select_scanned
select_scanned-exact checks first ps advertised allow h e =
    elim (Option-cases (first_reason (scan_picture checks) 0 ps)) [
      | inr ((r, i), p) ↦ absurd (ground arith)
      | inl p ↦
          let ff = ffmpeg_profile_from_sps first.sps in
          let (va, target, offered, is) =
            select_mapped-exact checks ff ps advertised (proposed_va_for_safe_stream ff ps)
              (rw (p, select_scanned) at h) (rw (p, select_scanned) at e) in
          rw (p, select_scanned)
            (ap (on_path current_path) (exact_target ff ps advertised allow va target offered)
              ∙ ap as_current (sym is))
    ]

-- Where the proposal selects a VA profile as an exact match, whatever checks are on, the current
-- path decides the same on the same stream, in every key but the one that names the path.
pub select_proposed-select_current :
    (stream : Stream) (advertised : Option (List VaProfile)) (checks : Checks) (allow : Bool)
    (d : Decision)
    → select_proposed stream advertised checks ≡ ok d
    → d.status ≡ select
    → d.exact_match ≡ some true
    → select_current stream advertised allow ≡ ok (as_current d)
unfolding select_proposed select_current
select_proposed-select_current stream advertised checks allow d h selects exact =
    by_inventory (validate_inventory stream advertised) refl
  where
    by_inventory :
        (v : Result FixtureError (Picture × List Picture × List VaProfile))
        → validate_inventory stream advertised ≡ v
        → select_current stream advertised allow ≡ ok (as_current d)
    by_inventory (err e) p = absurd (cc (rw (p, select_proposed) at h))
    by_inventory (ok (first, rest, profiles)) p =
        let scan = if checks.scan_all_pictures then first ∷ rest else first ∷ [] in
        let is : select_scanned checks first scan profiles ≡ d =
          cc (rw (p, select_proposed) at h) in
        rw (p, select_current)
          (ap ok (
            select_scanned-exact checks first scan profiles
              (or_default stream.allow_profile_mismatch allow) (cc (is, selects)) (cc (is, exact))
            ∙ ap as_current is))
