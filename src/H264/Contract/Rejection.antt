-- ===== src/H264/Contract/Rejection.antt =====
-- What a rejection of `select_proposed` names.
use omarchy_m1_video.Prelude.{
  ℕ, suc, ◌+◌, ◌≡◌, ◌⊎◌, inl, inr, refl, true, false, Option, none, some, List, [], ◌∷◌, arith,
  Option-cases, Bool-cases, All, get_elem?, take, if◌then◌else◌, subst, ap,
}
use omarchy_m1_video.Exec.{ok}
use omarchy_m1_video.H264.Inventory.{VaProfile, FfProfile, Picture, Stream, validate_inventory}
use omarchy_m1_video.H264.Checks.{Reason, Checks, ffmpeg_profile_from_sps, sps_incompatible_with_va}
use omarchy_m1_video.H264.Select.{
  reject, Decision, select_proposed, select_scanned, select_mapped, select_compatible,
  select_advertised, first_reason, scan_picture, proposed_va_for_safe_stream,
}
use omarchy_m1_video.H264.Contract.Proposed.{first_reason-none}

-- A test gives this reason for the picture at a position, and none for the pictures before it.
pub record IsFirst (test : Picture → Option Reason) (pics : List Picture) (i : ℕ) (r : Reason)
    : Type 0 where
  pub picture : Picture
  pub found : get_elem? pics i ≡ some picture
  pub why : test picture ≡ some r
  pub before : All (λ p. test p ≡ none) (take i pics)

abbrev pub compat : VaProfile → Picture → Option Reason
compat va p = sps_incompatible_with_va p.sps va

-- The pictures that a selection scans.
abbrev pub scanned : Checks → Picture → List Picture → List Picture
scanned checks first rest = if checks.scan_all_pictures then first ∷ rest else first ∷ []

-- A rejection that names a picture names the first one that a check turns down, with its reason: a
-- check of the scan, or, when no picture is turned down by the scan, the check against the VA profile.
pub record IsNamed (checks : Checks) (ff : Option FfProfile) (pics : List Picture) (i : ℕ)
    (d : Decision) : Type 0 where
  pub index : d.picture_index ≡ some i
  pub is_reject : (d.status ≡ reject) × (d.va_profile ≡ none) × (d.ffmpeg_profile ≡ ff)
  pub first :
      IsFirst (scan_picture checks) pics i d.reason
      ⊎ (All (λ p. scan_picture checks p ≡ none) pics
          × (checks.sps_compat ≡ true)
          × (va : VaProfile) × (why : Reason) × (proposed_va_for_safe_stream ff pics
              ≡ (some va, why))
          × IsFirst (compat va) pics i d.reason)

-- No picture is named: the scan turns none down, and neither does the check against the VA profile,
-- where there is a profile and the check is on.
abbrev pub IsUnnamed : Checks → Option FfProfile → List Picture → Decision → Type 0
IsUnnamed checks ff pics d =
    (d.picture_index ≡ none)
    × All (λ p. scan_picture checks p ≡ none) pics
    × (((proposed_va_for_safe_stream ff pics).0 ≡ none)
        ⊎ ((checks.sps_compat ≡ false)
            ⊎ ((va : VaProfile) × ((proposed_va_for_safe_stream ff pics).0 ≡ some va)
                × All (λ p. compat va p ≡ none) pics)))

abbrev pub IsExplained : Checks → Option FfProfile → List Picture → Decision → Type 0
IsExplained checks ff pics d = ((i : ℕ) × IsNamed checks ff pics i d) ⊎ IsUnnamed checks ff pics d

-- The reason that a scan returns is that of the first picture with one.
first_reason-IsFirst :
    (test : Picture → Option Reason) (i : ℕ) (ps : List Picture) (r : Reason) (j : ℕ)
    → first_reason test i ps ≡ some (r, j)
    → (k : ℕ) × (j ≡ i + k) × IsFirst test ps k r
unfolding first_reason
first_reason-IsFirst test i [] r j h = absurd (cc h)
first_reason-IsFirst test i (pic ∷ ps) r j h = elim (Option-cases (test pic)) [
  | inr (r', p) ↦
      (0, ground arith, record { picture = pic; found = refl; why = ground arith; before = tt })
  | inl p ↦
      let (k, at, f) = first_reason-IsFirst test (suc i) ps r j (ground arith) in
      (
        suc k,
        omega arith,
        record { picture = f.picture; found = f.found; why = f.why; before = (p, f.before) },
      )
]

at_start :
    (test : Picture → Option Reason) (ps : List Picture) (r : Reason) (j : ℕ)
    → first_reason test 0 ps ≡ some (r, j)
    → IsFirst test ps j r
at_start test ps r j h =
    let (k, at, f) = first_reason-IsFirst test 0 ps r j h in
    subst (λ n. IsFirst test ps n r) (omega arith) f

module _ (checks : Checks) (ff : Option FfProfile) (pics : List Picture)
    (advertised : List VaProfile) where
  select_mapped-IsExplained :
      (target : Option VaProfile × Reason)
      → proposed_va_for_safe_stream ff pics ≡ target
      → All (λ p. scan_picture checks p ≡ none) pics
      → IsExplained checks ff pics (select_mapped checks ff pics advertised target)
  unfolding select_mapped select_compatible select_advertised
  select_mapped-IsExplained (none, why) is h = inr (refl, h, inl (ap (λ t. t.0) is))
  select_mapped-IsExplained (some va, why) is h = elim (Bool-cases checks.sps_compat) [
    | inr off ↦ inr (ground arith, h, inr (inl off))
    | inl on ↦ elim (Option-cases (first_reason (compat va) 0 pics)) [
      | inl p ↦ inr (
        ground arith,
        h,
        inr (inr (va, ap (λ t. t.0) is, first_reason-none (compat va) 0 pics p)),
      )
      | inr ((r, i), p) ↦ inl (
        i,
        record {
          index = ground arith;
          is_reject = (ground arith, ground arith, ground arith);
          first = inr (
            h,
            on,
            va,
            why,
            is,
            subst (IsFirst (compat va) pics i) (ground arith) (at_start (compat va) pics r i p),
          );
        },
      )
    ]
  ]

  select_scanned-IsExplained :
      (first : Picture)
      → ffmpeg_profile_from_sps first.sps ≡ ff
      → IsExplained checks ff pics (select_scanned checks first pics advertised)
  unfolding select_scanned
  select_scanned-IsExplained first same =
      elim (Option-cases (first_reason (scan_picture checks) 0 pics)) [
        | inl p ↦
            rw (p, select_scanned, same)
              (select_mapped-IsExplained (proposed_va_for_safe_stream ff pics) refl
                (first_reason-none (scan_picture checks) 0 pics p))
        | inr ((r, i), p) ↦ inl (
          i,
          record {
            index = ground arith;
            is_reject = (ground arith, ground arith, ground arith);
            first = inl (
                subst (IsFirst (scan_picture checks) pics i) (ground arith)
                  (at_start (scan_picture checks) pics r i p));
          },
        )
      ]

-- A decision of the proposal on an inventory that validates names a picture or none. If it names
-- one, it is a rejection without a VA profile, and the picture is the first of the scanned ones that
-- a check turns down, for the reason that the decision gives: a check of the scan, or, when the scan
-- turns no picture down, the check against the VA profile that the stream maps to. If it names none,
-- the scan turns no picture down, and where the stream maps to a VA profile and the check against it
-- is on, that check turns no picture down either.
pub select_proposed-IsExplained :
    (stream : Stream) (advertised : Option (List VaProfile)) (checks : Checks) (d : Decision)
    (first : Picture) (rest : List Picture) (profiles : List VaProfile)
    → validate_inventory stream advertised ≡ ok (first, rest, profiles)
    → select_proposed stream advertised checks ≡ ok d
    → IsExplained checks (ffmpeg_profile_from_sps first.sps) (scanned checks first rest) d
unfolding select_proposed
select_proposed-IsExplained stream advertised checks d first rest profiles valid h =
    let scan = scanned checks first rest in
    let ff = ffmpeg_profile_from_sps first.sps in
    let same : select_scanned checks first scan profiles ≡ d =
      cc (rw (valid, select_proposed) at h) in
    subst (IsExplained checks ff scan) same
      (select_scanned-IsExplained checks ff scan profiles first refl)
