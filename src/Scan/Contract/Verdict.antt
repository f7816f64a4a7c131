-- ===== src/Scan/Contract/Verdict.antt =====
-- The verdict on a size, and what a consistent cross-check says of each vector.
use omarchy_m1_video.Prelude.{
  ℕ, ◌%◌, ◌≤◌, ◌<◌, ◌≡◌, ◌↔◌, ◌⊎◌, refl, Bool, true, false, List, [], ◌∷◌, arith, All, max,
}
use omarchy_m1_video.Vp9.Layout.{round_up}
use omarchy_m1_video.Vp9.Contract.Layout.{round_up_lem}
use omarchy_m1_video.Scan.Verdict.{
  Verdict, unparsed, within_avd_minimum, below_avd_minimum, size_verdict, ceil_to, Scanned,
  is_consistent, among,
}

ceil_to_lem : (n a : ℕ) → 0 < a → (ceil_to n a % a ≡ 0) × (n ≤ ceil_to n a)
unfolding ceil_to round_up
ceil_to_lem n a p = let (whole, above, _) = round_up_lem n a p in (whole, above)

-- The greater of two multiples.
max-multiple : (m n a : ℕ) → m % a ≡ 0 → n % a ≡ 0 → max m n % a ≡ 0
max-multiple m n a h k = ground arith

-- A size that is reported as below the minimum has a side under 64, the flags say which, and the
-- aligned format that comes with it holds the frame, is at least 64 by 64, and has a width that is a
-- multiple of 64 and a height that is a multiple of 16.
pub size_verdict_below :
    (w h : ℕ) (bw bh : Bool) (aw ah : ℕ)
    → size_verdict w h ≡ below_avd_minimum bw bh aw ah
    → ((w < 64) ⊎ (h < 64))
      × ((bw ≡ true) ↔ (w < 64))
      × ((bh ≡ true) ↔ (h < 64))
      × (aw % 64 ≡ 0)
      × (ah % 16 ≡ 0)
      × (max w 64 ≤ aw)
      × (max h 64 ≤ ah)
unfolding size_verdict
size_verdict_below w h bw bh aw ah p =
    let (wide, wider) = ceil_to_lem w 64 (omega arith) in
    let (high, higher) = ceil_to_lem h 16 (omega arith) in
    let wide64 : max 64 (ceil_to w 64) % 64 ≡ 0 = max-multiple 64 (ceil_to w 64) 64 refl wide in
    let high16 : max 64 (ceil_to h 16) % 16 ≡ 0 = max-multiple 64 (ceil_to h 16) 16 refl high in
    (
      ground arith,
      (λ q. ground arith, λ q. ground arith),
      (λ q. ground arith, λ q. ground arith),
      ground arith,
      ground arith,
      ground arith,
      ground arith,
    )

-- The recorded outcome of a vector is the one that its class predicts.
abbrev pub IsAgreeing : List ℕ → List ℕ → ℕ → Verdict → Type 0
IsAgreeing failing passing v unparsed = false ≡ true
IsAgreeing failing passing v within_avd_minimum =
    (among v passing ≡ true) × (among v failing ≡ false)
IsAgreeing failing passing v (below_avd_minimum _ _ _ _) =
    (among v failing ≡ true) × (among v passing ≡ false)

vector-IsAgreeing :
    (failing passing : List ℕ) (v : ℕ) (class : Verdict) (results : List Scanned)
    → is_consistent failing passing (record { vector = v; class = class } ∷ results) ≡ true
    → IsAgreeing failing passing v class
unfolding is_consistent
vector-IsAgreeing failing passing v unparsed results h = ground arith
vector-IsAgreeing failing passing v within_avd_minimum results h = (ground arith, ground arith)
vector-IsAgreeing failing passing v (below_avd_minimum _ _ _ _) results h =
    (ground arith, ground arith)

-- A cross-check that is consistent has parsed every vector, and each vector below the minimum is
-- recorded as failing and not as passing, and each other one as passing and not as failing.
pub is_consistent_lem :
    (failing passing : List ℕ) (results : List Scanned)
    → is_consistent failing passing results ≡ true
    → All (λ r. IsAgreeing failing passing r.vector r.class) results
unfolding is_consistent
is_consistent_lem failing passing [] h = tt
is_consistent_lem failing passing (r ∷ results) h = (
  vector-IsAgreeing failing passing r.vector r.class results h,
  is_consistent_lem failing passing results (ground arith),
)
