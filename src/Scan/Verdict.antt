-- ===== src/Scan/Verdict.antt =====
-- `verdict` and the cross-check of `main` of tests/vp9-sub64-scan.py.
use omarchy_m1_video.Prelude.{
  ℕ, ◌+◌, ◌*◌, ◌-◌, ◌/◌, Bool, true, false, not, ◌&&◌, ◌||◌, none, some, List, ltb, ◌==◌,
  if◌then◌else◌, max, any,
}
use omarchy_m1_video.Scan.Header.{Info}

abbrev pub avd_min_coded : ℕ
avd_min_coded = 64

abbrev pub align_w : ℕ
align_w = 64

abbrev pub align_h : ℕ
align_h = 16

pub data Verdict : Type 0 where
  unparsed within_avd_minimum : Verdict
  below_avd_minimum : Bool → Bool → ℕ → ℕ → Verdict

-- `-(-n // a) * a`
unfoldable pub ceil_to : ℕ → ℕ → ℕ
ceil_to n a = (n + a - 1) / a * a

-- Below the minimum: which of width and height are, and the aligned format.
unfoldable pub size_verdict : ℕ → ℕ → Verdict
size_verdict w h =
    if ltb w avd_min_coded || ltb h avd_min_coded
    then below_avd_minimum (ltb w avd_min_coded) (ltb h avd_min_coded)
        (max avd_min_coded (ceil_to w align_w)) (max avd_min_coded (ceil_to h align_h))
    else within_avd_minimum

unfoldable pub verdict : Info → Verdict
unfolding size_verdict
verdict info = elim info.size [
  | none ↦ unparsed
  | some size ↦ size_verdict size.coded_width size.coded_height
]

-- A scanned vector, by number.
pub record Scanned : Type 0 where
  pub vector : ℕ
  pub class : Verdict

abbrev pub is_below : Verdict → Bool
is_below (below_avd_minimum _ _ _ _) = true
is_below _ = false

abbrev pub is_within : Verdict → Bool
is_within within_avd_minimum = true
is_within _ = false

abbrev pub is_unparsed : Verdict → Bool
is_unparsed unparsed = true
is_unparsed _ = false

abbrev pub among : ℕ → List ℕ → Bool
among v vs = any (λ w. w == v) vs

-- `not (below & passing or within & failing or (below | within) - passing - failing
--   or counts.get('unparsed', 0))`
unfoldable pub is_consistent : List ℕ → List ℕ → List Scanned → Bool
is_consistent failing passing results = not (
    any (λ r. is_below r.class && among r.vector passing) results
    || (any (λ r. is_within r.class && among r.vector failing) results
        || (any
              (λ r.
                (is_below r.class || is_within r.class)
                && (not (among r.vector passing) && not (among r.vector failing)))
              results
            || any (λ r. is_unparsed r.class) results)))
