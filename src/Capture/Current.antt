-- ===== src/Capture/Current.antt =====
-- The buffers that a snapshot shows, on which `validate` of experiments/hevc-avd-trace/check.py
-- reports nothing.
use omarchy_m1_video.Prelude.{ℕ, suc, ◌≡◌, List, [], ◌∷◌, ◌++◌, String, All, if◌then◌else◌}
use omarchy_m1_video.Exec.{Exec, pure, ◌>>=◌}
use omarchy_m1_video.Capture.Rows.{Start, Row, started}
use omarchy_m1_video.Capture.Checker.{Checker}
use omarchy_m1_video.Capture.Groups.{tables}
use omarchy_m1_video.Capture.Validate.{
  Expected, Normal, normalize_rows, ends_picture, validate_rows,
}
use omarchy_m1_video.Capture.Recorded.{finish_rows}
use omarchy_m1_video.Capture.Framed.{Framed}
use omarchy_m1_video.Capture.Silent.{Silent}
use omarchy_m1_video.Capture.Writers.{Follows, IsCurrent}

-- The groups of a snapshot, from a list of the starts before it, the newest first: in each, every row
-- of the table shows a buffer as the last of the starts so far, the group's own included, wrote it.
pub data Shown : List Start → List Row → Type 0 where
  shown_all : {done : List Start} → Shown done []
  shown_group :
      {done : List Start} (s : Start) (g rows : List Row)
      → All (λ t. IsCurrent (s ∷ done) t.held) (tables g)
      → Shown (s ∷ done) rows
      → Shown done ((started s ∷ g) ++ rows)

-- A group that was read, and the state after it.
record Opened (n : ℕ) (done : List Start) (g : List Row) (c : Checker) : Type 0 where
  start : Start
  rest : List Row
  opened : g ≡ started start ∷ rest
  current : All (λ t. IsCurrent (start ∷ done) t.held) (tables rest)
  follows : Follows (suc n) (start ∷ done) c

module _ (expected : Expected) where
  gather : ℕ → List Row → List Normal → Exec Checker String (List Normal)
  gather next rows ns = do rest ← validate_rows expected [] next rows; pure (ns ++ rest)

  after_check : List Row → ℕ → List Row → Unit {0} → Exec Checker String (List Normal)
  after_check group next rows _ = do ns ← normalize_rows group; gather next rows ns

  goes_on : List Row → ℕ → List Row → Row → Unit {0} → Exec Checker String (List Normal)
  goes_on group next rows row _ =
      if ends_picture row
      then finish_rows expected group next rows
      else validate_rows expected group next rows
