-- ===== src/Capture/Recorded.antt =====
-- The shape of the snapshots that `validate` of experiments/hevc-avd-trace/check.py accepts.
use omarchy_m1_video.Prelude.{
  ℕ, suc, ◌+◌, ◌≡◌, refl, subst, true, false, some, List, [], ◌∷◌, ◌++◌, String, inl, inr, ◌==◌,
  if◌then◌else◌, all, arith, Bool-cases, Option-cases, eq_of_==, append_assoc,
}
use omarchy_m1_video.Exec.{Exec, ok, bind-ok, pure, ◌>>=◌, ◌>>◌}
use omarchy_m1_video.Capture.Rows.{
  Start, Done, Row, started, completed_row, table_row, list_row, motion_row, picture_of,
}
use omarchy_m1_video.Capture.Checker.{Checker}
use omarchy_m1_video.Capture.Groups.{last_done}
use omarchy_m1_video.Capture.Validate.{
  Expected, Normal, pictures, check_ends, open_picture, check_extent, check_commands, check_body,
  check_group, normalize_rows, admit_row, ends_picture, validate_rows,
}

-- The rows of one picture: they open with its start, end with its completion without an error, and
-- are all of this picture, which writes the buffer.
pub record IsGroup (n : ℕ) (g : List Row) : Type 0 where
  pub start : Start
  pub rest : List Row
  pub done : Done
  pub opened : g ≡ started start ∷ rest
  pub closed : last_done rest ≡ some done
  pub succeeded : (done.result ≡ 5) × (done.held.completed ≡ 1)
  pub written_by : (start.picture ≡ n) × (start.held.writer ≡ n)
  pub same_buffer :
      (start.held.buffer ≡ done.held.buffer) × (start.held.allocation ≡ done.held.allocation)
  pub same_picture : all (λ r. picture_of r == n) g ≡ true

-- The groups of the pictures from a number on, to the last one.
pub data Recorded : ℕ → List Row → Type 0 where
  complete : Recorded (pictures + 1) []
  picture :
      {n : ℕ} {g rows : List Row} → IsGroup n g → Recorded (suc n) rows → Recorded n (g ++ rows)

-- A group that is empty or opens with the start of a picture.
abbrev pub Begun : ℕ → List Row → Type 0
Begun n [] = Unit
Begun n (started s ∷ rows) = s.picture ≡ n
Begun n (_ ∷ rows) = true ≡ false

check_ends-IsGroup :
    (n : ℕ) (s : Start) (d : Done) (rows : List Row) (c : Checker) (u : Unit {0})
    → last_done rows ≡ some d
    → s.picture ≡ n
    → (check_ends s d (started s ∷ rows) c).0 ≡ ok u
    → IsGroup n (started s ∷ rows)
unfolding check_ends
check_ends-IsGroup n s d rows c u closed number ran = record {
  start = s;
  rest = rows;
  done = d;
  opened = refl;
  closed = closed;
  succeeded = (ground arith, ground arith);
  written_by = (number, ground arith);
  same_buffer = (ground arith, ground arith);
  same_picture = ground arith;
}

-- A check that returns has passed its first part.
check_body-check_ends :
    (expected : Expected) (s : Start) (d : Done) (g : List Row) (c : Checker) (u : Unit {0})
    → (check_body expected s d g c).0 ≡ ok u
    → (v : Unit {0}) × ((check_ends s d g c).0 ≡ ok v)
unfolding check_body
check_body-check_ends expected s d g c u ran =
    let (v, first, _) =
      bind-ok
        (λ (_ : Unit {0}). do
          open_picture expected s
          check_extent s g
          check_commands expected s g)
        (check_ends s d g) c u ran in
    (v, first)

check_group-IsGroup :
    (expected : Expected) (n : ℕ) (g : List Row) (c : Checker) (u : Unit {0})
    → Begun n g
    → (check_group expected g c).0 ≡ ok u
    → IsGroup n g
unfolding check_group
check_group-IsGroup expected n [] c u begun ran = ground arith
check_group-IsGroup expected n (completed_row d ∷ rows) c u begun ran = ground arith
check_group-IsGroup expected n (table_row t ∷ rows) c u begun ran = ground arith
check_group-IsGroup expected n (list_row l ∷ rows) c u begun ran = ground arith
check_group-IsGroup expected n (motion_row m ∷ rows) c u begun ran = ground arith
check_group-IsGroup expected n (started s ∷ rows) c u begun ran =
    elim (Option-cases (last_done rows)) [
      | inl missing ↦ ground arith
      | inr (d, closed) ↦
          let (v, ends) =
            check_body-check_ends expected s d (started s ∷ rows) c u (ground arith) in
          check_ends-IsGroup n s d rows c v closed begun ends
    ]

pub Begun-append :
    (n : ℕ) (g : List Row) (row : Row) (c : Checker) (u : Unit {0})
    → Begun n g
    → (admit_row g n row c).0 ≡ ok u
    → Begun n (g ++ row ∷ [])
Begun-append n [] (started s) c u begun ran = ground (arith, eq_of_== s.picture n)
Begun-append n [] (completed_row d) c u begun ran = ground arith
Begun-append n [] (table_row t) c u begun ran = ground arith
Begun-append n [] (list_row l) c u begun ran = ground arith
Begun-append n [] (motion_row m) c u begun ran = ground arith
Begun-append n (started s ∷ rows) row c u begun ran = begun
Begun-append n (completed_row d ∷ rows) row c u begun ran = begun
Begun-append n (table_row t ∷ rows) row c u begun ran = begun
Begun-append n (list_row l ∷ rows) row c u begun ran = begun
Begun-append n (motion_row m ∷ rows) row c u begun ran = begun

-- The checks of a finished group, and what comes after it.
unfoldable pub finish_rows : Expected → List Row → ℕ → List Row → Exec Checker String (List Normal)
finish_rows expected group next rows = do
  check_group expected group
  out ← normalize_rows group
  rest ← validate_rows expected [] (suc next) rows
  pure (out ++ rest)

finish_rows-parts :
    (expected : Expected) (group : List Row) (next : ℕ) (rows : List Row) (c : Checker)
    (out : List Normal)
    → (finish_rows expected group next rows c).0 ≡ ok out
    → (u : Unit {0}) × (c' : Checker) × (rest : List Normal) × ((check_group expected group c).0
        ≡ ok u)
      × ((validate_rows expected [] (suc next) rows c').0 ≡ ok rest)
unfolding finish_rows
finish_rows-parts expected group next rows c out ran =
    let (u, first, more) =
      bind-ok
        (λ (_ : Unit {0}). do
          out ← normalize_rows group
          rest ← validate_rows expected [] (suc next) rows
          pure (out ++ rest))
        (check_group expected group) c out ran in
    let c1 = (check_group expected group c).1 in
    let (ns, second, last) =
      bind-ok
        (λ (ns : List Normal). do
          rest ← validate_rows expected [] (suc next) rows
          pure (ns ++ rest))
        (normalize_rows group) c1 out more in
    let c2 = (normalize_rows group c1).1 in
    let (rest, third, _) =
      bind-ok (λ (rest : List Normal). pure (ns ++ rest))
        (validate_rows expected [] (suc next) rows) c2 out last in
    (u, c2, rest, first, third)

-- The rows that are accepted from a picture on, after the rows of that picture so far, are the
-- groups of this picture and of every later one, each exactly once and in order, up to the last.
pub validate_rows-Recorded :
    (expected : Expected) (group : List Row) (next : ℕ) (rows : List Row) (c : Checker)
    (out : List Normal)
    → Begun next group
    → (validate_rows expected group next rows c).0 ≡ ok out
    → Recorded next (group ++ rows)
unfolding validate_rows finish_rows
validate_rows-Recorded expected [] next [] c out begun ran =
    subst (λ n. Recorded n []) (ground arith) complete
validate_rows-Recorded expected (r ∷ group) next [] c out begun ran = ground arith
validate_rows-Recorded expected group next (row ∷ rows) c out begun ran =
    let group' = group ++ row ∷ [] in
    let finish = finish_rows expected group' next rows in
    let more = validate_rows expected group' next rows in
    let (u, admitted, after) =
      bind-ok (λ (_ : Unit {0}). if ends_picture row then finish else more)
        (admit_row group next row) c out ran in
    let c' = (admit_row group next row c).1 in
    let begun' = Begun-append next group row c u begun admitted in
    subst (Recorded next) (append_assoc group (row ∷ []) rows)
      (elim (Bool-cases (ends_picture row)) [
        | inl ends ↦
            let (v, c2, rest, checked, last) =
              finish_rows-parts expected group' next rows c' out
                (subst (λ b. ((if b then finish else more) c').0 ≡ ok out) ends after) in
            picture (check_group-IsGroup expected next group' c' v begun' checked)
              (validate_rows-Recorded expected [] (suc next) rows c2 rest tt last)
        | inr goes_on ↦
            validate_rows-Recorded expected group' next rows c' out begun'
              (subst (λ b. ((if b then finish else more) c').0 ≡ ok out) goes_on after)
      ])
