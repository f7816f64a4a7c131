-- ===== src/Capture/Validate.antt =====
-- `check_group` and the loop of `validate` of experiments/hevc-avd-trace/check.py.
use omarchy_m1_video.Prelude.{
  ℕ, suc, ◌+◌, ◌-◌, ◌==◌, ◌!=◌, eq_ℤ, Bool, true, false, not, ◌&&◌, Option, none, some, List, [],
  ◌∷◌, ◌++◌, String, if◌then◌else◌, all, leb, ltb, length, get_elem?, replicate, or_default, map,
}
use omarchy_m1_video.Exec.{Exec, Result, pure, raise, gets, modify, when, or_raise, ◌>>=◌, ◌>>◌}
use omarchy_m1_video.Dict.{Dict, put}
use omarchy_m1_video.Hevc.Record.{SliceType, i_type, p_type, b_type, other_type}
use omarchy_m1_video.Hevc.Map.Motion.{bit}
use omarchy_m1_video.Hevc.Map.Steps.{Mapped}
use omarchy_m1_video.Join.Queues.{same_type}
use omarchy_m1_video.Capture.Rows.{
  Start, Done, Table, Listed, Motion, Row, started, completed_row, table_row, list_row, motion_row,
  kind_of, picture_of, motion_word,
}
use omarchy_m1_video.Capture.Checker.{
  Checker, Check, Who, demand, finding, check_value, is_bit, find_history, check_destination,
  new_checker,
}
use omarchy_m1_video.Capture.Groups.{
  from_check, each, tables, listed, motions, last_done, same_list, same_held, wanted_lists,
  check_listed, check_table_row, check_motion, compare_expected,
}

abbrev pub pictures : ℕ
pictures = 300

abbrev pub is_detailed : ℕ → Bool
is_detailed n = leb 24 n && leb n 34

abbrev pub type_of : ℕ → SliceType
type_of n =
    if n == 0 then b_type else if n == 1 then p_type else if n == 2 then i_type else other_type

abbrev pub Expected : Type 0
Expected = Option (List Mapped)

-- `expected[pic - 1]`, where something is expected
abbrev pub with_expected : Expected → ℕ → (Mapped → Check) → Check
with_expected none n check = pure tt
with_expected (some preds) n check = do
  pred ← or_raise (get_elem? preds (n - 1)) "IndexError"
  check pred

-- The checks of a group before the state changes.
unfoldable pub check_ends : Start → Done → List Row → Check
check_ends start done g = do
  demand (all (λ r. picture_of r == start.picture) g) "incomplete/mixed picture group"
  demand
      (leb start.slice_type 2
        && start.slices == 1
        && start.slice_entries == 0
        && leb 1 start.entry_capacity
        && leb start.entry_capacity 256
        && leb start.dpb_count 16)
      "unsupported slice/extent"
  demand
      (ltb 0 start.width && leb start.width 16384 && ltb 0 start.height && leb start.height 16384)
      "invalid negotiated dimensions"
  demand
      (start.held.writer == start.picture
        && start.held.completed == 0
        && done.result == 5
        && done.held.completed == 1)
      "invalid start/completion state"
  demand (same_held start.held done.held) "destination changed before completion"

abbrev pub compare_picture : Start → Mapped → Check
compare_picture start pred =
    check_value (start.picture, 1)
      (eq_ℤ start.poc pred.poc
        && same_type (type_of start.slice_type) pred.slice_type
        && start.held.buffer == pred.destination.buffer)
      "userspace-picture-mismatch"

-- What a group writes: its start is the picture of its buffer from here on.
abbrev pub record_start : Start → Checker → Checker
record_start s c = record c {
  starts = put s.picture s c.starts;
  current_writers = put s.held.buffer s c.current_writers;
  current_allocations = put s.held.buffer s.held.allocation c.current_allocations;
  histories = ((s.held.buffer, s.held.allocation), s.picture) ∷ c.histories;
}

-- What is said of a start before it is recorded.
unfoldable pub check_start : Expected → Start → Check
unfolding find_history
check_start expected start = do
  c ← gets (λ (c : Checker). c)
  let who : Who = (start.picture, 1)
  check_value who
      (start.previous_writer
        == or_default (find_history (start.held.buffer, start.held.allocation) c.histories) 0)
      "destination-previous-writer-mismatch"
  check_value who (start.held.intra == bit (start.slice_type == 2)) "destination-intra-mismatch"
  with_expected expected start.picture (compare_picture start)

unfoldable pub open_picture : Expected → Start → Check
unfolding check_start check_destination
open_picture expected start = do
  check_start expected start
  modify (record_start start)
  check_destination (start.picture, 1) start.held start

-- The kinds of a group's rows, in order.
abbrev pub expected_kinds : ℕ → ℕ → ℕ → List ℕ
expected_kinds t l m = 1 ∷ replicate t 3 ++ replicate l 4 ++ replicate m 5 ++ 2 ∷ []

unfoldable pub check_extent : Start → List Row → Check
unfolding tables listed motions
check_extent start g = do
  let detail = is_detailed start.picture
  let t = length (tables g)
  let m = length (motions g)
  demand (m == bit detail) "missing/duplicate motion record"
  demand (t == (if detail && start.slice_type != 2 then start.dpb_count else 0))
      "missing/extra table records"
  demand (same_list (map kind_of g) (expected_kinds t (length (listed g)) m))
      "unexpected emission ordering"

-- The checks of a picture in the window that follow the loop over its table.
unfoldable pub check_lists : Expected → Start → List Table → List Listed → Motion → Check
unfolding wanted_lists check_listed motion_word compare_expected
check_lists expected start table lists m = do
  wanted ← wanted_lists start m (length table)
  demand (length lists == length wanted) "missing/extra list records"
  check_listed start.picture lists wanted
  check_motion start table m
  word ← from_check (motion_word m)
  check_value (m.picture, 5) (m.word == word) "full-motion-word-mismatch"
  check_value (start.picture, 1) (eq_ℤ start.slice_poc start.poc) "slice-decode-poc-difference"
  with_expected expected start.picture (compare_expected start table lists m)

unfoldable pub check_detail : Expected → Start → List Table → List Listed → Motion → Check
unfolding each check_table_row check_lists
check_detail expected start table lists m = do
  demand (m.slice_type == start.slice_type && m.first == 1) "missing/invalid slice inputs"
  demand (is_bit m.lookup && is_bit m.matched && is_bit m.valid && is_bit m.emitted)
      "invalid motion boolean"
  demand (all (λ b. leb b 255) m.l0 && all (λ b. leb b 255) m.l1) "invalid raw reference byte"
  each (check_table_row start) 0 table
  check_lists expected start table lists m

-- The commands of a picture in the window, and none outside it.
unfoldable pub check_commands : Expected → Start → List Row → Check
unfolding tables listed motions check_detail
check_commands expected start g =
    if is_detailed start.picture
    then (do
      m ← or_raise (get_elem? (motions g) 0) "IndexError"
      check_detail expected start (tables g) (listed g) m)
    else demand (length (listed g) == 0) "command records outside window"

unfoldable pub check_body : Expected → Start → Done → List Row → Check
unfolding check_ends open_picture check_extent check_commands
check_body expected start done g = do
  check_ends start done g
  open_picture expected start
  check_extent start g
  check_commands expected start g

abbrev pub check_started : Expected → List Row → Start → Option Done → Check
check_started expected g start none = raise "incomplete/mixed picture group"
check_started expected g start (some done) = check_body expected start done g

-- `check_group`
unfoldable pub check_group : Expected → List Row → Check
unfolding last_done check_body
check_group expected (started start ∷ rows) =
    check_started expected (started start ∷ rows) start (last_done rows)
check_group expected _ = raise "incomplete/mixed picture group"

-- What stands in a normalized record for a timestamp.
pub record Resolution : Type 0 where
  pub writer : Option ℕ
  pub candidates : List ℕ

-- A normalized record; its row is the recorded one, whose timestamps the two resolutions replace.
pub record Normal : Type 0 where
  pub row : Row
  pub timestamp : Option Resolution
  pub requested_timestamp : Option Resolution

unfoldable pub insert_number : ℕ → List ℕ → List ℕ
insert_number n [] = n ∷ []
insert_number n (m ∷ ms) = let rest = insert_number n ms in if leb n m then n ∷ m ∷ ms else m ∷ rest

-- The pictures of the current writers that have a timestamp, sorted.
unfoldable pub candidates : ℕ → Dict Start → List ℕ
unfolding insert_number
candidates stamp [] = []
candidates stamp ((_, s) ∷ d) =
    let rest = candidates stamp d in
    if s.held.timestamp == stamp then insert_number s.picture rest else rest

abbrev pub only : List ℕ → Option ℕ
only (n ∷ []) = some n
only _ = none

abbrev pub has_buffer : Row → Bool
has_buffer (motion_row m) = m.lookup != 0
has_buffer _ = true

abbrev pub timestamp_of : Row → Option ℕ
timestamp_of (started s) = some s.held.timestamp
timestamp_of (completed_row d) = some d.held.timestamp
timestamp_of (table_row t) = some t.held.timestamp
timestamp_of (motion_row m) = some m.held.timestamp
timestamp_of (list_row l) = none

abbrev pub requested_of : Row → Option ℕ
requested_of (table_row t) = some t.requested_timestamp
requested_of (motion_row m) = some m.requested_timestamp
requested_of _ = none

unfoldable pub resolve_stamp : Row → String → Option ℕ → Exec Checker String (Option Resolution)
unfolding candidates
resolve_stamp row code none = pure none
resolve_stamp row code (some stamp) = do
  c ← gets (λ (c : Checker). c)
  let found = if has_buffer row then candidates stamp c.current_writers else []
  when (ltb 1 (length found)) (finding (picture_of row, kind_of row) code)
  pure (some (record { writer = only found; candidates = found }))

unfoldable pub normalize_rows : List Row → Exec Checker String (List Normal)
unfolding resolve_stamp
normalize_rows [] = pure []
normalize_rows (row ∷ rows) = do
  t ← resolve_stamp row "timestamp-ambiguous-current-writers" (timestamp_of row)
  r ← resolve_stamp row "requested_timestamp-ambiguous-current-writers" (requested_of row)
  rest ← normalize_rows rows
  pure (record { row = row; timestamp = t; requested_timestamp = r } ∷ rest)

abbrev pub is_empty : List Row → Bool
is_empty [] = true
is_empty (_ ∷ _) = false

-- Where a row may come: a start opens a picture, everything else is inside one.
abbrev pub admit_row : List Row → ℕ → Row → Check
admit_row group next (started s) =
    demand (is_empty group && s.picture == next) "missing/duplicate/out-of-order picture"
admit_row group next _ = demand (not (is_empty group)) "record outside picture"

abbrev pub ends_picture : Row → Bool
ends_picture (completed_row d) = true
ends_picture _ = false

-- The loop over the rows, with the group so far and the number of the next picture.
unfoldable pub validate_rows :
    Expected → List Row → ℕ → List Row → Exec Checker String (List Normal)
unfolding check_group normalize_rows
validate_rows expected group next [] = do
  demand (is_empty group && next == pictures + 1) "missing final completion"
  pure []
validate_rows expected group next (row ∷ rows) =
    let more = validate_rows expected (group ++ row ∷ []) next rows in
    let after = validate_rows expected [] (suc next) rows in
    admit_row group next row
    >> (if ends_picture row
        then (do
          check_group expected (group ++ row ∷ [])
          out ← normalize_rows (group ++ row ∷ [])
          rest ← after
          pure (out ++ rest))
        else more)

-- `len(expected) == PICTURES`
abbrev pub has_every_picture : Expected → Check
has_every_picture expected =
    demand (all (λ n. n == pictures) (elim expected [ none ↦ [] | some ps ↦ length ps ∷ [] ]))
      "incomplete userspace oracle"

-- `validate`: the normalized records and the findings, in the order of the code's list reversed.
unfoldable pub validate : List Row → Expected → Result String (List Normal) × Checker
unfolding validate_rows
validate rows expected =
    (has_every_picture expected >> validate_rows expected [] 1 rows) new_checker
