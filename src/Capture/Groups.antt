-- ===== src/Capture/Groups.antt =====
-- `check_group` and `compare_expected` in `validate` of experiments/hevc-avd-trace/check.py. What
-- `map_records` predicts is the `Mapped` of the reference map.
use Prim.Native.Nat.{bit_and}
use omarchy_m1_video.Prelude.{
  ℕ, suc, ◌+◌, ◌==◌, ◌!=◌, ℤ, eq_ℤ, Bool, true, false, not, ◌&&◌, ◌||◌, Option, none, some, List,
  [], ◌∷◌, ◌++◌, String, if◌then◌else◌, all, ltb, length, take, get_elem?,
}
use omarchy_m1_video.Exec.{Exec, Result, ok, err, pure, raise, gets, when, or_raise, ◌>>=◌, ◌>>◌}
use omarchy_m1_video.Dict.{lookup}
use omarchy_m1_video.Hevc.Map.Words.{Reason, ref_header, ref_list_word}
use omarchy_m1_video.Hevc.Map.Motion.{bit, Reference}
use omarchy_m1_video.Hevc.Map.Steps.{Mapped, ListEntry}
use omarchy_m1_video.Capture.Rows.{
  Held, Start, Done, Table, Listed, Motion, Row, completed_row, table_row, list_row, motion_row,
  has_flag, tmvp, col_l0, dependent,
}
use omarchy_m1_video.Capture.Checker.{
  Checker, Check, Who, demand, check_value, is_bit, check_source,
}

-- A result of the reference map, whose `Reject` is a ValueError like this checker's.
abbrev pub from_map : {A : Type 0} → Result Reason A → Exec Checker String A
from_map (ok a) = pure a
from_map (err e) = raise "Reject"

abbrev pub from_check : {A : Type 0} → Result String A → Exec Checker String A
from_check (ok a) = pure a
from_check (err e) = raise e

-- `for r in rows: check(r)`
unfoldable pub each : {A : Type 0} → (ℕ → A → Check) → ℕ → List A → Check
each check i [] = pure tt
each check i (x ∷ xs) = check i x >> each check (suc i) xs

-- The rows of one kind.
unfoldable pub tables : List Row → List Table
tables [] = []
tables (table_row t ∷ rows) = t ∷ tables rows
tables (_ ∷ rows) = tables rows

unfoldable pub listed : List Row → List Listed
listed [] = []
listed (list_row l ∷ rows) = l ∷ listed rows
listed (_ ∷ rows) = listed rows

unfoldable pub motions : List Row → List Motion
motions [] = []
motions (motion_row m ∷ rows) = m ∷ motions rows
motions (_ ∷ rows) = motions rows

unfoldable pub last_done : List Row → Option Done
last_done [] = none
last_done (completed_row d ∷ []) = some d
last_done (_ ∷ rows) = last_done rows

abbrev pub same_list : List ℕ → List ℕ → Bool
same_list [] [] = true
same_list (a ∷ xs) (b ∷ ys) = a == b && same_list xs ys
same_list _ _ = false

-- Two buffer rows agree but for `completed`.
abbrev pub same_held : Held → Held → Bool
same_held a b =
    a.buffer == b.buffer
    && a.timestamp == b.timestamp
    && a.copied == b.copied
    && a.intra == b.intra
    && a.writer == b.writer
    && a.allocation == b.allocation
    && a.length == b.length
    && a.comp_start == b.comp_start
    && a.comp_size == b.comp_size
    && same_list a.offsets b.offsets
    && a.mv_size == b.mv_size
    && a.mv_offset == b.mv_offset
    && a.bounds == b.bounds
    && a.memory == b.memory

-- `expected_lists`: the entries that the active lists of a picture make.
unfoldable pub wanted_entries : ℕ → ℕ → List ℕ → ℕ → Exec Checker String (List (ℕ × ℕ × ℕ × ℕ))
wanted_entries li i [] table_length = pure []
wanted_entries li i (slot ∷ slots) table_length = do
  demand (ltb slot table_length) "active list outside recorded table"
  w ← from_map (ref_list_word li i slot)
  rest ← wanted_entries li (suc i) slots table_length
  pure ((li, i, slot, w) ∷ rest)

unfoldable pub wanted_lists : Start → Motion → ℕ → Exec Checker String (List (ℕ × ℕ × ℕ × ℕ))
unfolding wanted_entries
wanted_lists start m n = if start.slice_type == 2 then pure [] else (do
  demand (ltb m.l0_minus1 16 && ltb m.l1_minus1 16) "oversized lists"
  first ← wanted_entries 0 0 (take (m.l0_minus1 + 1) m.l0) n
  second ←
      if start.slice_type == 0 then wanted_entries 1 0 (take (m.l1_minus1 + 1) m.l1) n else pure []
  pure (first ++ second))

-- The loop over the list rows and the wanted entries.
unfoldable pub check_listed : ℕ → List Listed → List (ℕ × ℕ × ℕ × ℕ) → Check
check_listed picture (r ∷ rs) ((li, i, slot, w) ∷ ws) = do
  demand (r.list == li && r.position == i) "missing/duplicate list position"
  check_value (picture, 4) (r.list == li && r.position == i && r.slot == slot && r.word == w)
      "reference-list-word-mismatch"
  check_listed picture rs ws
check_listed picture _ _ = pure tt

-- The start of a writer, and whether it has an order count.
abbrev pub poc_fits : Option Start → ℤ → Bool
poc_fits none poc = true
poc_fits (some s) poc = eq_ℤ s.poc poc

abbrev pub comp_fits : ℕ → List ℕ → List ℕ → Bool
comp_fits start [] [] = true
comp_fits start (c ∷ cs) (o ∷ os) = c == start + o && comp_fits start cs os
comp_fits start _ _ = false

-- What the body of the loop over the table says of a row once its buffer is checked.
unfoldable pub compare_row : Who → Start → Table → Check
compare_row who start r = do
  check_value who (r.matched == 1) "reference-lookup-fallback"
  check_value who (r.requested_timestamp == r.held.timestamp) "lookup-timestamp-mismatch"
  check_value who (ltb r.held.writer start.picture) "reference-aliases-current-destination"
  c ← gets (λ (c : Checker). c)
  check_value who (poc_fits (lookup r.held.writer c.starts) r.poc) "reference-poc-mismatch"
  header ←
      from_map
        (ref_header start.dpb_count (bit (has_flag r.flags 1)) (some start.slice_poc) (some r.poc))
  word ← or_raise header.value "TypeError"
  check_value who (r.word == word) "reference-header-word-mismatch"
  check_value who (comp_fits r.held.comp_start r.emitted_comp r.held.offsets)
      "compressed-address-mismatch"

-- The body of the loop over the table.
unfoldable pub check_table_row : Start → ℕ → Table → Check
unfolding check_source compare_row
check_table_row start i r = do
  let who : Who = (r.picture, 3)
  demand (r.slot == i && is_bit r.matched) "missing/duplicate table slot"
  check_source who r.held start
  compare_row who start r

-- An I slice has read and emitted nothing.
abbrev pub is_blank_held : Held → Bool
is_blank_held h =
    h.buffer == 0
    && h.timestamp == 0
    && h.copied == 0
    && h.intra == 0
    && h.writer == 0
    && h.completed == 0
    && h.allocation == 0
    && h.length == 0
    && h.comp_start == 0
    && h.comp_size == 0
    && all (λ x. x == 0) h.offsets
    && h.mv_size == 0
    && h.mv_offset == 0
    && h.bounds == 0
    && h.memory == 0

abbrev pub is_blank : Motion → Bool
is_blank m =
    m.lookup == 0
    && m.matched == 0
    && m.valid == 0
    && m.emitted == 0
    && m.slot == 0
    && m.requested_timestamp == 0
    && m.emitted_mv == 0
    && is_blank_held m.held

-- `gate`
abbrev pub gate : Motion → Bool
gate m =
    not (has_flag m.flags dependent) && has_flag m.flags tmvp && m.first != 0 && m.held.intra == 0

-- The motion row of a slice that is not an I slice.
unfoldable pub check_motion_source : Start → List Table → Motion → Check
unfolding check_source
check_motion_source start table m = do
  let who : Who = (m.picture, 5)
  demand (m.lookup == 1 && ltb m.col_index 16) "non-I lookup omitted/invalid (including TMVP off)"
  let from_l0 = start.slice_type == 1 || has_flag m.flags col_l0
  slot ← or_raise (get_elem? (if from_l0 then m.l0 else m.l1) m.col_index) "KeyError"
  t ← or_raise (get_elem? table slot) "collocated slot outside experiment domain"
  check_value who (m.slot == slot) "collocated-slot-mismatch"
  check_source who m.held start
  check_value who (m.matched == 1) "motion-lookup-fallback"
  check_value who
      (m.requested_timestamp == t.requested_timestamp && t.requested_timestamp == m.held.timestamp)
      "motion-lookup-timestamp-mismatch"
  check_value who (same_held m.held t.held && m.held.completed == t.held.completed)
      "motion-table-state-mismatch"
  check_value who (m.valid == bit (gate m) && m.emitted == bit (gate m)) "motion-gate-mismatch"
  check_value who (m.emitted_mv == (if m.emitted != 0 then m.held.mv_offset else 0))
      "motion-address-mismatch"

abbrev pub check_motion : Start → List Table → Motion → Check
check_motion start table m =
    if start.slice_type == 2
    then demand (is_blank m) "I-slice lookup/address violates early return"
    else check_motion_source start table m

-- The comparison of the table with the references that were predicted.
unfoldable pub compare_table : List Table → List Reference → Check
compare_table (t ∷ ts) (r ∷ rs) = do
  check_value (t.picture, 3)
      (t.slot == r.slot
        && eq_ℤ t.poc r.writer.poc
        && bit (has_flag t.flags 1) == r.long_term
        && t.held.buffer == r.writer.buffer
        && t.held.writer == r.writer.picture
        && t.held.intra == bit r.writer.is_intra)
      "userspace-reference-mismatch"
  compare_table ts rs
compare_table _ _ = pure tt

abbrev pub same_entries : List Listed → List ListEntry → Bool
same_entries [] [] = true
same_entries (r ∷ rs) (w ∷ ws) = r.slot == w.slot && r.word == w.word && same_entries rs ws
same_entries _ _ = false

unfoldable pub of_list : ℕ → List Listed → List Listed
of_list li [] = []
of_list li (r ∷ rs) = let rest = of_list li rs in if r.list == li then r ∷ rest else rest

-- `compare_expected`, where there is something to compare with
unfoldable pub compare_expected : Start → List Table → List Listed → Motion → Mapped → Check
unfolding compare_table of_list
compare_expected start table lists m pred = do
  let who : Who = (start.picture, 1)
  when (start.slice_type != 2) (
      check_value who (length table == length pred.dpb) "userspace-dpb-count-mismatch"
      >> compare_table table pred.dpb)
  check_value who (same_entries (of_list 0 lists) pred.list0) "userspace-list-mismatch"
  check_value who (same_entries (of_list 1 lists) pred.list1) "userspace-list-mismatch"
  check_value (m.picture, 5)
      (bit_and m.word pred.motion.word.known_mask == pred.motion.word.known_value)
      "userspace-known-motion-bit-mismatch"
