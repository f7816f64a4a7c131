-- ===== src/Capture/Preserved.antt =====
-- The checks of a group in experiments/hevc-avd-trace/check.py leave the known writers as they are,
-- but for the start of the picture.
use omarchy_m1_video.Prelude.{ℕ, suc, Option, none, some, List, [], ◌∷◌, String}
use omarchy_m1_video.Exec.{Result, ok, err}
use omarchy_m1_video.Hevc.Map.Words.{Reason}
use omarchy_m1_video.Hevc.Map.Motion.{Reference}
use omarchy_m1_video.Hevc.Map.Steps.{Mapped}
use omarchy_m1_video.Capture.Rows.{Start, Done, Table, Listed, Motion, Row}
use omarchy_m1_video.Capture.Checker.{Check, Who}
use omarchy_m1_video.Capture.Framed.{
  Framed, framed_rules, pure-Framed, raise-Framed, bind-Framed, check_source-Framed,
}
use omarchy_m1_video.Capture.Groups.{
  from_map, from_check, each, wanted_entries, wanted_lists, check_listed, check_table_row,
  compare_row, check_motion_source, check_motion, compare_table, compare_expected,
}
use omarchy_m1_video.Capture.Validate.{
  Expected, with_expected, check_ends, check_start, check_extent, check_detail, check_lists,
  check_commands, resolve_stamp, normalize_rows,
}

pub from_map-Framed : {A : Type 0} (r : Result Reason A) → Framed (from_map r)
from_map-Framed (ok a) = pure-Framed a
from_map-Framed {A} (err e) = raise-Framed A "Reject"

pub from_check-Framed : {A : Type 0} (r : Result String A) → Framed (from_check r)
from_check-Framed (ok a) = pure-Framed a
from_check-Framed {A} (err e) = raise-Framed A e

pub ruleset preserved_rules =
    (framed_rules, from_map-Framed, from_check-Framed, check_source-Framed)

pub each-Framed :
    {A : Type 0} (check : ℕ → A → Check) (i : ℕ) (xs : List A)
    → ((i : ℕ) → (x : A) → Framed (check i x))
    → Framed (each check i xs)
unfolding each
each-Framed check i [] h = pure-Framed tt
each-Framed check i (x ∷ xs) h =
    bind-Framed (check i x) (λ _. each check (suc i) xs) (h i x)
      (λ _. each-Framed check (suc i) xs h)

wanted_entries-Framed : (li i : ℕ) (slots : List ℕ) (n : ℕ) → Framed (wanted_entries li i slots n)
unfolding wanted_entries
wanted_entries-Framed li i [] n = search preserved_rules
wanted_entries-Framed li i (slot ∷ slots) n =
    let later = wanted_entries-Framed li (suc i) slots n in search preserved_rules depth 20

pub wanted_lists-Framed : (start : Start) (m : Motion) (n : ℕ) → Framed (wanted_lists start m n)
unfolding wanted_lists
wanted_lists-Framed start m n = search (preserved_rules, wanted_entries-Framed) depth 20

pub check_listed-Framed :
    (picture : ℕ) (rs : List Listed) (ws : List (ℕ × ℕ × ℕ × ℕ))
    → Framed (check_listed picture rs ws)
unfolding check_listed
check_listed-Framed picture [] ws = search preserved_rules
check_listed-Framed picture (r ∷ rs) [] = search preserved_rules
check_listed-Framed picture (r ∷ rs) ((li, i, slot, w) ∷ ws) =
    let later = check_listed-Framed picture rs ws in search preserved_rules depth 20

pub compare_row-Framed : (who : Who) (start : Start) (r : Table) → Framed (compare_row who start r)
unfolding compare_row
compare_row-Framed who start r = search preserved_rules depth 40

pub check_table_row-Framed :
    (start : Start) (i : ℕ) (r : Table) → Framed (check_table_row start i r)
unfolding check_table_row
check_table_row-Framed start i r = search (preserved_rules, compare_row-Framed)

check_motion_source-Framed :
    (start : Start) (table : List Table) (m : Motion) → Framed (check_motion_source start table m)
unfolding check_motion_source
check_motion_source-Framed start table m = search preserved_rules depth 40

pub check_motion-Framed :
    (start : Start) (table : List Table) (m : Motion) → Framed (check_motion start table m)
check_motion-Framed start table m = search (preserved_rules, check_motion_source-Framed) depth 20

compare_table-Framed : (ts : List Table) (rs : List Reference) → Framed (compare_table ts rs)
unfolding compare_table
compare_table-Framed [] rs = search preserved_rules
compare_table-Framed (t ∷ ts) [] = search preserved_rules
compare_table-Framed (t ∷ ts) (r ∷ rs) =
    let later = compare_table-Framed ts rs in search preserved_rules depth 20

pub compare_expected-Framed :
    (start : Start) (table : List Table) (lists : List Listed) (m : Motion) (pred : Mapped)
    → Framed (compare_expected start table lists m pred)
unfolding compare_expected
compare_expected-Framed start table lists m pred =
    search (preserved_rules, compare_table-Framed) depth 20

pub with_expected-Framed :
    (expected : Expected) (n : ℕ) (check : Mapped → Check)
    → ((pred : Mapped) → Framed (check pred))
    → Framed (with_expected expected n check)
with_expected-Framed none n check h = pure-Framed tt
with_expected-Framed (some preds) n check h = search preserved_rules depth 20

pub check_start-Framed : (expected : Expected) (start : Start) → Framed (check_start expected start)
unfolding check_start
check_start-Framed expected start = search (preserved_rules, with_expected-Framed) depth 20

pub check_ends-Framed :
    (start : Start) (done : Done) (g : List Row) → Framed (check_ends start done g)
unfolding check_ends
check_ends-Framed start done g = search preserved_rules depth 20

pub check_extent-Framed : (start : Start) (g : List Row) → Framed (check_extent start g)
unfolding check_extent
check_extent-Framed start g = search preserved_rules depth 20

pub check_lists-Framed :
    (expected : Expected) (start : Start) (table : List Table) (lists : List Listed) (m : Motion)
    → Framed (check_lists expected start table lists m)
unfolding check_lists
check_lists-Framed expected start table lists m =
    search
      (
        preserved_rules, wanted_lists-Framed, check_listed-Framed, check_motion-Framed,
        with_expected-Framed, compare_expected-Framed,
      )
      depth 40

pub check_detail-Framed :
    (expected : Expected) (start : Start) (table : List Table) (lists : List Listed) (m : Motion)
    → Framed (check_detail expected start table lists m)
unfolding check_detail
check_detail-Framed expected start table lists m =
    search (preserved_rules, each-Framed, check_table_row-Framed, check_lists-Framed) depth 20

pub check_commands-Framed :
    (expected : Expected) (start : Start) (g : List Row) → Framed (check_commands expected start g)
unfolding check_commands
check_commands-Framed expected start g = search (preserved_rules, check_detail-Framed) depth 20

resolve_stamp-Framed :
    (row : Row) (code : String) (stamp : Option ℕ) → Framed (resolve_stamp row code stamp)
unfolding resolve_stamp
resolve_stamp-Framed row code none = search preserved_rules
resolve_stamp-Framed row code (some stamp) = search preserved_rules depth 20

pub normalize_rows-Framed : (rows : List Row) → Framed (normalize_rows rows)
unfolding normalize_rows
normalize_rows-Framed [] = search preserved_rules
normalize_rows-Framed (row ∷ rows) =
    let later = normalize_rows-Framed rows in
    search (preserved_rules, resolve_stamp-Framed) depth 20
