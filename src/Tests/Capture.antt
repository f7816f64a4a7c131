-- ===== src/Tests/Capture.antt =====
-- Runs of the snapshot checker.
use omarchy_m1_video.Prelude.{
  ℕ, zero, suc, ◌≡◌, ◌==◌, ◌%◌, ◌-◌, ◌++◌, refl, pos, Bool, true, false, String, none, List, [],
  ◌∷◌, replicate, ◌+◌, if◌then◌else◌,
}
use omarchy_m1_video.Exec.{Result, ok, err}
use omarchy_m1_video.Dict as Dict
use omarchy_m1_video.Capture.Rows as Rows
use omarchy_m1_video.Capture.Rows.{Held, Start, Row, Motion, started, completed_row}
use omarchy_m1_video.Capture.Read as Read
use omarchy_m1_video.Join.Text as Text
use omarchy_m1_video.Checked as Checked
use omarchy_m1_video.Capture.Checker as Checker
use omarchy_m1_video.Capture.Checker.{new_checker}
use omarchy_m1_video.Capture.Groups as Groups
use omarchy_m1_video.Capture.Validate as Validate
use omarchy_m1_video.Capture.Validate.{Normal, validate_rows, validate}
use omarchy_m1_video.Hevc.Map.Words as Words
use omarchy_m1_video.Capture.Recorded.{Recorded, validate_rows-Recorded}

-- A buffer of a picture of 64 by 64.
abbrev held_by : ℕ → ℕ → Held
held_by n completed = record {
  buffer = 3;
  timestamp = 1000 + n;
  copied = 1;
  intra = 1;
  writer = n;
  completed = completed;
  allocation = 9;
  length = 4096;
  comp_start = 0;
  comp_size = 2048;
  offsets = 0 ∷ 512 ∷ 1024 ∷ 1536 ∷ [];
  mv_size = 256;
  mv_offset = 3840;
  bounds = 1;
  memory = 1;
}

abbrev start_of : ℕ → Start
start_of n = record {
  picture = n;
  previous_writer = 0;
  poc = pos n;
  slice_poc = pos n;
  slice_type = 2;
  slices = 1;
  entry_capacity = 16;
  dpb_count = 0;
  width = 64;
  height = 64;
  held = held_by n 0;
  slice_entries = 0;
}

abbrev last_rows : List Row
last_rows =
    started (start_of 300)
    ∷ completed_row (record { picture = 300; result = 5; held = held_by 300 1 })
    ∷ []

validated : (out : List Normal) × ((validate_rows none [] 300 last_rows new_checker).0 ≡ ok out)
unfolding Rows.motion_word Checker.find_history Checker.check_layout Checker.check_allocation
    Checker.check_writer Checker.check_reference Checker.check_source Checker.check_destination
    Groups.each Groups.tables Groups.listed Groups.motions Groups.last_done Groups.wanted_entries
    Groups.wanted_lists Groups.check_listed Groups.compare_row Groups.check_table_row
    Groups.check_motion_source Groups.compare_table Groups.of_list Groups.compare_expected
    Validate.check_ends Validate.check_start Validate.open_picture Validate.check_extent
    Validate.check_lists Validate.check_detail Validate.check_commands Validate.check_body
    Validate.check_group Validate.insert_number Validate.candidates Validate.resolve_stamp
    Validate.normalize_rows Validate.validate_rows Validate.validate Dict.lookup Dict.put
    Dict.remove Dict.map_values Dict.index_by
validated = (_, refl)

validate_rows-Recorded_example : Recorded 300 last_rows
validate_rows-Recorded_example =
    validate_rows-Recorded none [] 300 last_rows new_checker validated.0 tt validated.1

-- A list row: 72 values of which four are used.
listed_row :
    Read.read_row 7 1 1
      ("R" ∷ "7" ∷ "1" ∷ "1" ∷ "4" ∷ "30" ∷ "0" ∷ "1" ∷ "2" ∷ "99" ∷ replicate 68 "0")
    ≡ ok (Rows.list_row (record { picture = 30; list = 0; position = 1; slot = 2; word = 99 }))
unfolding Read.read_kind Read.read_row Read.read_header Read.read_capture Text.all_chars
    Text.count_chars Text.read_number Text.hex Text.hex_nonzero Text.decimal Text.starts_with
    Text.has_word Checked.check_each Checked.read_each
listed_row = refl

-- A snapshot of 300 pictures of 64 by 64 in two buffers by turns. All are I pictures but the 24th,
-- which refers to the 23rd.
abbrev is_inter : ℕ → Bool
is_inter n = n == 24

abbrev turn : ℕ → ℕ → Held
turn n completed = record (held_by n completed) {
  buffer = n % 2;
  allocation = 10 + n % 2;
  intra = if is_inter n then 0 else 1;
}

abbrev blank : Held
blank = record {
  buffer = 0;
  timestamp = 0;
  copied = 0;
  intra = 0;
  writer = 0;
  completed = 0;
  allocation = 0;
  length = 0;
  comp_start = 0;
  comp_size = 0;
  offsets = 0 ∷ 0 ∷ 0 ∷ 0 ∷ [];
  mv_size = 0;
  mv_offset = 0;
  bounds = 0;
  memory = 0;
}

abbrev intra_motion : ℕ → Motion
intra_motion n = record {
  picture = n;
  flags = 0;
  slice_type = 2;
  merge = 0;
  l0_minus1 = 0;
  l1_minus1 = 0;
  col_index = 0;
  first = 1;
  slot = 0;
  requested_timestamp = 0;
  lookup = 0;
  matched = 0;
  valid = 0;
  word = 0x2d020000;
  emitted = 0;
  held = blank;
  l0 = replicate 16 0;
  l1 = replicate 16 0;
  emitted_mv = 0;
  quirks = 0;
}

abbrev inter_rows : ℕ → List Row
inter_rows n =
    Rows.table_row (record {
      picture = n;
      slot = 0;
      poc = pos 23;
      flags = 0;
      requested_timestamp = 1023;
      word = 16777217;
      matched = 1;
      held = turn 23 1;
      emitted_comp = 0 ∷ 512 ∷ 1024 ∷ 1536 ∷ [];
    })
    ∷ Rows.list_row (record { picture = n; list = 0; position = 0; slot = 0; word = 0x2dc00000 })
    ∷ Rows.motion_row (record (intra_motion n) {
      slice_type = 1;
      requested_timestamp = 1023;
      lookup = 1;
      matched = 1;
      word = 755040330;
      held = turn 23 1;
    })
    ∷ []

abbrev commands : ℕ → List Row
commands n =
    if is_inter n
    then inter_rows n
    else if Validate.is_detailed n
    then Rows.motion_row (intra_motion n) ∷ []
    else []

abbrev group_of : ℕ → List Row
group_of n =
    started (record (start_of n) {
      previous_writer = n - 2;
      slice_type = if is_inter n then 1 else 2;
      dpb_count = if is_inter n then 1 else 0;
      held = turn n 0;
    })
      ∷ commands n
    ++ completed_row (record { picture = n; result = 5; held = turn n 1 }) ∷ []

abbrev snapshot : ℕ → ℕ → List Row
snapshot zero n = []
snapshot (suc k) n = group_of n ++ snapshot k (suc n)

abbrev is_ok : Result String (List Normal) → Bool
is_ok (ok out) = true
is_ok (err e) = false

abbrev normals : Result String (List Normal) → List Normal
normals (ok out) = out
normals (err e) = []

abbrev run : Result String (List Normal) × Checker.Checker
run = validate (snapshot 300 1) none
