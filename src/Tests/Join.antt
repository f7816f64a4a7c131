-- ===== src/Tests/Join.antt =====
-- Runs of the same-run join.
use omarchy_m1_video.Prelude.{ℕ, ◌≡◌, refl, pos, false, none, List, [], ◌∷◌, String, map, All}
use omarchy_m1_video.Exec.{ok}
use omarchy_m1_video.Checked as Checked
use omarchy_m1_video.Dict as Dict
use omarchy_m1_video.Hevc.Record.{Request, schema_name}
use omarchy_m1_video.Hevc.Trace.Associate as Associate
use omarchy_m1_video.Join.Text as Text
use omarchy_m1_video.Join.Evidence as Evidence
use omarchy_m1_video.Join.Evidence.{KernelEvidence, RefRow}
use omarchy_m1_video.Join.Queues as Queues
use omarchy_m1_video.Join.Queues.{
  VaRow, GstLine, GstRow, OutputRow, parse_gst_queue, parse_associations, matched_line,
}
use omarchy_m1_video.Join.Report as Report
use omarchy_m1_video.Join.Report.{
  Document, Output, Place, va_place, gst_place, va_schema, gst_schema,
}
use omarchy_m1_video.Join.Select as Select
use omarchy_m1_video.Join.Select.{Joined, Selected, join_va, join_gst}
use omarchy_m1_video.Join.Bound.{IsBound}
use omarchy_m1_video.Join.Ordinals.{join_va-IsBound}
use omarchy_m1_video.Join.Frames.{IsFrameBound, join_gst-IsFrameBound}

abbrev request_of : ℕ → ℕ → Request
request_of n target = record {
  schema = schema_name;
  run = "0000000000000001";
  seq = n;
  ctx = 1;
  va_context = "direct-v4l2";
  pic = n;
  req = n;
  first = 1;
  last = 1;
  slices_omitted = none;
  target = target;
  poc = pos n;
  irap = false;
  idr = false;
  ltr_sps = false;
  reorder = 0;
  total_curr = 0;
  dpb = [];
  slices = [];
  st_before = [];
  st_after = [];
  lt_curr = [];
}

abbrev endpoint : ℕ → ℕ → ℕ → ℕ → RefRow
endpoint n kind target completed = record {
  picture = n;
  kind = kind;
  buffer = target;
  writer = n;
  completed = completed;
  result = 5;
  allocation = 70;
  length = 4096;
  comp_start = 0;
  comp_size = 1024;
  mv_size = 256;
  mv_offset = 3840;
}

abbrev digest : String
digest = "00112233445566778899aabbccddeeff00112233445566778899aabbccddeeff"

abbrev evidence : KernelEvidence
evidence = record {
  run = 1;
  context = 1;
  child_pid = 42;
  requests = request_of 1 5 ∷ request_of 2 6 ∷ [];
  associations =
      record { pic = 1; poc = pos 1; system_frame_number = 10 }
      ∷ record { pic = 2; poc = pos 2; system_frame_number = 11 }
      ∷ [];
  reference_records =
      endpoint 1 1 5 0 ∷ endpoint 1 2 5 1 ∷ endpoint 2 1 6 0 ∷ endpoint 2 2 6 1 ∷ [];
  hashes =
      ("command_snapshot", digest)
      ∷ ("execution", digest)
      ∷ ("reference_snapshot", digest)
      ∷ ("v4l2_trace", digest)
      ∷ [];
}

abbrev output_at : Place → ℕ → Output
output_at place capture = record {
  run = "000000000000000a" ∷ "000000000000000b" ∷ [];
  context_generation = "0000000000000001";
  session = "0000000000000003";
  allocation_generation = "0000000000000007";
  writer = "0000000000000009";
  submitted = "0000000000000002";
  completed = "0000000000000002";
  capture_index = capture;
  copied = false;
  sha256 = none;
  place = place;
}

abbrev va_row : ℕ → ℕ → ℕ → VaRow
va_row n target surface = record {
  request = request_of n target;
  observer = record {
    run = "000000000000000a000000000000000b";
    context = 1;
    allocation = 7;
    surface = surface;
    writer = 9;
  };
}

abbrev va_rows : List VaRow
va_rows = va_row 1 5 1 ∷ va_row 2 6 2 ∷ []

-- The second picture comes out first.
abbrev output_rows : List OutputRow
output_rows =
    record { output_index = 0; pic = 2; poc = pos 2 }
    ∷ record { output_index = 1; pic = 1; poc = pos 1 }
    ∷ []

abbrev va_document : Document
va_document = record { schema = va_schema; count = 1; outputs = output_at (va_place 0 30) 6 ∷ [] }

abbrev short : Joined → ℕ
short j = 100

joined_va :
    (j : Joined) × (join_va short evidence va_document va_rows output_rows (0 ∷ []) false digest
      ≡ ok j)
unfolding Text.all_chars Text.count_chars Text.read_number Text.hex Text.hex_nonzero Text.decimal
    Text.starts_with Text.has_word Evidence.counts_from Evidence.check Evidence.endpoints
    Evidence.reference_pair Queues.check_va_row Queues.read_va_rows Queues.parse_va_queue
    Queues.same_projection Queues.read_groups Queues.read_gst_lines Queues.read_gst_rows
    Queues.parse_gst_queue Queues.parse_associations Report.report_identity Report.check_output
    Report.read_outputs Report.validate_report Select.check_projections Select.check_va_match
    Select.select_va Select.bridge_row Select.bridge_rows Select.select_gst Select.select_all
    Select.set_hash Select.result_of Select.join_va Select.join_gst Checked.check_each
    Checked.read_each Dict.lookup Dict.put Dict.remove Dict.map_values Dict.index_by
    Associate.no_repeats
joined_va = (_, refl)

join_va-IsBound_example :
    (map (λ (s : Selected). s.value) joined_va.0.selected ≡ 0 ∷ [])
    × All (IsBound evidence va_rows output_rows) joined_va.0.selected
join_va-IsBound_example =
    join_va-IsBound short evidence va_document va_rows output_rows (0 ∷ []) false digest joined_va.0
      joined_va.1

abbrev gst_document : Document
gst_document = record {
  schema = gst_schema;
  count = 1;
  outputs = output_at (gst_place 11 "000000000000000c") 6 ∷ [];
}

abbrev gst_line : String → String → String → GstLine
gst_line request frame capture = matched_line (record {
  run0 = "000000000000000a";
  run1 = "000000000000000b";
  context = "1";
  allocation = "7";
  request = request;
  writer = "9";
  frame = frame;
  capture = capture;
})

abbrev gst_lines : List GstLine
gst_lines = gst_line "11" "10" "5" ∷ GstLine.other_line ∷ gst_line "12" "11" "6" ∷ []

joined_gst :
    (j : Joined) × (join_gst short evidence gst_document gst_lines output_rows
        (11 ∷ [])
        false
        digest
      ≡ ok j)
unfolding Text.all_chars Text.count_chars Text.read_number Text.hex Text.hex_nonzero Text.decimal
    Text.starts_with Text.has_word Evidence.counts_from Evidence.check Evidence.endpoints
    Evidence.reference_pair Queues.check_va_row Queues.read_va_rows Queues.parse_va_queue
    Queues.same_projection Queues.read_groups Queues.read_gst_lines Queues.read_gst_rows
    Queues.parse_gst_queue Queues.parse_associations Report.report_identity Report.check_output
    Report.read_outputs Report.validate_report Select.check_projections Select.check_va_match
    Select.select_va Select.bridge_row Select.bridge_rows Select.select_gst Select.select_all
    Select.set_hash Select.result_of Select.join_va Select.join_gst Checked.check_each
    Checked.read_each Dict.lookup Dict.put Dict.remove Dict.map_values Dict.index_by
    Associate.no_repeats
joined_gst = (_, refl)

join_gst-IsFrameBound_example :
    (queue : List GstRow) × (outputs : List OutputRow) × (parse_gst_queue gst_lines 2 ≡ ok queue)
    × (parse_associations output_rows 2 ≡ ok outputs)
    × All (IsFrameBound evidence queue outputs) joined_gst.0.selected
join_gst-IsFrameBound_example =
    join_gst-IsFrameBound short evidence gst_document gst_lines output_rows (11 ∷ []) false digest
      joined_gst.0 joined_gst.1
