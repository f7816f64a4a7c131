-- ===== src/Tests/Hevc.antt =====
-- Runs of the HEVC reference checkers.
use omarchy_m1_video.Prelude.{
  ℕ, ◌≡◌, ◌≢◌, refl, pos, true, false, Bool, Option, none, some, List, [], ◌∷◌, ◌++◌, String, map,
  replicate, length, all,
}
use omarchy_m1_video.Exec.{ok, err}
use omarchy_m1_video.Checked as Checked
use omarchy_m1_video.Dict as Dict
use omarchy_m1_video.Hevc.Record.{Request}
use omarchy_m1_video.Hevc.Map.Words as Words
use omarchy_m1_video.Hevc.Map.Lookup as Lookup
use omarchy_m1_video.Hevc.Map.Lookup.{Slot, Found, kernel_lookup}
use omarchy_m1_video.Hevc.Map.Lowest.{is_answer, kernel_lookup-lowest}
use omarchy_m1_video.Hevc.Map.Motion as Motion
use omarchy_m1_video.Hevc.Map.Steps as MapSteps
use omarchy_m1_video.Hevc.Map.Steps.{Mapped, map_records}
use omarchy_m1_video.Hevc.Map.Refines.{Explains, map_records-Explains}
use omarchy_m1_video.Hevc.Trace.Event as Event
use omarchy_m1_video.Hevc.Trace.Event.{
  Ioctl, Buffer, BufferType, Control, ControlId, SpsParams, DecodeParams, DpbParams, SliceParams,
  request_val, output, capture,
}
use omarchy_m1_video.Hevc.Agree.{normalize-map_records}
use omarchy_m1_video.Hevc.Trace.State.{Trace, all_complete}
use omarchy_m1_video.Hevc.Trace.Requests as Requests
use omarchy_m1_video.Hevc.Trace.Buffers as Buffers
use omarchy_m1_video.Hevc.Trace.Slices as Slices
use omarchy_m1_video.Hevc.Trace.Steps as Steps
use omarchy_m1_video.Hevc.Trace.Steps.{read_trace}
use omarchy_m1_video.Hevc.Trace.Emit as Emit
use omarchy_m1_video.Hevc.Trace.Emit.{Association, normalize}
use omarchy_m1_video.Hevc.Trace.Numbered.{IsSound, read_trace-IsSound}
use omarchy_m1_video.Hevc.Trace.Consistent.{Consistent, normalize-Consistent}
use omarchy_m1_video.Hevc.Trace.Associate as Associate
use omarchy_m1_video.Hevc.Trace.Associate.{Log, Frame, output_picture, other_line, associate}
use omarchy_m1_video.Hevc.Trace.Matched.{Outputs, output_order, is_covered, associate-Outputs}

abbrev blank : Event.Event
blank = record {
  ioctl = none;
  fd = some 3;
  errno = none;
  opened = false;
  closing = false;
  driver_fd = none;
  ext_controls = none;
  user_buffer = none;
  driver_buffer = none;
}

abbrev buffer_at : BufferType → ℕ → ℕ → List String → ℕ → Buffer
buffer_at kind index usec names fd = record {
  buffer_type = kind;
  index = index;
  flags = names;
  request_fd = some fd;
  timestamp_ns = Prim.Native.Nat.◌*◌ usec 1000;
  tv_sec = 0;
  tv_usec = usec;
  length = 1;
  planes = 100 ∷ [];
}

abbrev entry_of : ℕ → ℕ → DpbParams
entry_of ts poc = record { timestamp = ts; pic_order_cnt_val = pos poc; flags = []; field_pic = 0 }

abbrev decode_of : ℕ → ℕ → DecodeParams
decode_of poc active = record {
  flags = [];
  pic_order_cnt_val = pos poc;
  num_active_dpb_entries = active;
  dpb = replicate 16 (entry_of 1000 0);
  num_poc_st_curr_before = active;
  num_poc_st_curr_after = 0;
  num_poc_lt_curr = 0;
  poc_st_curr_before = replicate 16 0;
  poc_st_curr_after = replicate 16 0;
  poc_lt_curr = replicate 16 0;
}

abbrev slice_of : ℕ → SliceParams
slice_of kind = record {
  flags = [];
  slice_type = kind;
  nal_unit_type = 1;
  num_ref_idx_l0_active_minus1 = 0;
  num_ref_idx_l1_active_minus1 = 0;
  ref_idx_l0 = replicate 16 0;
  ref_idx_l1 = replicate 16 0;
  collocated_ref_idx = 0;
}

abbrev sps_of : SpsParams
sps_of = record { flags = [] }

abbrev control_of :
    ControlId → ℕ → Option SpsParams → Option DecodeParams → Option SliceParams → Control
control_of i size s d l = record {
  id = i;
  size = size;
  sps = s;
  decode_params = d;
  slice_params = l;
}

abbrev controls_of : ℕ → ℕ → ℕ → List Control
controls_of poc active kind =
    control_of ControlId.sps_id 40 (some sps_of) none none
    ∷ control_of ControlId.decode_params_id 328 none (some (decode_of poc active)) none
    ∷ control_of ControlId.slice_params_id 280 none none (some (slice_of kind))
    ∷ []

-- The events of one picture: its request, its time, its capture buffer and its controls.
abbrev picture_events : ℕ → ℕ → ℕ → List Control → List Event.Event
picture_events fd usec target cs =
    record blank { ioctl = some Ioctl.request_alloc; fd = some 9; driver_fd = some fd }
    ∷ record blank {
      ioctl = some Ioctl.s_ext_ctrls;
      ext_controls =
          some (record { which = request_val; count = 3; controls = cs; request_fd = some fd });
    }
    ∷ record blank {
      ioctl = some Ioctl.qbuf;
      user_buffer = some (buffer_at output 0 usec ("V4L2_BUF_FLAG_REQUEST_FD" ∷ []) fd);
    }
    ∷ record blank {
      ioctl = some Ioctl.qbuf;
      user_buffer = some (buffer_at capture target usec [] fd);
    }
    ∷ record blank { ioctl = some Ioctl.request_queue; fd = some fd }
    ∷ record blank {
      ioctl = some Ioctl.dqbuf;
      driver_buffer = some (buffer_at output 0 usec [] fd);
    }
    ∷ record blank {
      ioctl = some Ioctl.dqbuf;
      driver_buffer = some (buffer_at capture target usec ("V4L2_BUF_FLAG_TIMESTAMP_COPY" ∷ []) fd);
    }
    ∷ []

-- An I picture in buffer 5, and a P picture in buffer 6 that refers to it.
abbrev events : List Event.Event
events =
    record blank { opened = true } ∷ picture_events 10 1 5 (controls_of 0 0 2)
    ++ picture_events 11 2 6 (controls_of 4 1 1)
    ++ record blank { ioctl = some Ioctl.streamoff } ∷ record blank { closing = true } ∷ []

traced : (t : Trace) × (read_trace events 2 ≡ ok t)
unfolding Event.no_repeated_text Event.present_names Event.flags Event.buffer_flags Event.timestamp
    Event.find_control Event.no_repeated_control Event.controls Event.sized_control Buffers.discard
    Requests.allocate_request Requests.new_picture Requests.add_picture Requests.queue_request
    Requests.reinit_request Requests.request_operation Steps.stop_stream Requests.negotiate
    Requests.set_controls Requests.request_controls Requests.write_controls Buffers.queue_capture
    Buffers.stamp_request Buffers.queue_output Buffers.queue_buffer Buffers.finish_output
    Buffers.finish_capture Buffers.dequeue_buffer Steps.selected_ioctl Steps.video_ioctl
    Steps.close_device Steps.device_event Steps.later_event Steps.read_event Steps.read_events
    Steps.finish_trace Steps.candidate Steps.candidates Steps.last_open Steps.video_context
    Steps.read_trace Slices.refs Slices.emit_current Slices.emit_slice Emit.picture_at
    Emit.emit_entry Emit.emit_dpb Emit.emit_flags Emit.emit_lists Emit.emit_picture
    Emit.emit_pictures Emit.normalize Checked.check_each Checked.read_each Dict.lookup Dict.put
    Dict.remove Dict.map_values Dict.index_by
traced = (_, refl)

read_trace-IsSound_example :
    IsSound traced.0 × (length traced.0.pictures ≡ 2) × (all_complete traced.0 ≡ true)
read_trace-IsSound_example = read_trace-IsSound events 2 traced.0 traced.1

unfoldable normalized :
    (out : List (Request × Association)) × (normalize events 2 "0123456789abcdef" ≡ ok out)
unfolding Event.no_repeated_text Event.present_names Event.flags Event.buffer_flags Event.timestamp
    Event.find_control Event.no_repeated_control Event.controls Event.sized_control Buffers.discard
    Requests.allocate_request Requests.new_picture Requests.add_picture Requests.queue_request
    Requests.reinit_request Requests.request_operation Steps.stop_stream Requests.negotiate
    Requests.set_controls Requests.request_controls Requests.write_controls Buffers.queue_capture
    Buffers.stamp_request Buffers.queue_output Buffers.queue_buffer Buffers.finish_output
    Buffers.finish_capture Buffers.dequeue_buffer Steps.selected_ioctl Steps.video_ioctl
    Steps.close_device Steps.device_event Steps.later_event Steps.read_event Steps.read_events
    Steps.finish_trace Steps.candidate Steps.candidates Steps.last_open Steps.video_context
    Steps.read_trace Slices.refs Slices.emit_current Slices.emit_slice Emit.picture_at
    Emit.emit_entry Emit.emit_dpb Emit.emit_flags Emit.emit_lists Emit.emit_picture
    Emit.emit_pictures Emit.normalize Checked.check_each Checked.read_each Dict.lookup Dict.put
    Dict.remove Dict.map_values Dict.index_by
normalized = (_, refl)

normalize-Consistent_example : Consistent [] (map (λ x. x.0) normalized.0)
normalize-Consistent_example =
    normalize-Consistent events 2 "0123456789abcdef" normalized.0 normalized.1

abbrev records : List Request
unfolding normalized
records = map (λ x. x.0) normalized.0

mapped : (ms : List Mapped) × (map_records records 2 ≡ ok ms)
unfolding Words.minus Words.low17 Words.merge_fields Words.word Words.poc_delta Words.ref_header
    Words.ref_list_word Lookup.no_repeats Lookup.insert Lookup.sorted Lookup.find_buffer
    Lookup.kernel_lookup Motion.collocated Motion.gate Motion.motion_word Motion.inter_motion
    Motion.intra_motion Motion.motion MapSteps.resolve MapSteps.read_entry MapSteps.read_dpb
    MapSteps.read_list MapSteps.check_request MapSteps.only_slice MapSteps.check_slice
    MapSteps.new_writer MapSteps.advance MapSteps.map_slice MapSteps.map_dpb MapSteps.map_lists
    MapSteps.map_one MapSteps.map_loop MapSteps.map_all MapSteps.map_records Checked.check_each
    Checked.read_each Dict.lookup Dict.put Dict.remove Dict.map_values normalized
mapped = (_, refl)

map_records-Explains_example : Explains [] records mapped.0
map_records-Explains_example = map_records-Explains records 2 mapped.0 mapped.1

abbrev slot_of : ℕ → Bool → ℕ → Slot
slot_of i copied ts = record { index = i; copied_timestamp = copied; timestamp = ts }

-- Two buffers have the timestamp; the first in the list is not the lowest.
abbrev slots : List Slot
slots = slot_of 7 true 1000 ∷ slot_of 2 true 1000 ∷ slot_of 1 false 1000 ∷ []

looked_up : kernel_lookup slots 1000 7 ≡ ok (record { index = 2; fallback = false })
unfolding Words.minus Words.low17 Words.merge_fields Words.word Words.poc_delta Words.ref_header
    Words.ref_list_word Lookup.no_repeats Lookup.insert Lookup.sorted Lookup.find_buffer
    Lookup.kernel_lookup Motion.collocated Motion.gate Motion.motion_word Motion.inter_motion
    Motion.intra_motion Motion.motion MapSteps.resolve MapSteps.read_entry MapSteps.read_dpb
    MapSteps.read_list MapSteps.check_request MapSteps.only_slice MapSteps.check_slice
    MapSteps.new_writer MapSteps.advance MapSteps.map_slice MapSteps.map_dpb MapSteps.map_lists
    MapSteps.map_one MapSteps.map_loop MapSteps.map_all MapSteps.map_records Checked.check_each
    Checked.read_each Dict.lookup Dict.put Dict.remove Dict.map_values
looked_up = refl

kernel_lookup-lowest_example :
    is_answer slots 1000 7 (record { index = 2; fallback = false }) ≡ true
kernel_lookup-lowest_example =
    kernel_lookup-lowest slots 1000 7 (record { index = 2; fallback = false }) looked_up

abbrev log : Log
log = record {
  size = 200;
  lines = output_picture "dec0" 2 ∷ other_line ∷ output_picture "dec0" 1 ∷ [];
}

abbrev association_of : ℕ → ℕ → ℕ → Association
association_of n poc f = record { pic = n; poc = pos poc; system_frame_number = f }

abbrev associations : List Association
associations = association_of 1 0 1 ∷ association_of 2 4 2 ∷ []

associated : (fs : List Frame) × (associate log associations 2 0 ≡ ok fs)
unfolding Associate.read_lines Associate.no_repeats Associate.associate Checked.check_each
    Checked.read_each Dict.lookup Dict.put Dict.remove Dict.map_values
associated = (_, refl)

associate-Outputs_example :
    Outputs associations 0 (output_order log.lines) associated.0
    × (Associate.no_repeats (output_order log.lines) ≡ true)
    × (length (output_order log.lines) ≡ length associations)
    × (all (is_covered (output_order log.lines)) associations ≡ true)
associate-Outputs_example = associate-Outputs log associations 2 0 associated.0 associated.1

normalize-map_records_example : map_records (map (λ x. x.0) normalized.0) 2 ≢ err Words.stale_writer
normalize-map_records_example =
    normalize-map_records events 2 2 "0123456789abcdef" normalized.0 normalized.1
