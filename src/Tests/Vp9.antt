-- ===== src/Tests/Vp9.antt =====
-- Runs of the VP9 queue and reference model.
use omarchy_m1_video.Prelude.{
  ℕ, ◌++◌, ◌≡◌, ◌≢◌, refl, Bool, true, false, none, some, List, [], ◌∷◌, All,
}
use omarchy_m1_video.Dict as Dict
use omarchy_m1_video.Dict.{lookup}
use omarchy_m1_video.Bits as Bits
use omarchy_m1_video.Exec.{ok, err}
use omarchy_m1_video.Vp9.Reject.{Code, Invariant, reject, crash}
use omarchy_m1_video.Vp9.Event.{Event, Decode, Phase}
use omarchy_m1_video.Vp9.Layout as Layout
use omarchy_m1_video.Vp9.Layout.{round_up, roundup_pow_of_two, calc_tile_meta, fill_comp}
use omarchy_m1_video.Vp9.State as State
use omarchy_m1_video.Vp9.State.{ModelPath, Session, Buffer, Registration, proposed, new_session}
use omarchy_m1_video.Vp9.Ops.Streams as Streams
use omarchy_m1_video.Vp9.Ops.Queueing as Queueing
use omarchy_m1_video.Vp9.Ops.References as References
use omarchy_m1_video.Vp9.Ops.Frames as Frames
use omarchy_m1_video.Vp9.Ops.Frames.{op_decode, is_queued}
use omarchy_m1_video.Vp9.Ops.Apply.{
  Report, apply, handler, needs_live_session, run_events, run_from, snapshot_lost,
}
use omarchy_m1_video.Vp9.Invariant.Defs.{new_session-IsValid}
use omarchy_m1_video.Vp9.Invariant.Safe.{IsSafe}
use omarchy_m1_video.Vp9.Invariant.Run.{run_events-ne-crash, apply-IsSafe}
use omarchy_m1_video.Vp9.Contract.References.{HasLegal, op_decode_references}
use omarchy_m1_video.Vp9.Contract.Failure.{after, failed_forever}
use omarchy_m1_video.Vp9.Contract.Reports.{IsReport, run_events-IsReport}
use omarchy_m1_video.Vp9.Contract.Slots.{slots_unique, registrations_current, after-IsValid}

abbrev picture : ℕ → Bool → List ℕ → Decode
picture dst key refs = record {
  dst = dst;
  width = 128;
  height = 128;
  bit_depth = none;
  key = some key;
  refs = some refs;
  backing_bytes = none;
  force_kernel_lookup = none;
}

-- Two buffers are set up and a key frame is decoded into the first.
abbrev setup : List Event
setup =
    Event.output_s_fmt 128 128
    ∷ Event.capture_s_fmt 128 128 none
    ∷ Event.capture_reqbufs 2
    ∷ Event.output_streamon
    ∷ Event.capture_streamon
    ∷ Event.decode (picture 1 true [])
    ∷ []

abbrev inter : Decode
inter = picture 2 false (1 ∷ [])

started : (s : Session) × (new_session proposed 5 0 8 ≡ ok s)
unfolding new_session
started = (_, refl)

unfoldable start : Session
start = started.0

started_ok : new_session proposed 5 0 8 ≡ ok start
unfolding start
started_ok = started.1

abbrev ready : Session
ready = after setup start

ready_decodes : (ready.path ≡ proposed) × ((op_decode inter ready).0 ≡ ok tt)
unfolding started Dict.lookup Dict.put after apply handler needs_live_session State.new_era
    State.new_buffer State.ts_lookup State.next_era_id State.is_stock new_session start
    Streams.need_era Streams.op_output_s_fmt Streams.op_capture_s_fmt Streams.op_capture_reqbufs
    Streams.op_output_streamon Streams.op_capture_streamon Queueing.free_index Queueing.alloc_index
    Queueing.ensure_buffer Queueing.take_slot Queueing.queue_existing Queueing.op_queue_dst
    References.resolve_refs References.resolve_ref References.resolve_proposed
    References.check_registration Frames.exceeds_scratch Frames.check_scratch Frames.check_decode
    Frames.queue_if_needed Frames.finish_decode Frames.decode_refs Frames.decode_scratch
    Frames.op_decode Layout.round_up Layout.align Layout.div_round_up Layout.roundup_pow_of_two
    Layout.calc_tile_meta Layout.fill_comp Layout.pixel_plane Layout.era_sizeimage Layout.fourcc_for
    Bits.bit_length
ready_decodes = (refl, refl)

run_events-ne-crash_example : run_events proposed setup 5 0 8 ≢ err crash
run_events-ne-crash_example = run_events-ne-crash proposed setup 5 0 8

apply-IsSafe_example : IsSafe (apply (Event.decode inter) ready)
apply-IsSafe_example =
    apply-IsSafe (Event.decode inter) ready
      (after-IsValid setup start (new_session-IsValid proposed 5 0 8 start started_ok))

op_decode_references_example : All (HasLegal ready 2) (1 ∷ [])
op_decode_references_example = op_decode_references inter ready ready_decodes.0 refl ready_decodes.1

-- The CAPTURE queue goes, and the session fails.
abbrev failing : List Event
failing =
    Event.capture_streamoff
    ∷ Event.capture_reqbufs 0
    ∷ Event.inject_failure (some Phase.after_destructive)
    ∷ []

abbrev gone : Session
gone = after failing ready

gone_failed : (gone.failed ≡ true) × (needs_live_session (Event.decode inter) ≡ true)
unfolding started Dict.lookup Dict.put after apply handler needs_live_session State.new_era
    State.new_buffer State.ts_lookup State.next_era_id State.is_stock new_session start
    Streams.need_era Streams.op_output_s_fmt Streams.op_capture_s_fmt Streams.op_capture_reqbufs
    Streams.op_output_streamon Streams.op_capture_streamon Queueing.free_index Queueing.alloc_index
    Queueing.ensure_buffer Queueing.take_slot Queueing.queue_existing Queueing.op_queue_dst
    References.resolve_refs References.resolve_ref References.resolve_proposed
    References.check_registration Frames.exceeds_scratch Frames.check_scratch Frames.check_decode
    Frames.queue_if_needed Frames.finish_decode Frames.decode_refs Frames.decode_scratch
    Frames.op_decode Frames.op_export Frames.check_exported Frames.check_register
    Frames.register_buffer Frames.op_register Streams.op_capture_streamoff Streams.fail_phase
    Streams.op_inject_failure Dict.map_values Layout.round_up Layout.align Layout.div_round_up
    Layout.roundup_pow_of_two Layout.calc_tile_meta Layout.fill_comp Layout.pixel_plane
    Layout.era_sizeimage Layout.fourcc_for Bits.bit_length
gone_failed = (refl, refl)

failed_forever_example :
    apply (Event.decode inter) (after setup gone)
    ≡ (err (reject Code.partial_failure_reuse Invariant.failed_session_no_submit), after setup gone)
failed_forever_example = failed_forever setup (Event.decode inter) gone gone_failed.0 gone_failed.1

reported : (r : Report) × (run_events proposed setup 5 0 8 ≡ ok r)
unfolding run_events run_from snapshot_lost started Dict.lookup Dict.put after apply handler
    needs_live_session State.new_era State.new_buffer State.ts_lookup State.next_era_id
    State.is_stock new_session start Streams.need_era Streams.op_output_s_fmt
    Streams.op_capture_s_fmt Streams.op_capture_reqbufs Streams.op_output_streamon
    Streams.op_capture_streamon Queueing.free_index Queueing.alloc_index Queueing.ensure_buffer
    Queueing.take_slot Queueing.queue_existing Queueing.op_queue_dst References.resolve_refs
    References.resolve_ref References.resolve_proposed References.check_registration
    Frames.exceeds_scratch Frames.check_scratch Frames.check_decode Frames.queue_if_needed
    Frames.finish_decode Frames.decode_refs Frames.decode_scratch Frames.op_decode Layout.round_up
    Layout.align Layout.div_round_up Layout.roundup_pow_of_two Layout.calc_tile_meta
    Layout.fill_comp Layout.pixel_plane Layout.era_sizeimage Layout.fourcc_for Bits.bit_length
reported = (_, refl)

run_events-IsReport_example :
    (s : Session) × (new_session proposed 5 0 8 ≡ ok s) × IsReport proposed 0 setup s reported.0
run_events-IsReport_example = run_events-IsReport proposed setup 5 0 8 reported.0 reported.1

first_buffer : (b : Buffer) × (lookup 1 ready.buffers ≡ some b) × (b.queued_as_dst ≡ true)
unfolding started Dict.lookup Dict.put after apply handler needs_live_session State.new_era
    State.new_buffer State.ts_lookup State.next_era_id State.is_stock new_session start
    Streams.need_era Streams.op_output_s_fmt Streams.op_capture_s_fmt Streams.op_capture_reqbufs
    Streams.op_output_streamon Streams.op_capture_streamon Queueing.free_index Queueing.alloc_index
    Queueing.ensure_buffer Queueing.take_slot Queueing.queue_existing Queueing.op_queue_dst
    References.resolve_refs References.resolve_ref References.resolve_proposed
    References.check_registration Frames.exceeds_scratch Frames.check_scratch Frames.check_decode
    Frames.queue_if_needed Frames.finish_decode Frames.decode_refs Frames.decode_scratch
    Frames.op_decode Layout.round_up Layout.align Layout.div_round_up Layout.roundup_pow_of_two
    Layout.calc_tile_meta Layout.fill_comp Layout.pixel_plane Layout.era_sizeimage Layout.fourcc_for
    Bits.bit_length
first_buffer = (_, refl, refl)

slots_unique_example : ◌≡◌ {A = ℕ} 1 1
slots_unique_example =
    slots_unique proposed 5 0 8 setup start started_ok 1 1 first_buffer.0 first_buffer.0
      first_buffer.1 first_buffer.1 first_buffer.2 first_buffer.2 refl

-- The decoded picture is exported, its queue goes, and it is registered as a reference.
abbrev retaining : List Event
retaining =
    setup
    ++ (Event.export 1 none
        ∷ Event.capture_streamoff
        ∷ Event.capture_reqbufs 0
        ∷ Event.register 1 none none
        ∷ [])

registered : (r : Registration) × (lookup 1 (after retaining start).registrations ≡ some r)
unfolding started Dict.lookup Dict.put after apply handler needs_live_session State.new_era
    State.new_buffer State.ts_lookup State.next_era_id State.is_stock new_session start
    Streams.need_era Streams.op_output_s_fmt Streams.op_capture_s_fmt Streams.op_capture_reqbufs
    Streams.op_output_streamon Streams.op_capture_streamon Queueing.free_index Queueing.alloc_index
    Queueing.ensure_buffer Queueing.take_slot Queueing.queue_existing Queueing.op_queue_dst
    References.resolve_refs References.resolve_ref References.resolve_proposed
    References.check_registration Frames.exceeds_scratch Frames.check_scratch Frames.check_decode
    Frames.queue_if_needed Frames.finish_decode Frames.decode_refs Frames.decode_scratch
    Frames.op_decode Frames.op_export Frames.check_exported Frames.check_register
    Frames.register_buffer Frames.op_register Streams.op_capture_streamoff Streams.fail_phase
    Streams.op_inject_failure Dict.map_values Layout.round_up Layout.align Layout.div_round_up
    Layout.roundup_pow_of_two Layout.calc_tile_meta Layout.fill_comp Layout.pixel_plane
    Layout.era_sizeimage Layout.fourcc_for Bits.bit_length
registered = (_, refl)

registrations_current_example :
    (registered.0.generation ≡ (after retaining start).capture_generation)
    × (is_queued (lookup 1 (after retaining start).buffers) ≡ false)
registrations_current_example =
    registrations_current proposed 5 0 8 retaining start started_ok 1 registered.0 registered.1
