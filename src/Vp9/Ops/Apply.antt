-- ===== src/Vp9/Ops/Apply.antt =====
-- `apply`, `snapshot` and `run_events` of experiments/vp9-state/model.py.
use omarchy_m1_video.Prelude.{
  ℕ, suc, ◌+◌, Bool, true, false, not, ◌&&◌, Option, none, some, List, [], ◌∷◌, ◌++◌, length, ltb,
}
use omarchy_m1_video.Dict.{any_value}
use omarchy_m1_video.Exec.{Result, ok, err, pure, gets, modify, raise_if, ◌>>=◌, ◌>>◌}
use omarchy_m1_video.Vp9.Reject.{
  Code, Invariant, Kind, Error, reject, fixture, crash, kind_of, source_observed, proposed_contract,
}
use omarchy_m1_video.Vp9.Event.{Event}
use omarchy_m1_video.Vp9.State.{ModelPath, stock, proposed, Session, SegPolicy, Action, new_session}
use omarchy_m1_video.Vp9.Ops.Streams.{
  op_open, op_output_s_fmt, op_capture_s_fmt, op_output_streamon, op_output_streamoff,
  op_capture_streamon, op_capture_streamoff, op_capture_reqbufs, op_proposed_reconfigure,
  op_inject_failure, op_ask_firmware,
}
use omarchy_m1_video.Vp9.Ops.Queueing.{op_queue_dst}
use omarchy_m1_video.Vp9.Ops.Frames.{op_decode, op_export, op_register}

-- `getattr(self, f"op_{op}")`
unfoldable pub handler : Event → Action Unit
handler (Event.open_session session) = op_open session
handler (Event.output_s_fmt w h) = op_output_s_fmt w h
handler (Event.capture_s_fmt w h depth) = op_capture_s_fmt w h depth
handler (Event.proposed_reconfigure w h depth) = op_proposed_reconfigure w h depth
handler (Event.capture_reqbufs count) = op_capture_reqbufs count
handler (Event.queue_dst name backing) = op_queue_dst name backing
handler (Event.decode e) = op_decode e
handler (Event.submit e) = op_decode e
handler (Event.export name backing) = op_export name backing
handler (Event.register name ts idx) = op_register name ts idx
handler (Event.inject_failure phase) = op_inject_failure phase
handler (Event.ask_firmware question) = op_ask_firmware question
handler Event.output_streamon = op_output_streamon
handler Event.output_streamoff = op_output_streamoff
handler Event.capture_streamon = op_capture_streamon
handler Event.capture_streamoff = op_capture_streamoff
handler Event.snapshot = pure tt

-- The operations that a failed session rejects.
unfoldable pub needs_live_session : Event → Bool
needs_live_session (Event.decode _) = true
needs_live_session (Event.submit _) = true
needs_live_session (Event.register _ _ _) = true
needs_live_session (Event.queue_dst _ _) = true
needs_live_session (Event.proposed_reconfigure _ _ _) = true
needs_live_session Event.capture_streamon = true
needs_live_session _ = false

unfoldable pub apply : Event → Action Unit
apply event = do
  s ← gets (λ s. s)
  raise_if (s.failed && needs_live_session event)
      (reject Code.partial_failure_reuse Invariant.failed_session_no_submit)
  handler event
  modify (λ s. record s { events_applied = s.events_applied + 1 })

pub data Lost : Type 0 where
  wrapper_metadata frame_context last_frame_info scratch seg_map : Lost
  seg_map_policy_unknown : Lost

abbrev pub only_if : Bool → Lost → List Lost
only_if true l = l ∷ []
only_if false l = []

abbrev pub seg_lost : SegPolicy → List Lost
seg_lost SegPolicy.absent = seg_map ∷ []
seg_lost SegPolicy.lost = seg_map ∷ []
seg_lost SegPolicy.unknown = seg_map_policy_unknown ∷ []
seg_lost SegPolicy.present = []

-- The `lost` list of a snapshot.
unfoldable pub snapshot_lost : Session → List Lost
snapshot_lost s =
    only_if (not (any_value (λ b. b.wrapper_alive) s.buffers) && ltb 0 (length s.buffers))
      wrapper_metadata
    ++ (only_if (not s.probabilities) frame_context
        ++ (only_if (not s.last_present) last_frame_info
            ++ (only_if (not s.scratch_present) scratch ++ seg_lost s.seg_policy)))

pub data Status : Type 0 where
  observe model_accept rejected unknown : Status

-- The report of `run_events` without its message, a text for a reader that the code and the
-- invariant determine; `session` is the state that its snapshot shows.
pub record Report : Type 0 where
  pub status : Status
  pub code : Option Code
  pub kind : Kind
  pub invariant : Option Invariant
  pub at_event : Option ℕ
  pub session : Session
  pub lost : List Lost
  pub decoded_frame_evidence : Bool

abbrev pub reject_status : Code → Status
reject_status Code.firmware_unknown = unknown
reject_status _ = rejected

abbrev pub rejection : Code → Invariant → ℕ → Session → Report
rejection code invariant i s = record {
  status = reject_status code;
  code = some code;
  kind = kind_of invariant;
  invariant = some invariant;
  at_event = some i;
  session = s;
  lost = snapshot_lost s;
  decoded_frame_evidence = false;
}

abbrev pub completion_status : ModelPath → Status
completion_status proposed = model_accept
completion_status stock = observe

abbrev pub completion_kind : ModelPath → Kind
completion_kind proposed = proposed_contract
completion_kind stock = source_observed

abbrev pub completion : ModelPath → Session → Report
completion path s = record {
  status = completion_status path;
  code = none;
  kind = completion_kind path;
  invariant = none;
  at_event = none;
  session = s;
  lost = snapshot_lost s;
  decoded_frame_evidence = false;
}

-- `except Reject` ends the run with a report; any other exception leaves `run_events`.
unfoldable pub run_from : ModelPath → ℕ → List Event → Session → Result Error Report
run_from path i [] s = ok (completion path s)
run_from path i (event ∷ events) s =
    let (r, s') = apply event s in
    elim r [
      | ok _ ↦ run_from path (suc i) events s'
      | err (reject code invariant) ↦ ok (rejection code invariant i s')
      | err fixture ↦ err fixture
      | err crash ↦ err crash
    ]

abbrev pub run_session : ModelPath → List Event → Result Error Session → Result Error Report
run_session path events (ok s) = run_from path 0 events s
run_session path events (err e) = err e

unfoldable pub run_events : ModelPath → List Event → ℕ → ℕ → ℕ → Result Error Report
unfolding run_from
run_events path events session_id profile bit_depth =
    run_session path events (new_session path session_id profile bit_depth)
