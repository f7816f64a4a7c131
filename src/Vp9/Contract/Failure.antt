-- ===== src/Vp9/Contract/Failure.antt =====
-- A session that failed after a destructive phase does no more work.
use omarchy_m1_video.Prelude.{◌≡◌, List, [], ◌∷◌, arith, true, false, Bool-cases, inl, inr}
use omarchy_m1_video.Exec.{err}
use omarchy_m1_video.Vp9.Reject.{Code, Invariant, reject}
use omarchy_m1_video.Vp9.Event.{Event}
use omarchy_m1_video.Vp9.State.{Session}
use omarchy_m1_video.Vp9.Ops.Streams.{
  op_open, op_output_s_fmt, op_capture_s_fmt, op_output_streamon, op_output_streamoff,
  op_capture_streamoff, op_capture_reqbufs, op_inject_failure, op_ask_firmware,
}
use omarchy_m1_video.Vp9.Ops.Frames.{op_export}
use omarchy_m1_video.Vp9.Ops.Apply.{apply, handler, needs_live_session}

-- A failed session rejects decoding, submission, registration, queueing, reconfiguration and CAPTURE
-- STREAMON, and is left exactly as it was.
pub apply_failed :
    (event : Event) (s : Session)
    → s.failed ≡ true
    → needs_live_session event ≡ true
    → apply event s
      ≡ (err (reject Code.partial_failure_reuse Invariant.failed_session_no_submit), s)
unfolding apply
apply_failed event s failed live = ground arith

handler_failed :
    (event : Event) (s : Session)
    → needs_live_session event ≡ false
    → s.failed ≡ true
    → (handler event s).1.failed ≡ true
unfolding handler needs_live_session op_open op_output_s_fmt op_capture_s_fmt op_output_streamon
    op_output_streamoff op_capture_streamoff op_capture_reqbufs op_inject_failure op_ask_firmware
    op_export
handler_failed (Event.decode e) s live failed = cc
handler_failed _ s live failed = ground arith

apply_stays_failed :
    (event : Event) (s : Session) → s.failed ≡ true → (apply event s).1.failed ≡ true
unfolding apply
apply_stays_failed event s failed = elim (Bool-cases (needs_live_session event)) [
  | inl live ↦ ground arith
  | inr idle ↦ ground (arith, handler_failed event s idle failed)
]

-- The session after events, each applied whether or not an earlier one raised.
unfoldable pub after : List Event → Session → Session
after [] s = s
after (event ∷ events) s = after events (apply event s).1

after_stays_failed :
    (events : List Event) (s : Session) → s.failed ≡ true → (after events s).failed ≡ true
unfolding after
after_stays_failed [] s failed = failed
after_stays_failed (event ∷ events) s failed =
    after_stays_failed events (apply event s).1 (apply_stays_failed event s failed)

-- Failure is final: after any further events on a failed session, an event that needs a live session
-- is still rejected, and changes nothing.
pub failed_forever :
    (events : List Event) (event : Event) (s : Session)
    → s.failed ≡ true
    → needs_live_session event ≡ true
    → apply event (after events s)
      ≡ (err (reject Code.partial_failure_reuse Invariant.failed_session_no_submit), after events s)
failed_forever events event s failed live =
    apply_failed event (after events s) (after_stays_failed events s failed) live
