-- ===== src/Vp9/Invariant/Run.antt =====
-- Every event keeps the invariant, and no run of events ends in a crash.
use omarchy_m1_video.Prelude.{
  ℕ, suc, ◌+◌, ◌≡◌, ◌≢◌, refl, List, [], ◌∷◌, arith, inl, inr, Bool-cases, ◌&&◌,
}
use omarchy_m1_video.Exec.{Result, ok, err, modify}
use omarchy_m1_video.Vp9.Reject.{Error, crash}
use omarchy_m1_video.Vp9.Event.{Event}
use omarchy_m1_video.Vp9.State.{Session, ModelPath, new_session}
use omarchy_m1_video.Vp9.Ops.Streams.{
  op_open, op_output_s_fmt, op_capture_s_fmt, op_output_streamon, op_output_streamoff,
  op_capture_streamon, op_capture_streamoff, op_capture_reqbufs, op_proposed_reconfigure,
  op_inject_failure, op_ask_firmware,
}
use omarchy_m1_video.Vp9.Ops.Apply.{
  handler, apply, needs_live_session, run_from, run_session, run_events,
}
use omarchy_m1_video.Vp9.Invariant.Defs.{IsValid, new_session-IsValid}
use omarchy_m1_video.Vp9.Invariant.Safe.{IsSafe, bind-IsSafe}
use omarchy_m1_video.Vp9.Invariant.Streams.{
  op_open-IsValid, op_output_s_fmt-IsValid, op_capture_s_fmt-IsValid, op_output_streamon-IsValid,
  op_output_streamoff-IsValid, op_capture_streamon-IsValid, op_capture_streamoff-IsValid,
  op_proposed_reconfigure-IsValid, op_inject_failure-IsValid, op_ask_firmware-IsValid,
}
use omarchy_m1_video.Vp9.Invariant.Reqbufs.{op_capture_reqbufs-IsValid}
use omarchy_m1_video.Vp9.Invariant.Frames.{op_queue_dst-IsSafe, op_export-IsSafe}
use omarchy_m1_video.Vp9.Invariant.Decode.{op_decode-IsSafe}
use omarchy_m1_video.Vp9.Invariant.Register.{op_register-IsSafe}

handler-IsSafe : (event : Event) (s : Session) → IsValid s → IsSafe (handler event s)
unfolding handler op_open op_output_s_fmt op_capture_s_fmt op_output_streamon op_output_streamoff
    op_capture_streamon op_capture_streamoff op_capture_reqbufs op_proposed_reconfigure
    op_inject_failure op_ask_firmware
handler-IsSafe (Event.open_session session) s v = record {
  no_crash = ground arith;
  valid = op_open-IsValid v session;
}
handler-IsSafe (Event.output_s_fmt w h) s v = record {
  no_crash = ground arith;
  valid = op_output_s_fmt-IsValid v w h;
}
handler-IsSafe (Event.capture_s_fmt w h depth) s v = record {
  no_crash = ground arith;
  valid = op_capture_s_fmt-IsValid v w h depth;
}
handler-IsSafe (Event.proposed_reconfigure w h depth) s v = record {
  no_crash = ground arith;
  valid = op_proposed_reconfigure-IsValid v w h depth;
}
handler-IsSafe (Event.capture_reqbufs count) s v = record {
  no_crash = ground arith;
  valid = op_capture_reqbufs-IsValid v count;
}
handler-IsSafe (Event.queue_dst name backing) s v = op_queue_dst-IsSafe name backing s v
handler-IsSafe (Event.decode e) s v = op_decode-IsSafe e s v
handler-IsSafe (Event.submit e) s v = op_decode-IsSafe e s v
handler-IsSafe (Event.export name backing) s v = op_export-IsSafe name backing s v
handler-IsSafe (Event.register name ts idx) s v = op_register-IsSafe name ts idx s v
handler-IsSafe (Event.inject_failure phase) s v = record {
  no_crash = ground arith;
  valid = op_inject_failure-IsValid v phase;
}
handler-IsSafe (Event.ask_firmware question) s v = record {
  no_crash = ground arith;
  valid = op_ask_firmware-IsValid v question;
}
handler-IsSafe Event.output_streamon s v = record {
  no_crash = ground arith;
  valid = op_output_streamon-IsValid v;
}
handler-IsSafe Event.output_streamoff s v = record {
  no_crash = ground arith;
  valid = op_output_streamoff-IsValid v;
}
handler-IsSafe Event.capture_streamon s v = record {
  no_crash = ground arith;
  valid = op_capture_streamon-IsValid v;
}
handler-IsSafe Event.capture_streamoff s v = record {
  no_crash = ground arith;
  valid = op_capture_streamoff-IsValid v;
}
handler-IsSafe Event.snapshot s v = record { no_crash = ground arith; valid = v }

counted-IsValid :
    (s : Session) → IsValid s → IsValid (record s { events_applied = s.events_applied + 1 })
counted-IsValid s v = record { codec = v.codec; queue = v.queue }

-- On a session that satisfies the invariant, every event keeps it, whether its handler returns or
-- raises, and what it raises is a Reject or a FixtureError: no key is missing and no `None` is read.
pub apply-IsSafe : (event : Event) (s : Session) → IsValid s → IsSafe (apply event s)
unfolding apply
apply-IsSafe event s v = elim (Bool-cases (s.failed && needs_live_session event)) [
  | inl gone ↦ rw gone (record { no_crash = λ p. cc; valid = v })
  | inr live ↦ rw live (
      bind-IsSafe (λ _. modify (λ s. record s { events_applied = s.events_applied + 1 }))
        (handler event) s (handler-IsSafe event s v)
        (λ _ t _ w. record { no_crash = λ p. cc; valid = counted-IsValid t w }))
]

run_from-calm :
    (path : ModelPath) (i : ℕ) (events : List Event) (s : Session)
    → IsValid s
    → run_from path i events s ≢ err crash
unfolding run_from
run_from-calm path i [] s v = λ p. cc
run_from-calm path i (event ∷ events) s v = ground (
  arith,
  (apply-IsSafe event s v).no_crash,
  run_from-calm path (suc i) events (apply event s).1 (apply-IsSafe event s v).valid,
)

run_session-calm :
    (path : ModelPath) (events : List Event) (r : Result Error Session)
    → ((s : Session) → r ≡ ok s → IsValid s)
    → r ≢ err crash
    → run_session path events r ≢ err crash
run_session-calm path events (ok s) valid calm = run_from-calm path 0 events s (valid s refl)
run_session-calm path events (err e) valid calm = λ p. calm (cc)

-- Whatever the events, `run_events` returns a report or raises a FixtureError: it never ends in a
-- missing key or a read of `None`.
pub run_events-ne-crash :
    (path : ModelPath) (events : List Event) (session_id profile bit_depth : ℕ)
    → run_events path events session_id profile bit_depth ≢ err crash
unfolding run_events new_session
run_events-ne-crash path events session_id profile bit_depth =
    run_session-calm path events (new_session path session_id profile bit_depth)
      (λ s h. new_session-IsValid path session_id profile bit_depth s h) (ground arith)
