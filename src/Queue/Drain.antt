-- ===== src/Queue/Drain.antt =====
-- What `drain` reports, and that the deadline ends it.
use omarchy_m1_video.Prelude.{◌≡◌, ◌≢◌, true, false, List, [], ◌∷◌, arith, any}
use omarchy_m1_video.Exec.{ok}
use omarchy_m1_video.Queue.Defs.{Queue, is_live}
use omarchy_m1_video.Queue.Schedule.{Turn, run, drain_loop, drain, is_idle}

drain_loop-idle :
    (turns : List Turn) (q : Queue)
    → is_live q ≡ true
    → (drain_loop turns q).0 ≡ ok true
    → (is_idle (drain_loop turns q).1.inflight ≡ true) × (is_live (drain_loop turns q).1 ≡ true)
unfolding drain_loop
drain_loop-idle [] q alive h = ground arith
drain_loop-idle (turn ∷ turns) q alive h = ground (arith, drain_loop-idle turns (run turn.others q))

-- If `drain` reports that the queue has drained, then nothing is in flight and the queue is live,
-- whatever other threads did while it waited.
pub drain_idle :
    (turns : List Turn) (q : Queue)
    → (drain turns q).0 ≡ ok true
    → (is_idle (drain turns q).1.inflight ≡ true) × (is_live (drain turns q).1 ≡ true)
unfolding drain
drain_idle turns q h = ground (arith, drain_loop-idle turns q)

drain_loop-ends :
    (turns : List Turn) (q : Queue)
    → any (λ turn. turn.expired) turns ≡ true
    → (drain_loop turns q).0 ≢ ok false
unfolding drain_loop
drain_loop-ends [] q h = cc
drain_loop-ends (turn ∷ turns) q h = ground (arith, drain_loop-ends turns (run turn.others q))

-- If the deadline has passed at some turn of the schedule, `drain` does not wait to the end of the
-- schedule: it has reported a drained queue or raised.
pub drain_ends :
    (turns : List Turn) (q : Queue)
    → any (λ turn. turn.expired) turns ≡ true
    → (drain turns q).0 ≢ ok false
unfolding drain
drain_ends turns q h = ground (arith, drain_loop-ends turns q h)
