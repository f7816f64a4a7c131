-- ===== src/Queue/Schedule.antt =====
-- Calls of several threads on one FakeQueue, and `drain`, whose wait lets other threads in.
use omarchy_m1_video.Prelude.{
  ℕ, Bool, true, false, not, Option, List, [], ◌∷◌, String, ℤ, if◌then◌else◌,
}
use omarchy_m1_video.Dict.{Dict}
use omarchy_m1_video.Exec.{ok, err, ◌>>=◌, ◌>>◌, gets, raise_if}
use omarchy_m1_video.Queue.Defs.{
  Queue, Error, Action, Writer, Job, live, is_live, not_paused, deadline, closed_or_foreign,
}
use omarchy_m1_video.Queue.Defs

-- A call that some thread makes.
pub data Op : Type 0 where
  allocate : ℕ → ℕ → List ℕ → String → Op
  release : ℕ → Op
  submit : ℕ → ℕ → Option (ℕ × ℤ) → Op
  complete : ℕ → Op
  pin : Writer → ℕ → Op
  unpin : ℕ → Op
  pause resume stop : Op

-- The queue after the call, which may have raised.
unfoldable pub apply : Op → Queue → Queue
apply (allocate a g b p) q = (Defs.allocate a g b p q).1
apply (release a) q = (Defs.release a q).1
apply (submit a g w) q = (Defs.submit a g w q).1
apply (complete j) q = (Defs.complete j q).1
apply (pin w n) q = (Defs.pin w n q).1
apply (unpin t) q = (Defs.unpin t q).1
apply pause q = (Defs.pause q).1
apply resume q = (Defs.resume q).1
apply stop q = (Defs.stop q).1

unfoldable pub run : List Op → Queue → Queue
run [] q = q
run (op ∷ ops) q = run ops (apply op q)

abbrev pub is_idle : Dict Job → Bool
is_idle [] = true
is_idle (_ ∷ _) = false

-- One turn of the loop in `drain`: whether the deadline has passed when it is read, and the calls
-- that other threads make while this one waits.
pub record Turn : Type 0 where
  pub expired : Bool
  pub others : List Op

-- `while self.inflight: ...`; the result is `false` if the schedule ends while it still waits.
unfoldable pub drain_loop : List Turn → Action Bool
drain_loop [] q = (ok (is_idle q.inflight), q)
drain_loop (turn ∷ turns) q =
    let q' = run turn.others q in
    let rest = drain_loop turns q' in
    if is_idle q.inflight
    then (ok true, q)
    else if turn.expired
    then (err deadline, q)
    else if is_live q'
    then rest
    else (err closed_or_foreign, q')

unfoldable pub drain : List Turn → Action Bool
unfolding drain_loop
drain turns = do live; q ← gets (λ q. q); raise_if (not q.paused) not_paused; drain_loop turns
