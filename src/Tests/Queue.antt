-- ===== src/Tests/Queue.antt =====
-- Runs of the FakeQueue model.
use omarchy_m1_video.Prelude.{
  ℕ, ◌≡◌, refl, some, List, [], ◌∷◌, replicate, pos, true, false, ◌≢◌, arith, none,
}
use omarchy_m1_video.Dict.{lookup}
use omarchy_m1_video.Dict as Dict
use omarchy_m1_video.Queue.Defs.{Queue, Writer, new, is_live, validate}
use omarchy_m1_video.Queue.Schedule.{Op, Turn, run, is_idle, drain, drain_loop}
use omarchy_m1_video.Queue.Defs as Defs
use omarchy_m1_video.Queue.Schedule as Schedule
use omarchy_m1_video.Exec.{ok}
use omarchy_m1_video.Queue.Invariant.{IsValid, new-IsValid}
use omarchy_m1_video.Queue.Retention.{run-IsValid, validate_pinned}
use omarchy_m1_video.Queue.Pins.{run-pinned}
use omarchy_m1_video.Queue.Drain.{drain_idle, drain_ends}

abbrev plane : List ℕ
plane = replicate 345600 7

abbrev picture : Writer
picture = record {
  run = 1;
  context = 2;
  allocation = 4;
  generation = 9;
  writer_job = 1;
  picture = 3;
  poc = pos 16;
}

-- A picture is written, finished and pinned, and the queue is paused.
abbrev calls : List Op
calls =
    Op.allocate 4 9 plane "coherent-model"
    ∷ Op.submit 4 9 (some (3, pos 16))
    ∷ Op.complete 1
    ∷ Op.pin picture 345600
    ∷ Op.pause
    ∷ []

abbrev finished : Queue
finished = run calls (new 1 2 "self")

calls_pin :
    (lookup 1 finished.pins ≡ some picture)
    × (is_live finished ≡ true)
    × (finished.paused ≡ true)
    × (is_idle finished.inflight ≡ true)
unfolding run lookup is_live new Schedule.apply Defs.allocate Defs.submit Defs.complete Defs.pin
    Defs.pause Dict.put Dict.remove
calls_pin = (refl, refl, refl, refl)

run-IsValid_example : IsValid finished
run-IsValid_example = run-IsValid calls (new 1 2 "self") (new-IsValid 1 2 "self")

validate_pinned_example : validate 1 picture finished ≡ (ok tt, finished)
validate_pinned_example =
    validate_pinned 1 2 "self" calls 1 picture calls_pin.0 calls_pin.1 calls_pin.2 calls_pin.3

-- Other threads try to release and to write the pinned allocation.
abbrev attempts : List Op
attempts = Op.release 4 ∷ Op.resume ∷ Op.submit 4 9 (some (5, pos 20)) ∷ Op.unpin 7 ∷ Op.stop ∷ []

run-pinned_example :
    (lookup 1 (run attempts finished).pins ≡ some picture)
    × (lookup 4 (run attempts finished).allocations ≡ lookup 4 finished.allocations)
run-pinned_example =
    run-pinned 1 picture attempts finished (tt, (tt, (tt, ((λ e. omega arith), (tt, tt)))))
      run-IsValid_example calls_pin.0

-- A reader is in flight when the queue is paused, and finishes while `drain` waits.
abbrev reading : Queue
reading = record (new 1 2 "self") {
  paused = true;
  allocations = (4, record { generation = 9; bytes = []; policy = "none"; writer = none }) ∷ [];
  inflight = (1, record { allocation = 4; generation = 9; writer = none }) ∷ [];
  next_job = 2;
}

abbrev turns : List Turn
turns = record { expired = false; others = Op.complete 1 ∷ [] } ∷ []

turns-drain : (drain turns reading).0 ≡ ok true
unfolding drain drain_loop run lookup is_live new Schedule.apply Defs.complete Dict.put Dict.remove
turns-drain = refl

drain_idle_example :
    (is_idle (drain turns reading).1.inflight ≡ true) × (is_live (drain turns reading).1 ≡ true)
drain_idle_example = drain_idle turns reading turns-drain

abbrev late : List Turn
late = record { expired = true; others = [] } ∷ []

drain_ends_example : (drain late reading).0 ≢ ok false
drain_ends_example = drain_ends late reading refl
