-- ===== src/Queue/Pins.antt =====
-- A pin keeps the bytes and the writer of its allocation as they are, until it is dropped.
use omarchy_m1_video.Prelude.{
  ℕ, ◌≡◌, ◌≢◌, refl, ◌∙◌, Option, none, some, List, [], ◌∷◌, arith, ◌==◌, All, ℤ, inl, inr,
  Bool-cases, Option-cases,
}
use omarchy_m1_video.Dict.{lookup, put, remove, lookup-put, lookup-remove, lookup-any_value}
use omarchy_m1_video.Queue.Defs.{
  Queue, Writer, Allocation, Job, allocate, release, submit, complete, record_writer, pin, unpin,
  pause, resume, stop, is_pinned,
}
use omarchy_m1_video.Exec.{modify, ◌>>◌}
use omarchy_m1_video.Queue.Schedule.{Op, apply, run}
use omarchy_m1_video.Queue.Invariant.{IsValid}
use omarchy_m1_video.Queue.Retention.{apply-IsValid}

-- The call does not drop the token.
abbrev pub KeepsToken : ℕ → Op → Type 0
KeepsToken t (Op.unpin s) = s ≢ t
KeepsToken t _ = Unit

-- After the call, the token still pins the identity, and its allocation is what it was.
abbrev IsRetained : ℕ → Writer → Queue → Queue → Type 0
IsRetained t w q q' =
    (lookup t q'.pins ≡ some w)
    × (lookup w.allocation q'.allocations ≡ lookup w.allocation q.allocations)

-- `complete` writes only to an allocation that is not pinned.
module _ (t : ℕ) (w : Writer) (q : Queue) (pinned : lookup t q.pins ≡ some w) (job : ℕ) where
  finish-IsRetained :
      (item : Job) (a : Allocation) (stamp : Option (ℕ × ℤ))
      → IsRetained t w q
          ((record_writer job item stamp a
              >> modify (λ s. record s { completed = put job item s.completed }))
            (record q { inflight = remove job q.inflight })).1
  unfolding record_writer
  finish-IsRetained item a none = (pinned, refl)
  finish-IsRetained item a (some stamp) = elim (Bool-cases (is_pinned q item.allocation)) [
    | inl held ↦ rw held (pinned, refl)
    | inr free ↦ ground (
      arith,
      lookup-any_value (λ x. x.allocation == item.allocation) t q.pins w free,
      lookup-put item.allocation w.allocation
          (record a {
            writer = some (record {
              run = q.run;
              context = q.context;
              allocation = item.allocation;
              generation = item.generation;
              writer_job = job;
              picture = stamp.0;
              poc = stamp.1;
            });
          })
          q.allocations,
    )
  ]

  complete-IsRetained : IsRetained t w q (complete job q).1
  unfolding complete
  complete-IsRetained = elim (Option-cases (lookup job q.inflight)) [
    | inl unknown ↦ ground arith
    | inr (item, found) ↦ elim (Option-cases (lookup item.allocation q.allocations)) [
      | inl gone ↦ ground arith
      | inr (a, here) ↦ ground (arith, finish-IsRetained item a item.writer)
    ]
  ]

apply-IsRetained :
    (t : ℕ) (w : Writer) (op : Op) {q : Queue}
    → KeepsToken t op
    → IsValid q
    → lookup t q.pins ≡ some w
    → IsRetained t w q (apply op q)
unfolding apply allocate release submit pin unpin pause resume stop
apply-IsRetained t w (Op.allocate a g b p) {q} keeps v pinned = ground (
  arith,
  v.pins_written t w pinned,
  lookup-put a w.allocation (record { generation = g; bytes = b; policy = p; writer = none })
      q.allocations,
)
apply-IsRetained t w (Op.release a) {q} keeps v pinned = ground (
  arith,
  lookup-remove a w.allocation q.allocations,
  lookup-any_value (λ x. x.allocation == a) t q.pins w,
)
apply-IsRetained t w (Op.submit a g p) keeps v pinned = ground arith
apply-IsRetained t w (Op.complete j) {q} keeps v pinned = complete-IsRetained t w q pinned j
apply-IsRetained t w (Op.pin u n) {q} keeps v pinned =
    ground (arith, v.tokens_issued t w pinned, lookup-put q.next_pin t u q.pins)
apply-IsRetained t w (Op.unpin s) {q} keeps v pinned = ground (arith, lookup-remove s t q.pins)
apply-IsRetained t w Op.pause keeps v pinned = ground arith
apply-IsRetained t w Op.resume keeps v pinned = ground arith
apply-IsRetained t w Op.stop keeps v pinned = ground arith

-- Whatever calls are made on a queue that satisfies the invariant, none of which drops the token:
-- the token still pins its identity afterwards, and the allocation that it pins has the same
-- generation, bytes, policy and writer.
pub run-pinned :
    (t : ℕ) (w : Writer) (ops : List Op) (q : Queue)
    → All (KeepsToken t) ops
    → IsValid q
    → lookup t q.pins ≡ some w
    → (lookup t (run ops q).pins ≡ some w)
      × (lookup w.allocation (run ops q).allocations ≡ lookup w.allocation q.allocations)
unfolding run
run-pinned t w [] q keeps v pinned = (pinned, refl)
run-pinned t w (op ∷ ops) q keeps v pinned =
    let step = apply-IsRetained t w op keeps.0 v pinned in
    let rest = run-pinned t w ops (apply op q) keeps.1 (apply-IsValid op v) step.0 in
    (rest.0, rest.1 ∙ step.1)
