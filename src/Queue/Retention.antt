-- ===== src/Queue/Retention.antt =====
-- What a pin promises its holder, over any calls of any threads.
use omarchy_m1_video.Prelude.{
  ℕ, ◌≡◌, refl, ap, true, some, List, [], ◌∷◌, arith, inl, inr, Option-cases, String, length,
  eq_ℤ-refl,
}
use omarchy_m1_video.Dict.{Dict, lookup}
use omarchy_m1_video.Exec.{ok}
use omarchy_m1_video.Queue.Defs.{Queue, Writer, Allocation, Job, validate, new, is_live, writer_of}
use omarchy_m1_video.Queue.Schedule.{Op, apply, run, is_idle}
use omarchy_m1_video.Queue.Invariant.{
  IsValid, new-IsValid, allocate-IsValid, release-IsValid, submit-IsValid, pin-IsValid,
  unpin-IsValid, pause-IsValid, resume-IsValid, stop-IsValid,
}
use omarchy_m1_video.Queue.Completion.{complete-IsValid}

pub apply-IsValid : (op : Op) {q : Queue} → IsValid q → IsValid (apply op q)
unfolding apply
apply-IsValid (Op.allocate a g b p) v = allocate-IsValid v a g b p
apply-IsValid (Op.release a) v = release-IsValid v a
apply-IsValid (Op.submit a g w) v = submit-IsValid v a g w
apply-IsValid (Op.complete j) v = complete-IsValid v j
apply-IsValid (Op.pin w n) v = pin-IsValid v w n
apply-IsValid (Op.unpin t) v = unpin-IsValid v t
apply-IsValid Op.pause v = pause-IsValid v
apply-IsValid Op.resume v = resume-IsValid v
apply-IsValid Op.stop v = stop-IsValid v

-- Whatever calls are made on a queue that satisfies the invariant, in any order and whether they
-- return or raise, it satisfies the invariant afterwards.
pub run-IsValid : (ops : List Op) (q : Queue) → IsValid q → IsValid (run ops q)
unfolding run
run-IsValid [] q v = v
run-IsValid (op ∷ ops) q v = run-IsValid ops (apply op q) (apply-IsValid op v)

length-is_idle : (d : Dict Job) → is_idle d ≡ true → length d ≡ 0
length-is_idle [] h = refl
length-is_idle (j ∷ d) h = cc

-- The allocation of a pinned identity, with what `validate` compares.
validate-ok :
    {q : Queue} (v : IsValid q) (t : ℕ) (w : Writer) (a : Allocation)
    → lookup w.allocation q.allocations ≡ some a
    → a.writer ≡ some w
    → lookup t q.pins ≡ some w
    → is_live q ≡ true
    → q.paused ≡ true
    → is_idle q.inflight ≡ true
    → validate t w q ≡ (ok tt, q)
unfolding validate
validate-ok {q} v t w a here by_w pinned alive paused idle = ground (
  arith,
  v.pins_coherent t w pinned,
  v.writers_own w.allocation a w here by_w,
  length-is_idle q.inflight,
  eq_ℤ-refl w.poc,
)

validate-IsValid :
    {q : Queue} (v : IsValid q) (t : ℕ) (w : Writer)
    → lookup t q.pins ≡ some w
    → is_live q ≡ true
    → q.paused ≡ true
    → is_idle q.inflight ≡ true
    → validate t w q ≡ (ok tt, q)
validate-IsValid {q} v t w pinned alive paused idle =
    elim (Option-cases (lookup w.allocation q.allocations)) [
      | inl gone ↦ absurd (cc (v.pins_written t w pinned, ap writer_of gone))
      | inr (a, here) ↦
          validate-ok v t w a here (cc (v.pins_written t w pinned, ap writer_of here)) pinned alive
            paused idle
    ]

-- On any queue reached from a new one, an identity that a token pins passes `validate` once the
-- queue is live, paused and has no job in flight.
pub validate_pinned :
    (r c : ℕ) (client : String) (ops : List Op) (t : ℕ) (w : Writer)
    → let q = run ops (new r c client) in
      lookup t q.pins ≡ some w
      → is_live q ≡ true
      → q.paused ≡ true
      → is_idle q.inflight ≡ true
      → validate t w q ≡ (ok tt, q)
validate_pinned r c client ops t w pinned alive paused idle =
    validate-IsValid (run-IsValid ops (new r c client) (new-IsValid r c client)) t w pinned alive
      paused idle
