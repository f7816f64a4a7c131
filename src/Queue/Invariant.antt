-- ===== src/Queue/Invariant.antt =====
-- What every call on a FakeQueue keeps true, whether it returns or raises.
use text.Mathlib.Text.{◌==◌ as text_eq}
use omarchy_m1_video.Prelude.{
  ℕ, ◌+◌, ◌≤◌, ◌<◌, ◌≡◌, Bool, true, false, Option, none, some, List, arith, ℤ, String, length,
  ◌==◌,
}
use omarchy_m1_video.Dict.{
  lookup, contains, lookup-put, lookup-remove, length-put, length-remove, lookup-any_value,
}
use omarchy_m1_video.Queue.Defs.{
  Queue, Writer, Allocation, Job, is_stale, writer_of, allocate, release, submit, pin, unpin, pause,
  resume, stop, new, max_allocations, max_pins, max_jobs,
}

abbrev pub is_coherent : Option Allocation → Bool
is_coherent none = false
is_coherent (some a) = text_eq a.policy "coherent-model"

-- A record that an allocation carries names that allocation, at its generation, and a job of this
-- queue that has completed.
pub record IsOwnWriter (q : Queue) (k : ℕ) (a : Allocation) (w : Writer) : Type 0 where
  pub own_allocation : w.allocation ≡ k
  pub own_generation : w.generation ≡ a.generation
  pub own_run : w.run ≡ q.run
  pub own_context : w.context ≡ q.context
  pub has_completed : contains w.writer_job q.completed ≡ true

pub record IsValid (q : Queue) : Type 0 where
  -- A job in flight is on an allocation that exists at the job's generation.
  pub jobs_current :
      (j : ℕ) (item : Job)
      → lookup j q.inflight ≡ some item
      → is_stale (lookup item.allocation q.allocations) item.generation ≡ false
  pub writers_own :
      (k : ℕ) (a : Allocation) (w : Writer)
      → lookup k q.allocations ≡ some a
      → a.writer ≡ some w
      → IsOwnWriter q k a w
  -- A pinned allocation exists, is coherent, and its last writer is the pinned identity.
  pub pins_written :
      (t : ℕ) (w : Writer)
      → lookup t q.pins ≡ some w
      → writer_of (lookup w.allocation q.allocations) ≡ some w
  pub pins_coherent :
      (t : ℕ) (w : Writer)
      → lookup t q.pins ≡ some w
      → is_coherent (lookup w.allocation q.allocations) ≡ true
  pub tokens_issued : (t : ℕ) (w : Writer) → lookup t q.pins ≡ some w → t < q.next_pin
  pub allocations_bounded : length q.allocations ≤ max_allocations
  pub pins_bounded : length q.pins ≤ max_pins
  pub jobs_bounded : length q.inflight + length q.completed ≤ max_jobs

pub new-IsValid : (run context : ℕ) (client : String) → IsValid (new run context client)
unfolding new lookup
new-IsValid run context client = record {
  jobs_current = λ j item h. cc;
  writers_own = λ k a w h e. cc;
  pins_written = λ t w h. cc;
  pins_coherent = λ t w h. cc;
  tokens_issued = λ t w h. cc;
  allocations_bounded = omega arith;
  pins_bounded = omega arith;
  jobs_bounded = omega arith;
}

abbrev fresh : ℕ → List ℕ → String → Allocation
fresh generation bytes policy = record {
  generation = generation;
  bytes = bytes;
  policy = policy;
  writer = none;
}

module _ {q : Queue} (v : IsValid q) where
  pub allocate-IsValid :
      (a g : ℕ) (bytes : List ℕ) (policy : String) → IsValid (allocate a g bytes policy q).1
  unfolding allocate
  allocate-IsValid a g bytes policy = record {
    jobs_current = λ j item h. ground (
      arith,
      v.jobs_current j item,
      lookup-put a item.allocation (fresh g bytes policy) q.allocations,
    );
    writers_own = λ k b w h e.
        ground (arith, v.writers_own k b w, lookup-put a k (fresh g bytes policy) q.allocations);
    pins_written = λ t w h.
        ground (
          arith,
          v.pins_written t w,
          lookup-put a w.allocation (fresh g bytes policy) q.allocations,
        );
    pins_coherent = λ t w h. ground (
      arith,
      v.pins_coherent t w,
      lookup-put a w.allocation (fresh g bytes policy) q.allocations,
    );
    tokens_issued = λ t u h. ground (arith, v.tokens_issued t u);
    allocations_bounded =
        ground (arith, v.allocations_bounded, length-put a (fresh g bytes policy) q.allocations);
    pins_bounded = ground (arith, v.pins_bounded);
    jobs_bounded = ground (arith, v.jobs_bounded);
  }

  pub release-IsValid : (a : ℕ) → IsValid (release a q).1
  unfolding release
  release-IsValid a = record {
    jobs_current = λ j item h. ground (
      arith,
      v.jobs_current j item,
      lookup-remove a item.allocation q.allocations,
      lookup-any_value (λ x. x.allocation == a) j q.inflight item,
    );
    writers_own = λ k b w h e. ground (arith, v.writers_own k b w, lookup-remove a k q.allocations);
    pins_written = λ t w h. ground (
      arith,
      v.pins_written t w,
      lookup-remove a w.allocation q.allocations,
      lookup-any_value (λ x. x.allocation == a) t q.pins w,
    );
    pins_coherent = λ t w h. ground (
      arith,
      v.pins_coherent t w,
      lookup-remove a w.allocation q.allocations,
      lookup-any_value (λ x. x.allocation == a) t q.pins w,
    );
    tokens_issued = λ t u h. ground (arith, v.tokens_issued t u);
    allocations_bounded = ground (arith, v.allocations_bounded, length-remove a q.allocations);
    pins_bounded = ground (arith, v.pins_bounded);
    jobs_bounded = ground (arith, v.jobs_bounded);
  }

  pub submit-IsValid : (a g : ℕ) (writer : Option (ℕ × ℤ)) → IsValid (submit a g writer q).1
  unfolding submit
  submit-IsValid a g writer = record {
    jobs_current = λ j item h. ground (
      arith,
      v.jobs_current j item,
      lookup-put q.next_job j (record { allocation = a; generation = g; writer = writer })
          q.inflight,
    );
    writers_own = λ k b w h e. ground (arith, v.writers_own k b w);
    pins_written = λ t w h. ground (arith, v.pins_written t w);
    pins_coherent = λ t w h. ground (arith, v.pins_coherent t w);
    tokens_issued = λ t u h. ground (arith, v.tokens_issued t u);
    allocations_bounded = ground (arith, v.allocations_bounded);
    pins_bounded = ground (arith, v.pins_bounded);
    jobs_bounded = ground (
      arith,
      v.jobs_bounded,
      length-put q.next_job (record { allocation = a; generation = g; writer = writer }) q.inflight,
    );
  }

  pub pin-IsValid : (w : Writer) (len : ℕ) → IsValid (pin w len q).1
  unfolding pin
  pin-IsValid w len = record {
    jobs_current = λ j item h. ground (arith, v.jobs_current j item);
    writers_own = λ k b u h e. ground (arith, v.writers_own k b u);
    pins_written = λ t u h. ground (arith, v.pins_written t u, lookup-put q.next_pin t w q.pins);
    pins_coherent = λ t u h. ground (arith, v.pins_coherent t u, lookup-put q.next_pin t w q.pins);
    tokens_issued = λ t u h. ground (arith, v.tokens_issued t u, lookup-put q.next_pin t w q.pins);
    allocations_bounded = ground (arith, v.allocations_bounded);
    pins_bounded = ground (arith, v.pins_bounded, length-put q.next_pin w q.pins);
    jobs_bounded = ground (arith, v.jobs_bounded);
  }

  pub unpin-IsValid : (t : ℕ) → IsValid (unpin t q).1
  unfolding unpin
  unpin-IsValid t = record {
    jobs_current = v.jobs_current;
    writers_own = λ k b u h e. ground (arith, v.writers_own k b u);
    pins_written = λ i u h. ground (arith, v.pins_written i u, lookup-remove t i q.pins);
    pins_coherent = λ i u h. ground (arith, v.pins_coherent i u, lookup-remove t i q.pins);
    tokens_issued = λ i u h. ground (arith, v.tokens_issued i u, lookup-remove t i q.pins);
    allocations_bounded = v.allocations_bounded;
    pins_bounded = ground (arith, v.pins_bounded, length-remove t q.pins);
    jobs_bounded = v.jobs_bounded;
  }

  pub pause-IsValid : IsValid (pause q).1
  unfolding pause
  pause-IsValid = record {
    jobs_current = λ j item h. ground (arith, v.jobs_current j item);
    writers_own = λ k b u h e. ground (arith, v.writers_own k b u);
    pins_written = λ t u h. ground (arith, v.pins_written t u);
    pins_coherent = λ t u h. ground (arith, v.pins_coherent t u);
    tokens_issued = λ t u h. ground (arith, v.tokens_issued t u);
    allocations_bounded = ground (arith, v.allocations_bounded);
    pins_bounded = ground (arith, v.pins_bounded);
    jobs_bounded = ground (arith, v.jobs_bounded);
  }

  pub resume-IsValid : IsValid (resume q).1
  unfolding resume
  resume-IsValid = record {
    jobs_current = λ j item h. ground (arith, v.jobs_current j item);
    writers_own = λ k b u h e. ground (arith, v.writers_own k b u);
    pins_written = λ t u h. ground (arith, v.pins_written t u);
    pins_coherent = λ t u h. ground (arith, v.pins_coherent t u);
    tokens_issued = λ t u h. ground (arith, v.tokens_issued t u);
    allocations_bounded = ground (arith, v.allocations_bounded);
    pins_bounded = ground (arith, v.pins_bounded);
    jobs_bounded = ground (arith, v.jobs_bounded);
  }

  pub stop-IsValid : IsValid (stop q).1
  unfolding stop
  stop-IsValid = record {
    jobs_current = λ j item h. ground (arith, v.jobs_current j item);
    writers_own = λ k b u h e. ground (arith, v.writers_own k b u);
    pins_written = λ t u h. ground (arith, v.pins_written t u);
    pins_coherent = λ t u h. ground (arith, v.pins_coherent t u);
    tokens_issued = λ t u h. ground (arith, v.tokens_issued t u);
    allocations_bounded = ground (arith, v.allocations_bounded);
    pins_bounded = ground (arith, v.pins_bounded);
    jobs_bounded = ground (arith, v.jobs_bounded);
  }
