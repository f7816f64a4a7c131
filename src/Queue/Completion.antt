-- ===== src/Queue/Completion.antt =====
-- `complete` keeps the invariant: the writer that it records may only land on an allocation that
-- nothing has pinned, and the job's generation is still that of the allocation.
use omarchy_m1_video.Prelude.{
  ℕ, ◌≡◌, refl, false, none, some, arith, ℤ, ◌==◌, inl, inr, Option-cases, Bool-cases, true, Option,
}
use omarchy_m1_video.Dict.{
  lookup, put, remove, lookup-put, lookup-remove, length-put, length-put-some, length-remove-some,
  length-remove, lookup-any_value,
}
use omarchy_m1_video.Queue.Defs.{Queue, Writer, Allocation, Job, complete, record_writer}
use omarchy_m1_video.Exec.{modify, ◌>>◌}
use omarchy_m1_video.Queue.Defs
use omarchy_m1_video.Queue.Invariant.{IsValid}

-- The writer record that a finished write leaves.
abbrev finished : Queue → ℕ → Job → ℕ × ℤ → Writer
finished q job item (picture, poc) = record {
  run = q.run;
  context = q.context;
  allocation = item.allocation;
  generation = item.generation;
  writer_job = job;
  picture = picture;
  poc = poc;
}

abbrev written : Allocation → Writer → Allocation
written a w = record a { writer = some w }

module _ {q : Queue} (v : IsValid q) (job : ℕ) where
  -- The job is taken out of flight; what follows may still raise.
  took : IsValid (record q { inflight = remove job q.inflight })
  took = record {
    jobs_current = λ j i h. ground (arith, v.jobs_current j i, lookup-remove job j q.inflight);
    writers_own = λ k b w h e. ground (arith, v.writers_own k b w h e);
    pins_written = v.pins_written;
    pins_coherent = v.pins_coherent;
    tokens_issued = v.tokens_issued;
    allocations_bounded = v.allocations_bounded;
    pins_bounded = v.pins_bounded;
    jobs_bounded = omega (arith, v.jobs_bounded, length-remove {0} job q.inflight);
  }

module _ {q : Queue} (v : IsValid q) (job : ℕ) (item : Job) where
  -- A finished read.
  finish_read :
      lookup job q.inflight ≡ some item
      → IsValid
          (record q { inflight = remove job q.inflight; completed = put job item q.completed })
  finish_read found = record {
    jobs_current = λ j i h. ground (arith, v.jobs_current j i, lookup-remove job j q.inflight);
    writers_own = λ k b w h e.
        ground (arith, v.writers_own k b w h e, lookup-put job w.writer_job item q.completed);
    pins_written = v.pins_written;
    pins_coherent = v.pins_coherent;
    tokens_issued = v.tokens_issued;
    allocations_bounded = v.allocations_bounded;
    pins_bounded = v.pins_bounded;
    jobs_bounded = ground (
      arith,
      v.jobs_bounded,
      length-remove-some job q.inflight item found,
      length-put job item q.completed,
    );
  }

  -- A finished write to an allocation that is not pinned.
  module _ (a : Allocation) (stamp : ℕ × ℤ) where
    finish_write :
        lookup job q.inflight ≡ some item
        → lookup item.allocation q.allocations ≡ some a
        → Defs.is_pinned q item.allocation ≡ false
        → IsValid (record q {
          inflight = remove job q.inflight;
          allocations = put item.allocation (written a (finished q job item stamp)) q.allocations;
          completed = put job item q.completed;
        })
    finish_write found here unpinned =
        let w0 = finished q job item stamp in
        let put_lookup = λ (k : ℕ). lookup-put item.allocation k (written a w0) q.allocations in
        record {
          jobs_current = λ j i h.
              ground (
                arith,
                v.jobs_current j i,
                lookup-remove job j q.inflight,
                put_lookup i.allocation,
              );
          writers_own = λ k b w h e. ground (
            arith,
            v.jobs_current job item found,
            v.writers_own k b w,
            lookup-put job w.writer_job item q.completed,
            put_lookup k,
          );
          pins_written = λ t w h. ground (
            arith,
            v.pins_written t w h,
            put_lookup w.allocation,
            lookup-any_value (λ x. x.allocation == item.allocation) t q.pins w unpinned,
          );
          pins_coherent = λ t w h. ground (
            arith,
            v.pins_coherent t w h,
            put_lookup w.allocation,
            lookup-any_value (λ x. x.allocation == item.allocation) t q.pins w unpinned,
          );
          tokens_issued = v.tokens_issued;
          allocations_bounded = omega (
            arith,
            v.allocations_bounded,
            length-put-some {0} item.allocation (written a w0) q.allocations a here,
          );
          pins_bounded = v.pins_bounded;
          jobs_bounded = ground (
            arith,
            v.jobs_bounded,
            length-remove-some job q.inflight item found,
            length-put job item q.completed,
          );
        }

-- The rest of `complete`, once the job is out of flight and its allocation is found.
finish :
    {q : Queue} (v : IsValid q) (job : ℕ) (item : Job) (a : Allocation)
    → lookup job q.inflight ≡ some item
    → lookup item.allocation q.allocations ≡ some a
    → (stamp : Option (ℕ × ℤ))
    → IsValid
        ((record_writer job item stamp a
            >> modify (λ s. record s { completed = put job item s.completed }))
          (record q { inflight = remove job q.inflight })).1
unfolding record_writer
finish v job item a found here none = finish_read v job item found
finish {q} v job item a found here (some stamp) =
    elim (Bool-cases (Defs.is_pinned q item.allocation)) [
      | inl pinned ↦ rw pinned (took v job)
      | inr unpinned ↦ rw unpinned (finish_write v job item a stamp found here unpinned)
    ]

module _ {q : Queue} (v : IsValid q) (job : ℕ) where
  complete-IsValid_live :
      Defs.is_live q ≡ true
      → (found_job : Option Job) → lookup job q.inflight ≡ found_job
      → IsValid (complete job q).1
  unfolding complete
  complete-IsValid_live alive none found = rw (alive, found) v
  complete-IsValid_live alive (some item) found =
      elim (Option-cases (lookup item.allocation q.allocations)) [
        | inl gone ↦ rw (alive, found, gone) (took v job)
        | inr (a, here) ↦ rw (alive, found, here) (finish v job item a found here item.writer)
      ]

  pub complete-IsValid : IsValid (complete job q).1
  unfolding complete
  complete-IsValid = elim (Bool-cases (Defs.is_live q)) [
    | inl alive ↦ complete-IsValid_live alive (lookup job q.inflight) refl
    | inr dead ↦ rw dead v
  ]
