-- ===== src/Vp9/Invariant/Frames.antt =====
-- `op_queue_dst` and `op_export` keep the invariant, and never read
-- what is not there.
use omarchy_m1_video.Prelude.{
  ℕ, ◌≡◌, ◌≢◌, refl, ap, Option, some, arith, true, inl, inr, Option-cases, Bool-cases, is_some,
  or_default, ◌==◌,
}
use omarchy_m1_video.Dict.{lookup, put, contains, lookup-put}
use omarchy_m1_video.Exec.{err}
use omarchy_m1_video.Vp9.Reject.{crash}
use omarchy_m1_video.Vp9.State.{Session, Buffer, new_buffer}
use omarchy_m1_video.Vp9.Ops.Queueing.{
  alloc_index, ensure_buffer, take_slot, queue_existing, op_queue_dst,
}
use omarchy_m1_video.Vp9.Ops.Frames.{op_export}
use omarchy_m1_video.Vp9.Invariant.Defs.{
  IsValid, HasQueues, Queues, same_context, one_write, slot_of,
}
use omarchy_m1_video.Vp9.Invariant.Queueing.{op_queue_dst-IsValid}
use omarchy_m1_video.Vp9.Invariant.Safe.{IsSafe, looks-IsSafe}

take_slot-calm : (name : ℕ) (buf : Buffer) (s : Session) → (take_slot name buf s).0 ≢ err crash
unfolding take_slot alloc_index
take_slot-calm name buf s = ground arith

queue_existing-calm :
    (name : ℕ) (buf : Buffer) (s : Session)
    → is_some s.current_era ≡ true
    → (queue_existing name buf s).0 ≢ err crash
unfolding queue_existing
queue_existing-calm name buf s known = ground (arith, take_slot-calm name buf s)

op_queue_dst-calm :
    (name : ℕ) (backing : Option ℕ) (s : Session)
    → IsValid s
    → (op_queue_dst name backing s).0 ≢ err crash
unfolding op_queue_dst ensure_buffer
op_queue_dst-calm name backing s v = elim (Option-cases (lookup name s.buffers)) [
  | inr (buf, here) ↦
      ground (arith, v.queue.buffers_in_era name buf here, queue_existing-calm name buf s)
  | inl missing ↦ elim (Option-cases s.current_era) [
    | inl no_era ↦ ground arith
    | inr (era, current) ↦ ground (
      arith,
      queue_existing-calm name (new_buffer name era backing)
          (record s { buffers = put name (new_buffer name era backing) s.buffers }),
    )
  ]
]

pub op_queue_dst-IsSafe :
    (name : ℕ) (backing : Option ℕ) (s : Session) → IsValid s → IsSafe (op_queue_dst name backing s)
op_queue_dst-IsSafe name backing s v = record {
  no_crash = op_queue_dst-calm name backing s v;
  valid = op_queue_dst-IsValid v name backing;
}

-- A buffer that is written back with its era, slot and queue flag as they were.
pub rewrite_buffer :
    {q : Queues} (v : HasQueues q) (name : ℕ) (old new : Buffer)
    → lookup name q.buffers ≡ some old
    → contains new.era_id q.eras ≡ true
    → new.queued_as_dst ≡ old.queued_as_dst
    → new.generation ≡ old.generation
    → new.index ≡ old.index
    → HasQueues (record q { buffers = put name new q.buffers })
rewrite_buffer {q} v name old new here era_there same_flag same_generation same_index =
    let found = λ (n : ℕ). lookup-put name n new q.buffers in
    record {
      capture_slotted = v.capture_slotted;
      era_known = v.era_known;
      buffers_in_era =
          λ n b p. ground (arith, found n, v.buffers_in_era n b, v.buffers_in_era name old here);
      queued_slot = λ n b p r. elim (Bool-cases (name == n)) [
        | inl same ↦
            let is_new : b ≡ new = ground (arith, found n) in
            let is_name : n ≡ name = ground arith in
            let own =
              v.queued_slot name old here (cc (ap (λ (x : Buffer). x.queued_as_dst) is_new)) in
            (
              cc (own.0, ap (λ (x : Buffer). x.generation) is_new),
              cc (
                own.1,
                is_name,
                ap (λ (x : Buffer). slot_of x.index q.slot) is_new,
                ap (λ (i : Option ℕ). slot_of i q.slot) same_index,
              ),
            )
        | inr other ↦ ground (arith, found n, v.queued_slot n b)
      ];
      slots_in_range = v.slots_in_range;
      registered = λ n r p. ground (arith, found n, v.registered n r);
    }

pub op_export-IsSafe :
    (name : ℕ) (backing : Option ℕ) (s : Session) → IsValid s → IsSafe (op_export name backing s)
unfolding op_export
op_export-IsSafe name backing s v = elim (Option-cases (lookup name s.buffers)) [
  | inl missing ↦ looks-IsSafe (op_export name backing) s v (ground arith) (ground arith)
  | inr (buf, here) ↦ record {
    no_crash = ground arith;
    valid = record {
      codec = same_context v.codec (ground arith);
      queue =
          one_write v.queue
            (rewrite_buffer v.queue name buf
              (record buf { exported = true; backing_bytes = or_default backing buf.backing_bytes })
              here ((v.queue.buffers_in_era name buf here).1) refl refl refl)
            (ground arith);
    };
  }
]
