-- ===== src/Vp9/Invariant/Queueing.antt =====
-- `op_queue_dst` keeps the invariant: a destination gets a slot that no other buffer has.
use omarchy_m1_video.Prelude.{
  ℕ, zero, suc, ◌+◌, ◌≡◌, ◌<◌, Option, some, none, arith, false, Bool-cases, inl, inr, Option-cases,
}
use omarchy_m1_video.Dict.{Dict, lookup, put, contains, lookup-put}
use omarchy_m1_video.Vp9.State.{Session, Buffer, Era, new_buffer}
use omarchy_m1_video.Vp9.Ops.Queueing.{
  free_index, alloc_index, ensure_buffer, take_slot, queue_existing, op_queue_dst, queued,
}
use omarchy_m1_video.Vp9.Invariant.Defs.{
  IsValid, HasQueues, Queues, context, same_context, queues, same_queues, one_write,
}

-- The index that is found is free, and among those that were tried.
free_index_lem :
    (left i : ℕ) (slot : Dict ℕ) (k : ℕ)
    → free_index left i slot ≡ some k
    → (contains k slot ≡ false) × (k < i + left)
unfolding free_index
free_index_lem zero i slot k h = cc
free_index_lem (suc left) i slot k h = ground (arith, free_index_lem left (suc i) slot k)

module _ {q : Queues} (v : HasQueues q) (name : ℕ) where
  -- A new buffer of the current era.
  add_buffer :
      (era : Era) (backing : Option ℕ)
      → q.current_era ≡ some era
      → lookup name q.buffers ≡ none
      → HasQueues (record q { buffers = put name (new_buffer name era backing) q.buffers })
  unfolding new_buffer
  add_buffer era backing current missing =
      let found = λ (n : ℕ). lookup-put name n (new_buffer name era backing) q.buffers in
      record {
        capture_slotted = v.capture_slotted;
        era_known = v.era_known;
        buffers_in_era =
            λ n b p. ground (arith, found n, v.buffers_in_era n b, v.era_known era current);
        queued_slot = λ n b p r. ground (arith, found n, v.queued_slot n b);
        slots_in_range = v.slots_in_range;
        registered = λ n r p. ground (arith, found n, v.registered n r);
      }

  -- A free slot for a buffer that is neither queued nor registered.
  give_slot :
      (buf : Buffer) (idx : ℕ)
      → lookup name q.buffers ≡ some buf
      → contains name q.registrations ≡ false
      → contains idx q.slot ≡ false
      → idx < q.capture_slots
      → HasQueues (record q {
        buffers = put name (queued q.capture_generation idx buf) q.buffers;
        slot = put idx name q.slot;
      })
  give_slot buf idx here unregistered free fits =
      let found = λ (n : ℕ). lookup-put name n (queued q.capture_generation idx buf) q.buffers in
      let slots = λ (i : ℕ). lookup-put idx i name q.slot in
      record {
        capture_slotted = v.capture_slotted;
        era_known = v.era_known;
        buffers_in_era =
            λ n b p. ground (arith, found n, v.buffers_in_era n b, v.buffers_in_era name buf here);
        queued_slot = λ n b p r. elim (Option-cases b.index) [
          | inl without ↦ ground (arith, found n, v.queued_slot n b)
          | inr (i, e) ↦ ground (arith, found n, slots i, v.queued_slot n b)
        ];
        slots_in_range = λ i n p. ground (arith, slots i, v.slots_in_range i n);
        registered = λ n r p. ground (arith, found n, v.registered n r);
      }

take_slot-HasQueues :
    (s : Session) (v : HasQueues (queues s)) (name : ℕ) (buf : Buffer)
    → lookup name s.buffers ≡ some buf
    → contains name s.registrations ≡ false
    → HasQueues (queues (take_slot name buf s).1)
unfolding take_slot alloc_index
take_slot-HasQueues s v name buf here unregistered =
    elim (Option-cases (free_index s.capture_slots 0 s.slot)) [
      | inl full ↦ same_queues v (ground arith)
      | inr (idx, e) ↦
          let free = free_index_lem s.capture_slots 0 s.slot idx e in
          one_write v (give_slot v name buf idx here unregistered free.0 (omega (arith, free.1)))
            (ground arith)
    ]

queue_existing-HasQueues :
    (s : Session) (v : HasQueues (queues s)) (name : ℕ) (buf : Buffer)
    → lookup name s.buffers ≡ some buf
    → HasQueues (queues (queue_existing name buf s).1)
unfolding queue_existing
queue_existing-HasQueues s v name buf here = elim (Bool-cases (contains name s.registrations)) [
  | inl registered ↦ same_queues v (ground arith)
  | inr unregistered ↦
      one_write v (take_slot-HasQueues s v name buf here unregistered) (ground arith)
]

op_queue_dst-HasQueues :
    (s : Session) (v : HasQueues (queues s)) (name : ℕ) (backing : Option ℕ)
    → HasQueues (queues (op_queue_dst name backing s).1)
unfolding op_queue_dst ensure_buffer
op_queue_dst-HasQueues s v name backing = elim (Option-cases (lookup name s.buffers)) [
  | inr (buf, here) ↦ same_queues (queue_existing-HasQueues s v name buf here) (ground arith)
  | inl missing ↦ elim (Option-cases s.current_era) [
    | inl no_era ↦ same_queues v (ground arith)
    | inr (era, current) ↦
        same_queues
          (queue_existing-HasQueues
            (record s { buffers = put name (new_buffer name era backing) s.buffers })
            (add_buffer v name era backing current missing) name (new_buffer name era backing)
            (ground (arith, lookup-put name name (new_buffer name era backing) s.buffers)))
          (ground arith)
  ]
]

-- Queueing leaves the codec context alone.
take_slot-context :
    (name : ℕ) (buf : Buffer) (s : Session) → context (take_slot name buf s).1 ≡ context s
unfolding take_slot alloc_index
take_slot-context name buf s = ground arith

queue_existing-context :
    (name : ℕ) (buf : Buffer) (s : Session) → context (queue_existing name buf s).1 ≡ context s
unfolding queue_existing
queue_existing-context name buf s = ground (arith, take_slot-context name buf s)

op_queue_dst-context :
    (name : ℕ) (backing : Option ℕ) (s : Session)
    → context (op_queue_dst name backing s).1 ≡ context s
unfolding op_queue_dst ensure_buffer
op_queue_dst-context name backing s = elim (Option-cases (lookup name s.buffers)) [
  | inr (buf, here) ↦ ground (arith, queue_existing-context name buf s)
  | inl missing ↦ elim (Option-cases s.current_era) [
    | inl no_era ↦ ground arith
    | inr (era, current) ↦ ground (
      arith,
      queue_existing-context name (new_buffer name era backing)
          (record s { buffers = put name (new_buffer name era backing) s.buffers }),
    )
  ]
]

pub op_queue_dst-IsValid :
    {s : Session} (v : IsValid s) (name : ℕ) (backing : Option ℕ)
    → IsValid (op_queue_dst name backing s).1
op_queue_dst-IsValid {s} v name backing = record {
  codec = same_context v.codec (op_queue_dst-context name backing s);
  queue = op_queue_dst-HasQueues s v.queue name backing;
}
