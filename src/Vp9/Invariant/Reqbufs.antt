-- ===== src/Vp9/Invariant/Reqbufs.antt =====
-- REQBUFS keeps the invariant: it drops every slot and registration before it makes new slots.
use omarchy_m1_video.Prelude.{
  ℕ, ◌+◌, ◌≡◌, refl, ◌<◌, Option, some, none, arith, false, ◌==◌, ◌!=◌, ◌||◌, Bool-cases, inl, inr,
  Option-cases, [],
}
use omarchy_m1_video.Dict.{lookup, map_values, lookup-map_values}
use omarchy_m1_video.Vp9.State.{Session}
use omarchy_m1_video.Vp9.Ops.Streams.{op_capture_reqbufs, detach}
use omarchy_m1_video.Vp9.Invariant.Defs.{IsValid, HasQueues, Queues, queues, slot_of, same_queues}

abbrev dropped : Queues → Queues
dropped q = record q {
  buffers = map_values detach q.buffers;
  slot = [];
  capture_slots = 0;
  capture_generation = q.capture_generation + 1;
  registrations = [];
}

module _ {q : Queues} (v : HasQueues q) where
  drop_queue : q.capture_streaming ≡ false → HasQueues (dropped q)
  unfolding lookup
  drop_queue off = record {
    capture_slotted = λ p. cc;
    era_known = v.era_known;
    buffers_in_era = λ n b p. elim (Option-cases (lookup n q.buffers)) [
      | inl gone ↦ ground (arith, lookup-map_values detach n q.buffers)
      | inr (old, e) ↦
          ground (arith, lookup-map_values detach n q.buffers, v.buffers_in_era n old e)
    ];
    queued_slot = λ n b p r. ground (arith, lookup-map_values detach n q.buffers);
    slots_in_range = λ i n p. ground arith;
    registered = λ n r p. ground arith;
  }

  owned_slot : (i : Option ℕ) (n : ℕ) → slot_of i q.slot ≡ some n → 0 < q.capture_slots
  owned_slot none n e = cc
  owned_slot (some i) n e = omega (arith, v.slots_in_range i n e)

  -- With no slots there is no queued buffer, so new slots start free.
  new_slots :
      (count : ℕ) → q.capture_slots ≡ 0 → HasQueues (record q { capture_slots = count; slot = [] })
  unfolding lookup
  new_slots count empty = record {
    capture_slotted = λ p. absurd (omega (arith, v.capture_slotted p));
    era_known = v.era_known;
    buffers_in_era = v.buffers_in_era;
    queued_slot = λ n b p r. absurd (omega (arith, owned_slot b.index n (v.queued_slot n b p r).1));
    slots_in_range = λ i n p. ground arith;
    registered = v.registered;
  }

module _ {s : Session} (v : IsValid s) (count : ℕ) where
  reqbufs-HasQueues : HasQueues (queues (op_capture_reqbufs count s).1)
  unfolding op_capture_reqbufs
  reqbufs-HasQueues = elim (Bool-cases s.capture_streaming) [
    | inl on ↦ same_queues v.queue (ground arith)
    | inr off ↦ elim (Bool-cases (count == 0 || s.capture_slots != 0)) [
      | inl drop ↦ elim (Bool-cases (count != 0)) [
        | inl more ↦ elim (Option-cases s.current_era) [
          | inl missing ↦ same_queues (drop_queue v.queue off) (ground arith)
          | inr (era, e) ↦
              same_queues (new_slots (drop_queue v.queue off) count refl) (ground arith)
        ]
        | inr done ↦ same_queues (drop_queue v.queue off) (ground arith)
      ]
      | inr fresh ↦ elim (Option-cases s.current_era) [
        | inl missing ↦ same_queues v.queue (ground arith)
        | inr (era, e) ↦ same_queues (new_slots v.queue count (ground arith)) (ground arith)
      ]
    ]
  ]

  pub op_capture_reqbufs-IsValid : IsValid (op_capture_reqbufs count s).1
  unfolding op_capture_reqbufs
  op_capture_reqbufs-IsValid = record { codec = ground (arith, v.codec); queue = reqbufs-HasQueues }
