-- ===== src/Vp9/Invariant/Decode.antt =====
-- `op_decode` keeps the invariant, and never reads what is not there.
use omarchy_m1_video.Prelude.{
  ℕ, ◌≡◌, refl, Option, arith, true, false, inl, inr, Option-cases, Bool-cases, or_default, [],
}
use omarchy_m1_video.Dict.{lookup, put, lookup-put}
use omarchy_m1_video.Exec.{ok, ◌>>◌}
use omarchy_m1_video.Vp9.Event.{Decode}
use omarchy_m1_video.Vp9.State.{Session, Buffer, new_buffer}
use omarchy_m1_video.Vp9.Ops.Queueing.{
  free_index, alloc_index, ensure_buffer, take_slot, queue_existing, op_queue_dst, queued,
}
use omarchy_m1_video.Vp9.Ops.Frames.{
  queue_if_needed, finish_decode, op_decode, decode_refs, decode_scratch, check_decode, decoded,
  is_queued,
}
use omarchy_m1_video.Vp9.Invariant.Defs.{IsValid, same_context, same_queues}
use omarchy_m1_video.Vp9.Invariant.Safe.{IsSafe, bind-IsSafe, looks-IsSafe}
use omarchy_m1_video.Vp9.Invariant.References.{
  resolve_refs-IsSafe, check_decode-IsSafe, check_scratch-IsSafe,
}
use omarchy_m1_video.Vp9.Invariant.Frames.{op_queue_dst-IsSafe, rewrite_buffer}

-- What `op_queue_dst` leaves behind when it returns.
take_slot-queued :
    (name : ℕ) (buf : Buffer) (s : Session)
    → (take_slot name buf s).0 ≡ ok tt
    → is_queued (lookup name (take_slot name buf s).1.buffers) ≡ true
unfolding take_slot alloc_index
take_slot-queued name buf s h = elim (Option-cases (free_index s.capture_slots 0 s.slot)) [
  | inl full ↦ ground arith
  | inr (idx, e) ↦
      ground (arith, lookup-put name name (queued s.capture_generation idx buf) s.buffers)
]

queue_existing-queued :
    (name : ℕ) (buf : Buffer) (s : Session)
    → (queue_existing name buf s).0 ≡ ok tt
    → is_queued (lookup name (queue_existing name buf s).1.buffers) ≡ true
unfolding queue_existing
queue_existing-queued name buf s h = ground (arith, take_slot-queued name buf s)

op_queue_dst-queued :
    (name : ℕ) (backing : Option ℕ) (s : Session)
    → (op_queue_dst name backing s).0 ≡ ok tt
    → is_queued (lookup name (op_queue_dst name backing s).1.buffers) ≡ true
unfolding op_queue_dst ensure_buffer
op_queue_dst-queued name backing s h = elim (Option-cases (lookup name s.buffers)) [
  | inr (buf, here) ↦ ground (arith, queue_existing-queued name buf s)
  | inl missing ↦ elim (Option-cases s.current_era) [
    | inl no_era ↦ ground arith
    | inr (era, current) ↦ ground (
      arith,
      queue_existing-queued name (new_buffer name era backing)
          (record s { buffers = put name (new_buffer name era backing) s.buffers }),
    )
  ]
]

queue_if_needed-IsSafe : (e : Decode) (s : Session) → IsValid s → IsSafe (queue_if_needed e s)
unfolding queue_if_needed
queue_if_needed-IsSafe e s v = elim (Bool-cases (is_queued (lookup e.dst s.buffers))) [
  | inl there ↦ rw there (record { no_crash = λ p. cc; valid = v })
  | inr needed ↦ rw needed (op_queue_dst-IsSafe e.dst e.backing_bytes s v)
]

queue_if_needed-queued :
    (e : Decode) (s : Session)
    → (queue_if_needed e s).0 ≡ ok tt
    → is_queued (lookup e.dst (queue_if_needed e s).1.buffers) ≡ true
unfolding queue_if_needed
queue_if_needed-queued e s h = ground (arith, op_queue_dst-queued e.dst e.backing_bytes s)

finish_decode-IsSafe :
    (e : Decode) (s : Session)
    → IsValid s
    → is_queued (lookup e.dst s.buffers) ≡ true
    → IsSafe (finish_decode e s)
unfolding finish_decode
finish_decode-IsSafe e s v q = elim (Option-cases (lookup e.dst s.buffers)) [
  | inl missing ↦ absurd (ground arith)
  | inr (buf, here) ↦ elim (Option-cases s.current_era) [
    | inl no_era ↦ absurd (ground (arith, v.queue.buffers_in_era e.dst buf here))
    | inr (era, current) ↦ record {
      no_crash = ground arith;
      valid = record {
        codec = same_context v.codec (ground arith);
        queue =
            same_queues
              (rewrite_buffer v.queue e.dst buf
                (decoded e era.id (or_default e.bit_depth s.bit_depth) buf) here
                (v.queue.era_known era current) refl refl refl)
              (ground arith);
      };
    }
  ]
]

decode_refs-IsSafe : (e : Decode) (s : Session) → IsValid s → IsSafe (decode_refs e s)
unfolding decode_refs
decode_refs-IsSafe e s v = elim (Bool-cases (or_default e.key false)) [
  | inl key ↦ looks-IsSafe (decode_refs e) s v (ground arith) (ground arith)
  | inr inter ↦ rw inter (
      resolve_refs-IsSafe e.dst (or_default e.force_kernel_lookup false) (or_default e.refs []) s v)
]

decode_scratch-IsSafe : (e : Decode) (s : Session) → IsValid s → IsSafe (decode_scratch e s)
unfolding decode_scratch
decode_scratch-IsSafe e s v =
    check_scratch-IsSafe e.width e.height (or_default e.bit_depth s.bit_depth) s v

pub op_decode-IsSafe : (e : Decode) (s : Session) → IsValid s → IsSafe (op_decode e s)
unfolding op_decode
op_decode-IsSafe e s v =
    bind-IsSafe (λ _. decode_refs e >> (decode_scratch e >> (queue_if_needed e >> finish_decode e)))
      (check_decode e) s (check_decode-IsSafe e s v)
      (λ _ s1 _ v1.
        bind-IsSafe (λ _. decode_scratch e >> (queue_if_needed e >> finish_decode e))
          (decode_refs e) s1 (decode_refs-IsSafe e s1 v1)
          (λ _ s2 _ v2.
            bind-IsSafe (λ _. queue_if_needed e >> finish_decode e) (decode_scratch e) s2
              (decode_scratch-IsSafe e s2 v2)
              (λ _ s3 _ v3.
                bind-IsSafe (λ _. finish_decode e) (queue_if_needed e) s3
                  (queue_if_needed-IsSafe e s3 v3)
                  (λ _ s4 p v4.
                    finish_decode-IsSafe e s4 v4 (ground (arith, queue_if_needed-queued e s3))))))
