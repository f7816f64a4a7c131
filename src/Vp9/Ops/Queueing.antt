-- ===== src/Vp9/Ops/Queueing.antt =====
-- `_alloc_index` and `op_queue_dst` of experiments/vp9-state/model.py.
use omarchy_m1_video.Prelude.{
  ℕ, zero, suc, ◌+◌, ◌*◌, Bool, true, false, Option, none, some, ltb, leb, ◌!=◌, if◌then◌else◌,
}
use omarchy_m1_video.Dict.{Dict, lookup, put, contains}
use omarchy_m1_video.Exec.{pure, gets, or_raise, modify, raise_if, ◌>>=◌, ◌>>◌}
use omarchy_m1_video.Vp9.Reject.{Code, Invariant, reject, fixture, crash}
use omarchy_m1_video.Vp9.State.{Action, Buffer, new_buffer, ts_lookup, ts_put, ts_scale}

-- The first index from `i` on, of those that are left, that no buffer has.
unfoldable pub free_index : ℕ → ℕ → Dict ℕ → Option ℕ
free_index zero i slot = none
free_index (suc left) i slot =
    let rest = free_index left (suc i) slot in if contains i slot then rest else some i

unfoldable pub alloc_index : ℕ → Action ℕ
alloc_index name = do
  s ← gets (λ s. s)
  raise_if (leb s.capture_slots 0) fixture
  i ←
      or_raise (free_index s.capture_slots 0 s.slot)
        (reject Code.no_capture_buffer Invariant.queue_setup_sizeimage)
  modify (λ s. record s { slot = put i name s.slot })
  pure i

-- The buffer of that name, made at the current era if there is none.
unfoldable pub ensure_buffer : ℕ → Option ℕ → Option Buffer → Action Buffer
ensure_buffer name backing (some buf) = pure buf
ensure_buffer name backing none = do
  s ← gets (λ s. s)
  era ← or_raise s.current_era fixture
  modify (λ s. record s { buffers = put name (new_buffer name era backing) s.buffers })
  pure (new_buffer name era backing)

abbrev pub dst_timestamp : ℕ → ℕ
dst_timestamp idx = (idx + 1) * ts_scale

-- The buffer once it owns a destination slot.
abbrev pub queued : ℕ → ℕ → Buffer → Buffer
queued generation idx buf = record buf {
  index = some idx;
  generation = some generation;
  timestamp = some (dst_timestamp idx);
  wrapper_alive = true;
  queued_as_dst = true;
}

abbrev pub names_other : Option ℕ → ℕ → Bool
names_other none name = false
names_other (some n) name = n != name

-- Gives a slot, and its timestamp in this generation, to a buffer that may have one.
unfoldable pub take_slot : ℕ → Buffer → Action Unit
take_slot name buf = do
  idx ← alloc_index name
  modify (λ s. record s { buffers = put name (queued s.capture_generation idx buf) s.buffers })
  s ← gets (λ s. s)
  raise_if (names_other (ts_lookup s.capture_generation (dst_timestamp idx) s.ts_index) name)
      (reject Code.old_generation_alias Invariant.generation_scoped_timestamps)
  modify
      (λ s. record s { ts_index = ts_put s.capture_generation (dst_timestamp idx) name s.ts_index })

-- The tests of `op_queue_dst` on a buffer, and its slot.
unfoldable pub queue_existing : ℕ → Buffer → Action Unit
queue_existing name buf = do
  s ← gets (λ s. s)
  raise_if (contains name s.registrations)
      (reject Code.reference_queued_as_destination Invariant.ref_not_queued_as_dst)
  raise_if buf.queued_as_dst (reject Code.duplicate_destination Invariant.unique_destination_slot)
  era ← or_raise s.current_era crash
  raise_if (ltb buf.backing_bytes era.sizeimage)
      (reject Code.short_backing Invariant.vb2_dmabuf_min_length)
  take_slot name buf

unfoldable pub op_queue_dst : ℕ → Option ℕ → Action Unit
op_queue_dst name backing = do
  s ← gets (λ s. s)
  buf ← ensure_buffer name backing (lookup name s.buffers)
  queue_existing name buf
