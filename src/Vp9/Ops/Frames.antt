-- ===== src/Vp9/Ops/Frames.antt =====
-- `op_decode`, `op_export` and `op_register` of experiments/vp9-state/model.py.
use omarchy_m1_video.Prelude.{
  ℕ, ◌+◌, Bool, true, false, not, ◌&&◌, ◌||◌, Option, none, some, List, [], ◌∷◌, ltb, ◌==◌, ◌!=◌,
  is_some, or_default, opt_eq, max,
}
use omarchy_m1_video.Dict.{Dict, lookup, put, contains}
use omarchy_m1_video.Exec.{pure, gets, or_raise, modify, raise_if, when, ◌>>=◌, ◌>>◌}
use omarchy_m1_video.Vp9.Reject.{Code, Invariant, reject, fixture, crash}
use omarchy_m1_video.Vp9.Event.{Decode}
use omarchy_m1_video.Vp9.State.{Action, Buffer, is_stock, ts_lookup, ts_put}
use omarchy_m1_video.Vp9.Layout.{min_dim, align_w, align_h, round_up, div_round_up}
use omarchy_m1_video.Vp9.Ops.Queueing.{op_queue_dst}
use omarchy_m1_video.Vp9.Ops.References.{resolve_refs}

-- `any(div_round_up(w, a) > div_round_up(scratch_w, a) or ... for a in (8, 16, 64))`
abbrev pub exceeds : ℕ → ℕ → ℕ → ℕ → ℕ → Bool
exceeds w h sw sh a =
    ltb (div_round_up sw a) (div_round_up w a) || ltb (div_round_up sh a) (div_round_up h a)

unfoldable pub exceeds_scratch : ℕ → ℕ → ℕ → ℕ → Bool
exceeds_scratch w h sw sh = exceeds w h sw sh 8 || (exceeds w h sw sh 16 || exceeds w h sw sh 64)

unfoldable pub check_scratch : ℕ → ℕ → ℕ → Action Unit
check_scratch w h depth = do
  s ← gets (λ s. s)
  raise_if (not s.scratch_present || not (opt_eq s.scratch_depth (some depth)))
      (reject Code.scratch_bounds Invariant.scratch_capacity_contract)
  sw ← or_raise s.scratch_w crash
  sh ← or_raise s.scratch_h crash
  raise_if (exceeds_scratch w h sw sh)
      (reject Code.scratch_bounds Invariant.scratch_capacity_contract)

abbrev pub is_queued : Option Buffer → Bool
is_queued none = false
is_queued (some buf) = buf.queued_as_dst

-- The tests of `op_decode` up to the references.
unfoldable pub check_decode : Decode → Action Unit
check_decode e = do
  s ← gets (λ s. s)
  raise_if s.failed (reject Code.partial_failure_reuse Invariant.failed_session_no_submit)
  raise_if (not s.output_streaming || not s.probabilities)
      (reject Code.state_loss Invariant.stop_on_output_streamoff)
  raise_if (not s.capture_streaming || s.capture_slots == 0)
      (reject Code.capture_not_streaming Invariant.both_queues_streaming)
  raise_if (ltb e.width min_dim || ltb e.height min_dim)
      (reject Code.sub64 Invariant.validate_dec_params_min64)
  era ← or_raise s.current_era fixture
  raise_if (round_up e.width align_w != era.aligned_w || round_up e.height align_h != era.aligned_h)
      (reject Code.unexpected_resolution Invariant.validate_dec_params_aligned)
  raise_if (or_default e.bit_depth s.bit_depth != s.bit_depth)
      (reject Code.mixed_depth Invariant.image_fmt_busy)

abbrev pub is_empty : List ℕ → Bool
is_empty [] = true
is_empty (_ ∷ _) = false

-- The destination once its picture is decoded.
abbrev pub decoded : Decode → ℕ → ℕ → Buffer → Buffer
decoded e era_id depth buf = record buf {
  decoded_ok = true;
  era_id = era_id;
  width = e.width;
  height = e.height;
  bit_depth = depth;
}

-- The destination of a decode, queued at the current era size if it is not.
unfoldable pub queue_if_needed : Decode → Action Unit
queue_if_needed e = do
  s ← gets (λ s. s)
  when (not (is_queued (lookup e.dst s.buffers))) (op_queue_dst e.dst e.backing_bytes)

-- The writes of `op_decode` to the destination.
unfoldable pub finish_decode : Decode → Action Unit
finish_decode e = do
  s ← gets (λ s. s)
  buf ← or_raise (lookup e.dst s.buffers) crash
  era ← or_raise s.current_era crash
  modify (λ s. record s {
    buffers = put e.dst (decoded e era.id (or_default e.bit_depth s.bit_depth) buf) s.buffers;
    last_present = true;
  })

-- The references of a decode that is no key frame.
unfoldable pub decode_refs : Decode → Action Unit
decode_refs e = do
  raise_if (or_default e.key false && not (is_empty (or_default e.refs []))) fixture
  when (not (or_default e.key false))
      (resolve_refs e.dst (or_default e.force_kernel_lookup false) (or_default e.refs []))

unfoldable pub decode_scratch : Decode → Action Unit
decode_scratch e = do
  s ← gets (λ s. s)
  check_scratch e.width e.height (or_default e.bit_depth s.bit_depth)

unfoldable pub op_decode : Decode → Action Unit
op_decode e = do check_decode e; decode_refs e; decode_scratch e; queue_if_needed e; finish_decode e

unfoldable pub op_export : ℕ → Option ℕ → Action Unit
op_export name backing = do
  s ← gets (λ s. s)
  buf ← or_raise (lookup name s.buffers) fixture
  raise_if (not buf.decoded_ok) fixture
  modify (λ s. record s {
    buffers =
        put name
          (record buf { exported = true; backing_bytes = or_default backing buf.backing_bytes })
          s.buffers;
  })

abbrev pub index_taken : Option ℕ → Dict ℕ → Bool
index_taken none slot = false
index_taken (some i) slot = contains i slot

-- The tests of `op_register` on a buffer that is there.
unfoldable pub check_exported : Buffer → Action Unit
check_exported buf = do
  raise_if (not buf.exported)
      (reject Code.orphaned_retained_buffer Invariant.explicit_ref_registration)
  raise_if (not buf.decoded_ok)
      (reject Code.unavailable_reference Invariant.explicit_ref_registration)
  raise_if buf.queued_as_dst
      (reject Code.reference_queued_as_destination Invariant.ref_not_queued_as_dst)
  s ← gets (λ s. s)
  era ← or_raise (lookup buf.era_id s.eras) crash
  raise_if (ltb buf.backing_bytes era.sizeimage)
      (reject Code.short_backing Invariant.era_sizing_dst_vs_ref)

unfoldable pub check_register : ℕ → Action Buffer
check_register name = do
  s ← gets (λ s. s)
  raise_if (is_stock s.path)
      (reject Code.stock_has_no_registration Invariant.explicit_ref_registration)
  buf ←
      or_raise (lookup name s.buffers)
        (reject Code.orphaned_retained_buffer Invariant.explicit_ref_registration)
  check_exported buf
  pure buf

-- The writes of `op_register` for a buffer that may be registered.
unfoldable pub register_buffer : ℕ → Option ℕ → Option ℕ → Buffer → Action Unit
register_buffer name timestamp idx buf = do
  s ← gets (λ s. s)
  let ts = or_default timestamp s.next_reg_ts
  modify (λ s. record s { next_reg_ts = max s.next_reg_ts ts + 1 })
  raise_if (is_some (ts_lookup s.capture_generation ts s.ts_index))
      (reject Code.duplicate_timestamp Invariant.generation_scoped_timestamps)
  raise_if (index_taken idx s.slot)
      (reject Code.reference_queued_as_destination Invariant.ref_not_queued_as_dst)
  modify (λ s. record s {
    ts_index = ts_put s.capture_generation ts name s.ts_index;
    buffers = put name (record buf { timestamp = some ts; queued_as_dst = false }) s.buffers;
    registrations =
        put name
          (record {
            generation = s.capture_generation;
            timestamp = ts;
            era_id = buf.era_id;
            index = idx;
          })
          s.registrations;
  })

unfoldable pub op_register : ℕ → Option ℕ → Option ℕ → Action Unit
op_register name timestamp idx = do
  buf ← check_register name
  register_buffer name timestamp idx buf
