-- ===== src/Vp9/Ops/References.antt =====
-- `_resolve_refs` of experiments/vp9-state/model.py and the three checks of a reference.
use omarchy_m1_video.Prelude.{
  ℕ, Bool, not, ◌&&◌, Option, none, some, List, [], ◌∷◌, ltb, ◌==◌, ◌!=◌, opt_eq, if◌then◌else◌,
}
use omarchy_m1_video.Dict.{lookup}
use omarchy_m1_video.Exec.{pure, gets, or_raise, raise_if, ◌>>=◌, ◌>>◌}
use omarchy_m1_video.Vp9.Reject.{Code, Invariant, reject, crash}
use omarchy_m1_video.Vp9.State.{Session, Action, Buffer, Registration, is_stock, ts_lookup}

-- A buffer that stock userspace may hand over as a reference.
abbrev pub is_bound : Session → Buffer → Bool
is_bound s buf =
    buf.wrapper_alive && (buf.decoded_ok && opt_eq buf.generation (some s.capture_generation))

unfoldable pub resolve_stock_userspace : ℕ → Action Unit
resolve_stock_userspace ref = do
  s ← gets (λ s. s)
  buf ←
      or_raise (lookup ref s.buffers) (reject Code.unavailable_reference Invariant.wrapper_on_queue)
  raise_if (not (is_bound s buf)) (reject Code.unavailable_reference Invariant.wrapper_on_queue)

abbrev pub timestamp_of : Option Buffer → Option ℕ
timestamp_of none = none
timestamp_of (some buf) = buf.timestamp

abbrev pub found_by : Session → Option ℕ → Option ℕ
found_by s none = none
found_by s (some ts) = ts_lookup s.capture_generation ts s.ts_index

unfoldable pub resolve_stock_kernel : ℕ → Action Unit
resolve_stock_kernel ref = do
  s ← gets (λ s. s)
  found ←
      or_raise (found_by s (timestamp_of (lookup ref s.buffers)))
        (reject Code.destination_fallback Invariant.get_ref_fallback_dst)
  raise_if (found != ref) (reject Code.old_generation_alias Invariant.generation_scoped_timestamps)

-- A registered reference, and one that is not.
unfoldable pub check_registration : Option Registration → Buffer → Action Unit
check_registration (some reg) buf = do
  raise_if buf.queued_as_dst
      (reject Code.reference_queued_as_destination Invariant.ref_not_queued_as_dst)
  s ← gets (λ s. s)
  raise_if (reg.generation != s.capture_generation)
      (reject Code.stale_registration Invariant.generation_scoped_timestamps)
check_registration none buf = do
  s ← gets (λ s. s)
  raise_if (not (is_bound s buf) && (buf.exported && not buf.wrapper_alive))
      (reject Code.orphaned_retained_buffer Invariant.explicit_ref_registration)
  raise_if (not (is_bound s buf))
      (reject Code.unavailable_reference Invariant.no_destination_fallback)

unfoldable pub resolve_proposed : ℕ → Action Unit
resolve_proposed ref = do
  s ← gets (λ s. s)
  buf ←
      or_raise (lookup ref s.buffers)
        (reject Code.orphaned_retained_buffer Invariant.explicit_ref_registration)
  raise_if (buf.bit_depth != s.bit_depth) (reject Code.mixed_depth Invariant.image_fmt_busy)
  era ← or_raise (lookup buf.era_id s.eras) crash
  raise_if (ltb buf.backing_bytes era.sizeimage)
      (reject Code.short_backing Invariant.era_sizing_dst_vs_ref)
  check_registration (lookup ref s.registrations) buf

unfoldable pub resolve_ref : ℕ → Bool → ℕ → Action Unit
resolve_ref dst force_kernel ref = do
  raise_if (ref == dst)
      (reject Code.reference_queued_as_destination Invariant.ref_not_queued_as_dst)
  s ← gets (λ s. s)
  if is_stock s.path && not force_kernel
      then resolve_stock_userspace ref
      else if is_stock s.path
      then resolve_stock_kernel ref
      else resolve_proposed ref

unfoldable pub resolve_refs : ℕ → Bool → List ℕ → Action Unit
resolve_refs dst force_kernel [] = pure tt
resolve_refs dst force_kernel (ref ∷ refs) =
    resolve_ref dst force_kernel ref >>= λ _. resolve_refs dst force_kernel refs
