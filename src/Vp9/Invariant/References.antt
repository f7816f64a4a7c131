-- ===== src/Vp9/Invariant/References.antt =====
-- The reference checks change nothing, and find the era of every buffer.
use omarchy_m1_video.Prelude.{ℕ, Bool, ◌≡◌, ◌≢◌, List, [], ◌∷◌, arith, inl, inr, Option-cases, true}
use omarchy_m1_video.Dict.{lookup, contains}
use omarchy_m1_video.Exec.{err}
use omarchy_m1_video.Vp9.Reject.{crash}
use omarchy_m1_video.Vp9.Event.{Decode}
use omarchy_m1_video.Vp9.State.{Session, Buffer}
use omarchy_m1_video.Vp9.Ops.References.{
  resolve_stock_userspace, resolve_stock_kernel, resolve_proposed, check_registration, resolve_ref,
  resolve_refs,
}
use omarchy_m1_video.Vp9.Ops.Frames.{check_decode, check_scratch, check_register, check_exported}
use omarchy_m1_video.Vp9.Invariant.Defs.{IsValid}
use omarchy_m1_video.Vp9.Invariant.Safe.{IsSafe, bind-IsSafe, looks-IsSafe}

resolve_proposed-calm : (ref : ℕ) (s : Session) → IsValid s → (resolve_proposed ref s).0 ≢ err crash
unfolding resolve_proposed check_registration
resolve_proposed-calm ref s v = elim (Option-cases (lookup ref s.buffers)) [
  | inl missing ↦ ground arith
  | inr (buf, here) ↦ ground (arith, v.queue.buffers_in_era ref buf here)
]

pub resolve_ref-state :
    (dst : ℕ) (force : Bool) (ref : ℕ) (s : Session) → (resolve_ref dst force ref s).1 ≡ s
unfolding resolve_ref resolve_stock_userspace resolve_stock_kernel resolve_proposed
    check_registration
resolve_ref-state dst force ref s = ground arith

resolve_ref-calm :
    (dst : ℕ) (force : Bool) (ref : ℕ) (s : Session)
    → IsValid s
    → (resolve_ref dst force ref s).0 ≢ err crash
unfolding resolve_ref resolve_stock_userspace resolve_stock_kernel
resolve_ref-calm dst force ref s v = ground (arith, resolve_proposed-calm ref s v)

pub resolve_refs-IsSafe :
    (dst : ℕ) (force : Bool) (refs : List ℕ) (s : Session)
    → IsValid s
    → IsSafe (resolve_refs dst force refs s)
unfolding resolve_refs
resolve_refs-IsSafe dst force [] s v = record { no_crash = λ p. cc; valid = v }
resolve_refs-IsSafe dst force (ref ∷ refs) s v =
    bind-IsSafe (λ _. resolve_refs dst force refs) (resolve_ref dst force ref) s
      (looks-IsSafe (resolve_ref dst force ref) s v (resolve_ref-state dst force ref s)
        (resolve_ref-calm dst force ref s v))
      (λ _ t _ w. resolve_refs-IsSafe dst force refs t w)

pub check_decode-IsSafe : (e : Decode) (s : Session) → IsValid s → IsSafe (check_decode e s)
unfolding check_decode
check_decode-IsSafe e s v = looks-IsSafe (check_decode e) s v (ground arith) (ground arith)

pub check_scratch-IsSafe :
    (w h depth : ℕ) (s : Session) → IsValid s → IsSafe (check_scratch w h depth s)
unfolding check_scratch
check_scratch-IsSafe w h depth s v =
    looks-IsSafe (check_scratch w h depth) s v (ground arith)
      (ground (arith, v.codec.scratch_sized))

check_exported-state : (buf : Buffer) (s : Session) → (check_exported buf s).1 ≡ s
unfolding check_exported
check_exported-state buf s = ground arith

check_exported-calm :
    (buf : Buffer) (s : Session)
    → contains buf.era_id s.eras ≡ true
    → (check_exported buf s).0 ≢ err crash
unfolding check_exported
check_exported-calm buf s known = ground arith

check_register-state : (name : ℕ) (s : Session) → (check_register name s).1 ≡ s
unfolding check_register
check_register-state name s = elim (Option-cases (lookup name s.buffers)) [
  | inl missing ↦ ground arith
  | inr (buf, here) ↦ ground (arith, check_exported-state buf s)
]

check_register-calm : (name : ℕ) (s : Session) → IsValid s → (check_register name s).0 ≢ err crash
unfolding check_register
check_register-calm name s v = elim (Option-cases (lookup name s.buffers)) [
  | inl missing ↦ ground arith
  | inr (buf, here) ↦ ground (
    arith,
    check_exported-state buf s,
    check_exported-calm buf s (v.queue.buffers_in_era name buf here).1,
  )
]

pub check_register-IsSafe : (name : ℕ) (s : Session) → IsValid s → IsSafe (check_register name s)
check_register-IsSafe name s v =
    looks-IsSafe (check_register name) s v (check_register-state name s)
      (check_register-calm name s v)
