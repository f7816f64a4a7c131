-- ===== src/Vp9/Contract/References.antt =====
-- What a decode that returns has established of its references.
use omarchy_m1_video.Prelude.{
  ℕ, Bool, ◌≤◌, ◌≡◌, ◌≢◌, Option, none, some, List, [], ◌∷◌, arith, inl, inr, Option-cases, true,
  false, All, or_default,
}
use omarchy_m1_video.Dict.{lookup}
use omarchy_m1_video.Exec.{ok, bind-ok, ◌>>◌}
use omarchy_m1_video.Vp9.Event.{Decode}
use omarchy_m1_video.Vp9.State.{Session, Buffer, Era, Registration, is_stock, proposed}
use omarchy_m1_video.Vp9.Ops.References.{
  resolve_proposed, check_registration, resolve_ref, resolve_refs,
}
use omarchy_m1_video.Vp9.Ops.Frames.{
  op_decode, check_decode, decode_refs, decode_scratch, queue_if_needed, finish_decode,
}
use omarchy_m1_video.Vp9.Invariant.References.{resolve_ref-state}

-- A registered reference is of this generation and off the destination queue; another is a picture
-- that was decoded into this generation and whose queue wrapper is alive.
abbrev pub IsUsable : Session → Buffer → Option Registration → Type 0
IsUsable s b (some r) = (b.queued_as_dst ≡ false) × (r.generation ≡ s.capture_generation)
IsUsable s b none =
    (b.wrapper_alive ≡ true) × (b.decoded_ok ≡ true) × (b.generation ≡ some s.capture_generation)

-- A reference that the proposed contract allows for a destination: another buffer, of the session's
-- depth, whose backing holds the image of the era that it was decoded in.
pub record IsLegal (s : Session) (dst ref : ℕ) (b : Buffer) (era : Era) : Type 0 where
  pub other : ref ≢ dst
  pub known : lookup ref s.buffers ≡ some b
  pub same_depth : b.bit_depth ≡ s.bit_depth
  pub era_known : lookup b.era_id s.eras ≡ some era
  pub backed : era.sizeimage ≤ b.backing_bytes
  pub usable : IsUsable s b (lookup ref s.registrations)

abbrev pub HasLegal : Session → ℕ → ℕ → Type 0
HasLegal s dst ref = (b : Buffer) × (era : Era) × IsLegal s dst ref b era

check_registration-ok :
    (o : Option Registration) (b : Buffer) (s : Session)
    → (check_registration o b s).0 ≡ ok tt
    → IsUsable s b o
unfolding check_registration
check_registration-ok none b s h = ground arith
check_registration-ok (some r) b s h = ground arith

resolve_proposed-ok :
    (dst ref : ℕ) (s : Session)
    → ref ≢ dst
    → (resolve_proposed ref s).0 ≡ ok tt
    → HasLegal s dst ref
unfolding resolve_proposed
resolve_proposed-ok dst ref s other h = elim (Option-cases (lookup ref s.buffers)) [
  | inl missing ↦ absurd (ground arith)
  | inr (b, here) ↦ elim (Option-cases (lookup b.era_id s.eras)) [
    | inl no_era ↦ absurd (ground arith)
    | inr (era, there) ↦ (
      b,
      era,
      record {
        other = other;
        known = here;
        same_depth = ground arith;
        era_known = there;
        backed = ground arith;
        usable = check_registration-ok (lookup ref s.registrations) b s (ground arith);
      },
    )
  ]
]

resolve_ref-ok :
    (dst : ℕ) (force : Bool) (ref : ℕ) (s : Session)
    → s.path ≡ proposed
    → (resolve_ref dst force ref s).0 ≡ ok tt
    → HasLegal s dst ref
unfolding resolve_ref is_stock
resolve_ref-ok dst force ref s on_proposed h =
    resolve_proposed-ok dst ref s (ground arith) (ground arith)

resolve_refs-ok :
    (dst : ℕ) (force : Bool) (refs : List ℕ) (s : Session)
    → s.path ≡ proposed
    → (resolve_refs dst force refs s).0 ≡ ok tt
    → All (HasLegal s dst) refs
unfolding resolve_refs
resolve_refs-ok dst force [] s on_proposed h = tt
resolve_refs-ok dst force (ref ∷ refs) s on_proposed h =
    let (u, first, rest) =
      bind-ok (λ _. resolve_refs dst force refs) (resolve_ref dst force ref) s tt h in
    (
      resolve_ref-ok dst force ref s on_proposed first,
      resolve_refs-ok dst force refs s on_proposed (rw resolve_ref-state at rest),
    )

decode_refs-ok :
    (e : Decode) (s : Session)
    → s.path ≡ proposed
    → or_default e.key false ≡ false
    → (decode_refs e s).0 ≡ ok tt
    → All (HasLegal s e.dst) (or_default e.refs [])
unfolding decode_refs
decode_refs-ok e s on_proposed inter h =
    resolve_refs-ok e.dst (or_default e.force_kernel_lookup false) (or_default e.refs []) s
      on_proposed (rw inter at h)

check_decode-state : (e : Decode) (s : Session) → (check_decode e s).1 ≡ s
unfolding check_decode
check_decode-state e s = ground arith

-- On the proposed path, if the decode of an inter picture returns, then every reference that it
-- names was legal for its destination when the decode began.
pub op_decode_references :
    (e : Decode) (s : Session)
    → s.path ≡ proposed
    → or_default e.key false ≡ false
    → (op_decode e s).0 ≡ ok tt
    → All (HasLegal s e.dst) (or_default e.refs [])
unfolding op_decode
op_decode_references e s on_proposed inter h =
    let (u, first, rest) =
      bind-ok (λ _. decode_refs e >> (decode_scratch e >> (queue_if_needed e >> finish_decode e)))
        (check_decode e) s tt h in
    let (v, second, _) =
      bind-ok (λ _. decode_scratch e >> (queue_if_needed e >> finish_decode e)) (decode_refs e)
        (check_decode e s).1 tt rest in
    decode_refs-ok e s on_proposed inter (rw (check_decode-state e s) at second)
