-- ===== src/Nal/Edit.antt =====
-- Reading and editing the payload of a unit, as sequences of calls on its bits.
use omarchy_m1_video.Prelude.{
  ℕ, zero, suc, ◌/◌, ◌^◌, ◌<◌, ◌≤◌, ◌≡◌, inl, inr, refl, subst, List, [], ◌∷◌, ◌++◌, arith, length,
  take, drop, ◌==◌, Bool-cases, if◌then◌else◌,
}
use native.Mathlib.Nat.{mod-lt}
use omarchy_m1_video.Exec.{ok, Result-cases}
use omarchy_m1_video.Nal.Stream.{Bytes, escape, unescape}
use omarchy_m1_video.Nal.Escape.{unescape-escape}
use omarchy_m1_video.Nal.Reader.{
  Bits, Action, digits, unpack, strip_zeros, pop, new_bits, to_rbsp, is_nil,
}
use omarchy_m1_video.Nal.Digits.{AreBits}
use omarchy_m1_video.Nal.Payload.{new_bits-to_rbsp, append-AreBits}
use omarchy_m1_video.Nal.ReadBack.{state}
use omarchy_m1_video.Nal.Sets.{payload, rebuild, reading, editing, editing_type, nal_type}

pub digits-AreBits : (n v : ℕ) → AreBits (digits n v)
unfolding digits
digits-AreBits zero v = tt
digits-AreBits (suc n) v = (mod-lt (v / 2 ^ n) (omega arith), digits-AreBits n v)

unpack-AreBits : (bs : List ℕ) → AreBits (unpack bs)
unfolding unpack
unpack-AreBits [] = tt
unpack-AreBits (b ∷ bs) =
    append-AreBits (digits 8 b) (unpack bs) (digits-AreBits 8 b) (unpack-AreBits bs)

strip_zeros-AreBits : (bs : List ℕ) → AreBits bs → AreBits (strip_zeros bs)
unfolding strip_zeros
strip_zeros-AreBits [] h = tt
strip_zeros-AreBits (b ∷ bs) h = add b (strip_zeros bs) h.0 (strip_zeros-AreBits bs h.1)
  where
    add :
        (x : ℕ) (rest : List ℕ)
        → x < 2
        → AreBits rest
        → AreBits (elim rest [ [] ↦ (if x == 0 then [] else x ∷ []) | y ∷ ys ↦ x ∷ y ∷ ys ])
    add x [] p q = elim (Bool-cases (x == 0)) [ inl e ↦ rw e tt | inr e ↦ rw e (p, tt) ]
    add x (y ∷ ys) p q = (p, q)

pop-AreBits : (bs : List ℕ) → AreBits bs → AreBits (pop bs)
unfolding pop
pop-AreBits [] h = tt
pop-AreBits (b ∷ []) h = tt
pop-AreBits (b ∷ c ∷ bs) h = (h.0, pop-AreBits (c ∷ bs) h.1)

pub drop-AreBits : (n : ℕ) (bs : List ℕ) → AreBits bs → AreBits (drop n bs)
drop-AreBits zero bs h = h
drop-AreBits (suc n) [] h = tt
drop-AreBits (suc n) (b ∷ bs) h = drop-AreBits n bs h.1

-- A payload that is read is a list of bits, from its start.
pub new_bits-AreBits : (rbsp : List ℕ) (b : Bits) → new_bits rbsp ≡ ok b → AreBits b.bits
unfolding new_bits
new_bits-AreBits rbsp b h = elim (Bool-cases (is_nil (strip_zeros (unpack rbsp)))) [
  | inl none_left ↦ absurd (ground arith)
  | inr some_left ↦
      let is : state (pop (strip_zeros (unpack rbsp))) 0 ≡ b = ground arith in
      subst (λ c. AreBits c.bits) is
        (pop-AreBits (strip_zeros (unpack rbsp))
          (strip_zeros-AreBits (unpack rbsp) (unpack-AreBits rbsp)))
]

pub new_bits-pos : (rbsp : List ℕ) (b : Bits) → new_bits rbsp ≡ ok b → b.pos ≡ 0
unfolding new_bits
new_bits-pos rbsp b h = ground arith

-- A unit with a payload has its header of two bytes.
payload-header : (nal : Bytes) (b : Bits) → payload nal ≡ ok b → 2 ≤ length nal
unfolding payload new_bits unescape unpack strip_zeros
payload-header [] b h = absurd (ground arith)
payload-header (x ∷ []) b h = absurd (ground arith)
payload-header (x ∷ y ∷ nal) b h = omega arith

drop-header : (nal : Bytes) (rest : Bytes) → 2 ≤ length nal → drop 2 (take 2 nal ++ rest) ≡ rest
drop-header [] rest h = absurd (omega arith)
drop-header (x ∷ []) rest h = absurd (omega arith)
drop-header (x ∷ y ∷ nal) rest h = refl

payload-rebuild :
    (nal : Bytes) (bits : List ℕ)
    → 2 ≤ length nal
    → AreBits bits
    → payload (rebuild nal bits) ≡ ok (state bits 0)
unfolding payload rebuild
payload-rebuild nal bits h k =
    rw (drop-header nal (escape (to_rbsp bits)) h, unescape-escape (to_rbsp bits))
      (new_bits-to_rbsp bits k)

-- What an edit that returns has read, and what its unit holds.
pub editing-payload :
    (t : ℕ) (m : Action Unit) (nal out : Bytes)
    → editing_type t m nal ≡ ok out
    → (b : Bits) × (payload nal ≡ ok b)
      × ((m b).0 ≡ ok tt)
      × (AreBits (m b).1.bits → payload out ≡ ok (state (m b).1.bits 0))
unfolding editing_type editing nal_type
editing-payload t m nal out h = elim (Result-cases (payload nal)) [
  | inr (e, p) ↦ absurd (ground arith)
  | inl (b, p) ↦ elim (Result-cases (m b).0) [
    | inr (e, q) ↦ absurd (ground arith)
    | inl (_, q) ↦
        let is : rebuild nal (m b).1.bits ≡ out = ground arith in
        (
          b,
          p,
          ground arith,
          λ k.
              subst (λ o. payload o ≡ ok (state (m b).1.bits 0)) is
                (payload-rebuild nal (m b).1.bits (payload-header nal b p) k),
        )
  ]
]

pub reading-payload :
    {A : Type 0} (m : Action A) (nal : Bytes) (b : Bits)
    → payload nal ≡ ok b
    → reading m nal ≡ (m b).0
unfolding reading
reading-payload m nal b p = rw (reading, p) refl
