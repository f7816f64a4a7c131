-- ===== src/Nal/ReadBack.antt =====
-- Fields and codes that are written at a position are read back there.
use omarchy_m1_video.Prelude.{
  ℕ, zero, suc, ◌+◌, ◌-◌, ◌*◌, ◌/◌, ◌^◌, ◌<◌, ◌≤◌, ◌≡◌, ◌⊎◌, inl, inr, subst, refl, ap, ◌∙◌, sym,
  false, List, [], ◌∷◌, ◌++◌, arith, length, replicate, length-append, length-replicate,
  append_assoc, Bool-cases, take, drop, ltb,
}
use native.Mathlib.Nat.{div-eq_of_lt-le, pow-le-pow_right}
use omarchy_m1_video.Bits.{bit_length, lt-bit_length, bit_length-le, pow2-suc}
use omarchy_m1_video.Exec.{Result, ok}
use omarchy_m1_video.Nal.Reader.{Error, Bits, digits, value_from, u, count_zeros, ue, ue_bits}
use omarchy_m1_video.Nal.Digits.{length-digits, value_from-digits, digits-add}

pub drop-append : (pre ys : List ℕ) → drop (length pre) (pre ++ ys) ≡ ys
drop-append [] ys = refl
drop-append (x ∷ pre) ys = drop-append pre ys

pub take-append : (xs ys : List ℕ) → take (length xs) (xs ++ ys) ≡ xs
take-append [] ys = refl
take-append (x ∷ xs) ys = ap (λ r. x ∷ r) (take-append xs ys)

abbrev pub state : List ℕ → ℕ → Bits
state bits pos = record { bits = bits; pos = pos }

-- A field that stands at the position is read, and the position moves past it.
pub u_reads :
    (pre xs rest : List ℕ)
    → u (length xs) (state (pre ++ (xs ++ rest)) (length pre))
      ≡ (ok (value_from 0 xs), state (pre ++ (xs ++ rest)) (length pre + length xs))
unfolding u
u_reads pre xs rest =
    let enough : ltb (length (pre ++ (xs ++ rest))) (length pre + length xs) ≡ false =
      ground (arith, length-append pre (xs ++ rest), length-append xs rest) in
    rw (u, enough, drop-append pre (xs ++ rest), take-append xs rest) refl

u_reads_bit :
    (pre rest : List ℕ) (b : ℕ)
    → u 1 (state (pre ++ (b ∷ rest)) (length pre))
      ≡ (ok b, state (pre ++ (b ∷ rest)) (length pre + 1))
unfolding value_from
u_reads_bit pre rest b =
    u_reads pre (b ∷ []) rest
    ∙ ap (λ v. (ok v, state (pre ++ (b ∷ rest)) (length pre + 1))) (omega arith)

cong_read :
    {v w p q : ℕ} (bits : List ℕ)
    → v ≡ w
    → p ≡ q
    → ◌≡◌ {A = Result Error ℕ × Bits} (ok v, state bits p) (ok w, state bits q)
cong_read bits e f = rw (e, f) refl

-- A round of the count, at a zero and at a one.
count_zeros-zero :
    (left count : ℕ) (s t : Bits)
    → u 1 s ≡ (ok 0, t)
    → ltb 31 (count + 1) ≡ false
    → count_zeros (suc left) count s ≡ count_zeros left (count + 1) t
unfolding count_zeros
count_zeros-zero left count s t read few = rw (read, few) refl

count_zeros-one :
    (left count : ℕ) (s t : Bits)
    → u 1 s ≡ (ok 1, t)
    → count_zeros (suc left) count s ≡ (ok count, t)
unfolding count_zeros
count_zeros-one left count s t read = rw read refl

-- The zeros before a code's first one are counted.
count_zeros_reads :
    (k left count : ℕ) (pre rest : List ℕ)
    → k < left
    → count + k ≤ 31
    → count_zeros left count (state (pre ++ (replicate k 0 ++ 1 ∷ rest)) (length pre))
      ≡ (ok (count + k), state (pre ++ (replicate k 0 ++ 1 ∷ rest)) (length pre + k + 1))
count_zeros_reads zero zero count pre rest p h = absurd (omega arith)
count_zeros_reads (suc k) zero count pre rest p h = absurd (omega arith)
count_zeros_reads zero (suc left) count pre rest p h =
    count_zeros-one left count (state (pre ++ (1 ∷ rest)) (length pre))
      (state (pre ++ (1 ∷ rest)) (length pre + 1)) (u_reads_bit pre rest 1)
    ∙ cong_read (pre ++ (1 ∷ rest)) (omega arith) (omega arith)
count_zeros_reads (suc k) (suc left) count pre rest p h =
    let tail = replicate k 0 ++ 1 ∷ rest in
    let moved : pre ++ (0 ∷ tail) ≡ (pre ++ (0 ∷ [])) ++ tail =
      sym (append_assoc pre (0 ∷ []) tail) in
    let at : length pre + 1 ≡ length (pre ++ (0 ∷ [])) =
      omega (arith, length-append pre (0 ∷ [])) in
    count_zeros-zero left count (state (pre ++ (0 ∷ tail)) (length pre))
      (state (pre ++ (0 ∷ tail)) (length pre + 1)) (u_reads_bit pre tail 0) (ground arith)
    ∙ ap (λ b. count_zeros left (count + 1) (state b (length pre + 1))) moved
    ∙ ap (λ p. count_zeros left (count + 1) (state ((pre ++ (0 ∷ [])) ++ tail) p)) at
    ∙ count_zeros_reads k left (count + 1) (pre ++ (0 ∷ [])) rest (omega arith) (omega arith)
    ∙ ap (λ b. (ok (count + 1 + k), state b (length (pre ++ (0 ∷ [])) + k + 1))) (sym moved)
    ∙ cong_read (pre ++ (0 ∷ tail)) (omega arith) (omega (arith, at))

-- A positive number is a one, followed by the number less that power of two.
top_bit : (n k : ℕ) → 2 ^ k ≤ n → n < 2 * 2 ^ k → digits (suc k) n ≡ 1 ∷ digits k (n - 2 ^ k)
unfolding digits
top_bit n k low high =
    let one : n / 2 ^ k ≡ 1 = div-eq_of_lt-le (2 ^ k) (omega arith) (omega arith) in
    let rest : digits k n ≡ digits k (n - 2 ^ k) =
      ap (digits k) (omega arith) ∙ digits-add k 1 (n - 2 ^ k) in
    rw (one, rest) refl

zero_or_pos : (n : ℕ) → (n ≡ 0) ⊎ (0 < n)
zero_or_pos zero = inl refl
zero_or_pos (suc n) = inr (omega arith)

bit_length-suc : (v : ℕ) → bit_length (v + 1) ≡ suc (bit_length (v + 1) - 1)
bit_length-suc v = elim (zero_or_pos (bit_length (v + 1))) [
  | inl e ↦ absurd (omega (arith, subst (λ w. v + 1 < 2 ^ w) e (lt-bit_length (v + 1))))
  | inr p ↦ omega (arith, p)
]

-- An Exp-Golomb code: its zeros, its one, and its field.
ue_bits-parts :
    (v : ℕ)
    → ue_bits v
      ≡ replicate (bit_length (v + 1) - 1) 0
        ++ 1 ∷ digits (bit_length (v + 1) - 1) (v + 1 - 2 ^ (bit_length (v + 1) - 1))
unfolding ue_bits
ue_bits-parts v =
    let k = bit_length (v + 1) - 1 in
    let width : bit_length (v + 1) ≡ suc k = bit_length-suc v in
    let high : v + 1 < 2 ^ suc k = subst (λ w. v + 1 < 2 ^ w) width (lt-bit_length (v + 1)) in
    let low : 2 ^ suc k ≤ 2 * (v + 1) =
      subst (λ w. 2 ^ w ≤ 2 * (v + 1)) width (bit_length-le (v + 1) (omega arith)) in
    ap (λ d. replicate k 0 ++ d)
      (ap (λ w. digits w (v + 1)) width
        ∙ top_bit (v + 1) k (omega (arith, low, pow2-suc k)) (omega (arith, high, pow2-suc k)))

ue_steps :
    (s t r : Bits) (k w : ℕ)
    → count_zeros 32 0 s ≡ (ok k, t)
    → u k t ≡ (ok w, r)
    → ue s ≡ (ok (2 ^ k - 1 + w), r)
unfolding ue
ue_steps s t r k w counted read = rw (counted, read) refl

-- A code's zeros and one, and then its field, are read.
ue_reads_parts :
    (pre rest : List ℕ) (k w : ℕ)
    → k < 32
    → w < 2 ^ k
    → ue (state (pre ++ ((replicate k 0 ++ 1 ∷ digits k w) ++ rest)) (length pre)) ≡ (
      ok (2 ^ k - 1 + w),
      state (pre ++ ((replicate k 0 ++ 1 ∷ digits k w) ++ rest)) (length pre + (2 * k + 1)),
    )
ue_reads_parts pre rest k w few fits =
    let field : List ℕ = digits k w in
    let front : List ℕ = replicate k 0 ++ 1 ∷ [] in
    let inner : (replicate k 0 ++ 1 ∷ field) ++ rest ≡ replicate k 0 ++ 1 ∷ (field ++ rest) =
      append_assoc (replicate k 0) (1 ∷ field) rest in
    let outer : pre ++ (replicate k 0 ++ 1 ∷ (field ++ rest)) ≡ (pre ++ front) ++ (field ++ rest) =
      ap (λ r. pre ++ r) (sym (append_assoc (replicate k 0) (1 ∷ []) (field ++ rest)))
      ∙ sym (append_assoc pre front (field ++ rest)) in
    let at : length pre + k + 1 ≡ length (pre ++ front) = omega (
      arith,
      length-append pre front,
      length-append {A = ℕ} (replicate k 0) (1 ∷ []),
      length-replicate {A = ℕ} k 0,
    ) in
    let counted : count_zeros 32 0
          (state (pre ++ (replicate k 0 ++ 1 ∷ (field ++ rest))) (length pre))
        ≡ (ok (0 + k), state (pre ++ (replicate k 0 ++ 1 ∷ (field ++ rest))) (length pre + k + 1)) =
      count_zeros_reads k 32 0 pre (field ++ rest) few (omega arith) in
    let read : u k (state ((pre ++ front) ++ (field ++ rest)) (length (pre ++ front)))
        ≡ (ok w, state ((pre ++ front) ++ (field ++ rest)) (length (pre ++ front) + k)) =
      subst
        (λ n.
          u n (state ((pre ++ front) ++ (field ++ rest)) (length (pre ++ front)))
          ≡ (ok w, state ((pre ++ front) ++ (field ++ rest)) (length (pre ++ front) + n)))
        (length-digits k w)
        (u_reads (pre ++ front) field rest
          ∙ cong_read ((pre ++ front) ++ (field ++ rest))
              (omega (arith, value_from-digits k 0 w fits)) refl) in
    rw inner (
      ue_steps (state (pre ++ (replicate k 0 ++ 1 ∷ (field ++ rest))) (length pre))
        (state ((pre ++ front) ++ (field ++ rest)) (length (pre ++ front)))
        (state ((pre ++ front) ++ (field ++ rest)) (length (pre ++ front) + k)) k w
        (counted
          ∙ cong_read (pre ++ (replicate k 0 ++ 1 ∷ (field ++ rest))) (omega arith) at
          ∙ ap (λ b. (ok k, state b (length (pre ++ front)))) outer)
        read
      ∙ ap (λ b. (ok (2 ^ k - 1 + w), state b (length (pre ++ front) + k))) (sym outer)
      ∙ cong_read (pre ++ (replicate k 0 ++ 1 ∷ (field ++ rest))) refl (omega (arith, at)))

below_32 : (k : ℕ) → 2 ^ k < 2 ^ 32 → k < 32
below_32 k h = elim (Bool-cases (ltb k 32)) [
  | inl few ↦ ground arith
  | inr many ↦
      let le : 2 ^ 32 ≤ 2 ^ k = pow-le-pow_right (omega arith) {i = 32} (ground arith) in
      absurd (omega (arith, le, h))
]

-- A code of a value below 2 ^ 32 - 1 that stands at the position is read as that value.
pub ue_reads :
    (pre rest : List ℕ) (v : ℕ)
    → v + 1 < 2 ^ 32
    → ue (state (pre ++ (ue_bits v ++ rest)) (length pre))
      ≡ (ok v, state (pre ++ (ue_bits v ++ rest)) (length pre + length (ue_bits v)))
ue_reads pre rest v h =
    let k = bit_length (v + 1) - 1 in
    let high : v + 1 < 2 ^ suc k =
      subst (λ w. v + 1 < 2 ^ w) (bit_length-suc v) (lt-bit_length (v + 1)) in
    let low : 2 ^ suc k ≤ 2 * (v + 1) =
      subst (λ w. 2 ^ w ≤ 2 * (v + 1)) (bit_length-suc v) (bit_length-le (v + 1) (omega arith)) in
    let w = v + 1 - 2 ^ k in
    let few : k < 32 = below_32 k (omega (arith, low, pow2-suc k)) in
    let code : ue_bits v ≡ replicate k 0 ++ 1 ∷ digits k w = ue_bits-parts v in
    let size : length (replicate k 0 ++ 1 ∷ digits k w) ≡ 2 * k + 1 = omega (
      arith,
      length-append {A = ℕ} (replicate k 0) (1 ∷ digits k w),
      length-replicate {A = ℕ} k 0,
      length-digits k w,
    ) in
    rw code (
      ue_reads_parts pre rest k w few (omega (arith, high, low, pow2-suc k))
      ∙ cong_read (pre ++ ((replicate k 0 ++ 1 ∷ digits k w) ++ rest))
          (omega (arith, low, pow2-suc k)) (omega (arith, size)))
