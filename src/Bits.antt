-- ===== src/Bits.antt =====
-- Python's `int.bit_length` and shifts of ints, shared by the layouts and the bit streams.
use native.Mathlib.Nat.{pow-suc}
use omarchy_m1_video.Prelude.{
  ℕ, zero, suc, max, ◌*◌, ◌/◌, ◌^◌, ◌≤◌, ◌<◌, ◌≡◌, arith, ◌==◌, if◌then◌else◌, inl, inr, Bool-cases,
  eq_of_==,
}

-- The number of halvings until nothing is left; the fuel `n` is never used up.
bit_length_loop : ℕ → ℕ → ℕ
bit_length_loop zero n = 0
bit_length_loop (suc f) n = let rest = bit_length_loop f (n / 2) in if n == 0 then 0 else suc rest

-- n.bit_length()
unfoldable pub bit_length : ℕ → ℕ
unfolding bit_length_loop
bit_length n = bit_length_loop n n

-- 1 << n
abbrev pub shl1 : ℕ → ℕ
shl1 n = 2 ^ n

pub pow2-suc : (n : ℕ) → 2 ^ suc n ≡ 2 * 2 ^ n
pow2-suc n = omega (arith, pow-suc 2 n)

pub pow2_pos : (n : ℕ) → 1 ≤ 2 ^ n
pow2_pos zero = omega arith
pow2_pos (suc n) = omega (arith, pow2-suc n, pow2_pos n)

lt-bit_length_loop : (f n : ℕ) → n ≤ f → n < 2 ^ bit_length_loop f n
unfolding bit_length_loop
lt-bit_length_loop zero n h = omega arith
lt-bit_length_loop (suc f) n h = elim (Bool-cases (n == 0)) [
  | inl z ↦ rw z (omega (arith, eq_of_== n 0 z))
  | inr nz ↦ rw nz (
      let ih : n / 2 < 2 ^ bit_length_loop f (n / 2) =
        lt-bit_length_loop f (n / 2) (ground arith) in
      omega (arith, pow2-suc (bit_length_loop f (n / 2))))
]

bit_length_loop-le : (f n : ℕ) → n ≤ f → 2 ^ bit_length_loop f n ≤ max 1 (2 * n)
unfolding bit_length_loop
bit_length_loop-le zero n h = omega arith
bit_length_loop-le (suc f) n h = elim (Bool-cases (n == 0)) [
  | inl z ↦ rw z (omega arith)
  | inr nz ↦ rw nz (
      let ih : 2 ^ bit_length_loop f (n / 2) ≤ max 1 (2 * (n / 2)) =
        bit_length_loop-le f (n / 2) (ground arith) in
      let nonzero : 0 < n = ground arith in omega (arith, pow2-suc (bit_length_loop f (n / 2))))
]

-- Every number fits in its bit length.
pub lt-bit_length : (n : ℕ) → n < 2 ^ bit_length n
unfolding bit_length
lt-bit_length n = lt-bit_length_loop n n (omega arith)

-- A positive number does not fit in one bit less.
pub bit_length-le : (n : ℕ) → 0 < n → 2 ^ bit_length n ≤ 2 * n
unfolding bit_length
bit_length-le n p = omega (arith, bit_length_loop-le n n (omega arith))
