-- ===== src/Nal/Digits.antt =====
-- Fixed-width fields: what is written is read back.
use native.Mathlib.Nat.{add-mul-div_right, div-add-mod, mod-lt, div-mul-le_self}
use omarchy_m1_video.Prelude.{
  ℕ, zero, suc, ◌+◌, ◌*◌, ◌/◌, ◌%◌, ◌^◌, ◌≤◌, ◌<◌, ◌≡◌, refl, ap, sym, ◌∙◌, List, [], ◌∷◌, arith,
  All, length,
}
use omarchy_m1_video.Bits.{pow2-suc, pow2_pos}
use omarchy_m1_video.Nal.Reader.{digits, value_from}

pub length-digits : (n v : ℕ) → length (digits n v) ≡ n
unfolding digits
length-digits zero v = refl
length-digits (suc n) v = ap suc (length-digits n v)

-- The bits above a field do not show in it.
pub digits-add : (n c w : ℕ) → digits n (w + c * 2 ^ n) ≡ digits n w
unfolding digits
digits-add zero c w = refl
digits-add (suc n) c w =
    let e : w + c * 2 ^ suc n ≡ w + 2 * c * 2 ^ n = omega (arith, ap (λ t. c * t) (pow2-suc n)) in
    rw (e, add-mul-div_right w (2 * c) (pow2_pos n), digits-add n (2 * c) w)
      (ap (λ h. h ∷ digits n w) (omega arith))

-- A quotient by a positive number, of a number below its double.
div-lt_two : (v k : ℕ) → 1 ≤ k → v < 2 * k → v / k < 2
div-lt_two v k p h = grind (arith, div-mul-le_self v k)

-- The field of width `n` that holds a number below 2 ^ n is read as that number.
pub value_from-digits : (n acc v : ℕ) → v < 2 ^ n → value_from acc (digits n v) ≡ acc * 2 ^ n + v
unfolding digits value_from
value_from-digits zero acc v h = omega arith
value_from-digits (suc n) acc v h =
    let q : v / 2 ^ n < 2 = div-lt_two v (2 ^ n) (pow2_pos n) (omega (arith, pow2-suc n)) in
    let whole : v % 2 ^ n + v / 2 ^ n * 2 ^ n ≡ v = omega (arith, div-add-mod v (2 ^ n)) in
    let low : digits n v ≡ digits n (v % 2 ^ n) =
      ap (digits n) (sym whole) ∙ digits-add n (v / 2 ^ n) (v % 2 ^ n) in
    let bit : v / 2 ^ n % 2 ≡ v / 2 ^ n = omega arith in
    rw (low, value_from-digits n (2 * acc + v / 2 ^ n % 2) (v % 2 ^ n) (mod-lt v (pow2_pos n)), bit)
      (omega (arith, whole, ap (λ t. acc * t) (pow2-suc n)))

abbrev pub AreBits : List ℕ → Type 0
AreBits bits = All (λ b. b < 2) bits

value_from-split :
    (acc : ℕ) (bs : List ℕ) → value_from acc bs ≡ value_from 0 bs + acc * 2 ^ length bs
unfolding value_from
value_from-split acc [] = omega arith
value_from-split acc (b ∷ bs) = omega (
  arith,
  value_from-split (2 * acc + b) bs,
  value_from-split (2 * 0 + b) bs,
  ap (λ t. acc * t) (pow2-suc (length bs)),
)

value_from-lt : (bs : List ℕ) → AreBits bs → value_from 0 bs < 2 ^ length bs
unfolding value_from
value_from-lt [] h = omega arith
value_from-lt (b ∷ bs) h =
    let le : b * 2 ^ length bs ≤ 2 ^ length bs = grind arith in
    omega (arith, value_from-split (2 * 0 + b) bs, value_from-lt bs h.1, pow2-suc (length bs), le)

-- Bits that were read as a number are the field of that number.
pub digits-value_from :
    (acc : ℕ) (bs : List ℕ) → AreBits bs → digits (length bs) (value_from acc bs) ≡ bs
unfolding digits value_from
digits-value_from acc [] h = refl
digits-value_from acc (b ∷ bs) h =
    let k = length bs in
    let split : value_from (2 * acc + b) bs ≡ value_from 0 bs + (2 * acc + b) * 2 ^ k =
      value_from-split (2 * acc + b) bs in
    let top : value_from (2 * acc + b) bs / 2 ^ k ≡ value_from 0 bs / 2 ^ k + (2 * acc + b) =
      ap (λ t. t / 2 ^ k) split ∙ add-mul-div_right (value_from 0 bs) (2 * acc + b) (pow2_pos k) in
    let small : value_from 0 bs / 2 ^ k ≡ 0 =
      grind (arith, value_from-lt bs h.1, div-mul-le_self (value_from 0 bs) (2 ^ k)) in
    rw (digits-value_from (2 * acc + b) bs h.1) (ap (λ t. t ∷ bs) (omega (arith, top, small, h.0)))
