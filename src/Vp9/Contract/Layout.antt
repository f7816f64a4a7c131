-- ===== src/Vp9/Contract/Layout.antt =====
-- What the rounding functions and the compressed layout promise.
use native.Mathlib.Nat.{div-mul-le_self, lt-div-mul-add, mul-mod_left}
use omarchy_m1_video.Prelude.{
  ℕ, ◌+◌, ◌-◌, ◌*◌, ◌/◌, ◌%◌, ◌^◌, ◌≤◌, ◌<◌, ◌≡◌, arith, leb, inl, inr, Bool-cases, refl, [], ◌∷◌,
  All,
}
use omarchy_m1_video.Bits.{bit_length, lt-bit_length, bit_length-le}
use omarchy_m1_video.Vp9.Layout.{round_up, align, roundup_pow_of_two, calc_tile_meta, fill_comp}

-- For a positive alignment, `round_up` returns a multiple of it that is not below its argument, and
-- by less than one alignment above it.
pub round_up_lem :
    (n a : ℕ) → 0 < a → (round_up n a % a ≡ 0) × (n ≤ round_up n a) × (round_up n a < n + a)
unfolding round_up
round_up_lem n a p = (
  mul-mod_left ((n + a - 1) / a) a,
  omega (arith, lt-div-mul-add {a = n + a - 1} p),
  omega (arith, div-mul-le_self (n + a - 1) a),
)

-- For a positive argument, `roundup_pow_of_two` returns a power of two that is not below the
-- argument, and below its double.
pub roundup_pow_of_two_lem :
    (n : ℕ) → 0 < n → (k : ℕ) × (roundup_pow_of_two n ≡ 2 ^ k) × (n ≤ 2 ^ k) × (2 ^ k < 2 * n)
unfolding roundup_pow_of_two
roundup_pow_of_two_lem n p = elim (Bool-cases (leb n 1)) [
  | inl small ↦ (0, ground arith, ground arith, ground arith)
  | inr big ↦
      let above : 1 < n = ground arith in
      (
        bit_length (n - 1),
        ground arith,
        omega (arith, lt-bit_length (n - 1)),
        omega (arith, bit_length-le (n - 1) (omega arith)),
      )
]

align_16 : (n : ℕ) → align n 16 % 16 ≡ 0
unfolding align
align_16 n = (round_up_lem n 16 (omega arith)).0

calc_tile_meta_aligned :
    (w h bpb tile hdr : ℕ)
    → ((calc_tile_meta w h bpb tile hdr).0 % 16 ≡ 0)
      × ((calc_tile_meta w h bpb tile hdr).1 % 16 ≡ 0)
unfolding calc_tile_meta
calc_tile_meta_aligned w h bpb tile hdr = (align_16 _, align_16 _)

-- In the compressed layout luma, luma metadata, chroma and chroma metadata follow one another from
-- offset 0 without a gap and end at the size; the size and each offset are multiples of 16.
pub fill_comp_regions :
    (width height depth : ℕ)
    → let (y, y_meta) = calc_tile_meta width height depth 32 32 in
      let (uv, uv_meta) = calc_tile_meta (width / 2) (height / 2) (depth * 2) 16 8 in
      let (size, offsets) = fill_comp width height depth in
      (offsets ≡ y ∷ 0 ∷ (y + y_meta + uv) ∷ (y + y_meta) ∷ [])
      × (size ≡ y + y_meta + uv + uv_meta)
      × (size % 16 ≡ 0)
      × All (λ o. (o % 16 ≡ 0) × (o ≤ size)) offsets
unfolding fill_comp
fill_comp_regions width height depth =
    let luma = calc_tile_meta_aligned width height depth 32 32 in
    let chroma = calc_tile_meta_aligned (width / 2) (height / 2) (depth * 2) 16 8 in
    (
      refl,
      omega arith,
      omega (arith, luma.0, luma.1, chroma.0, chroma.1),
      omega (arith, luma.0, luma.1, chroma.0, chroma.1),
    )
