-- ===== src/Scan/Contract/Geometry.antt =====
-- The tile columns of a frame.
use omarchy_m1_video.Prelude.{
  ℕ, zero, suc, ◌+◌, ◌*◌, ◌-◌, ◌/◌, ◌^◌, ◌≤◌, ◌<◌, ◌≡◌, ◌⊎◌, inl, inr, refl, arith, ltb, leb,
  Bool-cases,
}
use native.Mathlib.Nat.{div-eq_of_lt}
use omarchy_m1_video.Bits.{pow2-suc}
use omarchy_m1_video.Scan.Header.{min_log2_from, max_log2_from, tile_geometry}

lt-pow2 : (n : ℕ) → n < 2 ^ n
lt-pow2 zero = omega arith
lt-pow2 (suc n) = omega (arith, lt-pow2 n, pow2-suc n)

-- The rounds suffice: the loop stops at an exponent that fits.
min_log2_from-fits : (left k cols : ℕ) → cols ≤ left + k → cols ≤ 64 * 2 ^ min_log2_from left k cols
unfolding min_log2_from
min_log2_from-fits zero k cols h = omega (arith, lt-pow2 k)
min_log2_from-fits (suc left) k cols h =
    ground (arith, min_log2_from-fits left (suc k) cols (omega arith))

-- An exponent past the first is the least that fits.
min_log2_from-least :
    (left k cols : ℕ)
    → (min_log2_from left k cols ≡ k) ⊎ (64 * 2 ^ (min_log2_from left k cols - 1) < cols)
unfolding min_log2_from
min_log2_from-least zero k cols = inl refl
min_log2_from-least (suc left) k cols = elim (Bool-cases (ltb (64 * 2 ^ k) cols)) [
  | inr fits ↦ inl (ground arith)
  | inl more ↦ inr (elim (min_log2_from-least left (suc k) cols) [
    | inl e ↦ ground (arith, e)
    | inr below ↦ ground arith
  ])
]

max_log2_from-small :
    (left k cols : ℕ) → cols ≤ left + k → cols / 2 ^ suc (max_log2_from left k cols) < 4
unfolding max_log2_from
max_log2_from-small zero k cols h =
    let wide : cols < 2 ^ suc k = omega (arith, lt-pow2 k, pow2-suc k) in
    ground (arith, div-eq_of_lt wide)
max_log2_from-small (suc left) k cols h =
    ground (arith, max_log2_from-small left (suc k) cols (omega arith))

max_log2_from-large :
    (left k cols : ℕ) → (max_log2_from left k cols ≡ k) ⊎ (4 ≤ cols / 2 ^ max_log2_from left k cols)
unfolding max_log2_from
max_log2_from-large zero k cols = inl refl
max_log2_from-large (suc left) k cols = elim (Bool-cases (leb 4 (cols / 2 ^ suc k))) [
  | inr small ↦ inl (ground arith)
  | inl large ↦ inr (elim (max_log2_from-large left (suc k) cols) [
    | inl e ↦ ground (arith, e)
    | inr more ↦ ground arith
  ])
]

-- The range of the tile columns' logarithm: its start is the least exponent whose tiles of 64
-- superblocks cover the columns, and its end the greatest that leaves each tile four columns, or
-- zero; so a frame has one tile column, whatever the encoder wants, below eight superblock columns.
pub tile_geometry_range :
    (width : ℕ)
    → let g = tile_geometry width in
      (g.sb64_cols ≤ 64 * 2 ^ g.tile_cols_log2_min)
      × ((g.tile_cols_log2_min ≡ 0) ⊎ (64 * 2 ^ (g.tile_cols_log2_min - 1) < g.sb64_cols))
      × (g.sb64_cols / 2 ^ suc g.tile_cols_log2_max < 4)
      × ((g.tile_cols_log2_max ≡ 0) ⊎ (4 ≤ g.sb64_cols / 2 ^ g.tile_cols_log2_max))
unfolding tile_geometry
tile_geometry_range width =
    let cols = ((width + 7) / 8 + 7) / 8 in
    (
      min_log2_from-fits cols 0 cols (omega arith),
      min_log2_from-least cols 0 cols,
      max_log2_from-small cols 0 cols (omega arith),
      max_log2_from-large cols 0 cols,
    )

-- A frame that is at most 64 wide has one superblock column and can only have one tile column.
pub tile_geometry_narrow :
    (width : ℕ)
    → 0 < width
    → width ≤ 64
    → tile_geometry width ≡ record {
      mi_cols = (width + 7) / 8;
      sb64_cols = 1;
      tile_cols_log2_min = 0;
      tile_cols_log2_max = 0;
    }
unfolding tile_geometry min_log2_from max_log2_from
tile_geometry_narrow width p h =
    let one : ((width + 7) / 8 + 7) / 8 ≡ 1 = omega arith in rw one refl
