-- ===== src/Vp9/Layout.antt =====
-- Sizes and offsets of a CAPTURE buffer: `round_up` to `fourcc_for` of experiments/vp9-state/model.py.
use omarchy_m1_video.Prelude.{ℕ, ◌+◌, ◌-◌, ◌*◌, ◌/◌, leb, ◌==◌, if◌then◌else◌, List, [], ◌∷◌}
use omarchy_m1_video.Bits.{bit_length, shl1}

abbrev pub align_w : ℕ
align_w = 64

abbrev pub align_h : ℕ
align_h = 16

abbrev pub min_dim : ℕ
min_dim = 64

-- the least multiple of `a` that is not below `n`
unfoldable pub round_up : ℕ → ℕ → ℕ
round_up n a = (n + a - 1) / a * a

unfoldable pub align : ℕ → ℕ → ℕ
unfolding round_up
align n a = round_up n a

unfoldable pub div_round_up : ℕ → ℕ → ℕ
div_round_up n d = (n + d - 1) / d

unfoldable pub roundup_pow_of_two : ℕ → ℕ
roundup_pow_of_two n = if leb n 1 then (if n == 0 then 0 else 1) else shl1 (bit_length (n - 1))

-- The bytes of the tiles, and of their metadata.
unfoldable pub calc_tile_meta : ℕ → ℕ → ℕ → ℕ → ℕ → ℕ × ℕ
calc_tile_meta w h bpb tile_dim meta_hdr_bytes =
    let tiles_w = div_round_up w tile_dim in
    let tiles_h = div_round_up h tile_dim in
    let tile_bytes = tile_dim * tile_dim * div_round_up bpb 8 in
    (
      align (tiles_w * tiles_h * tile_bytes) 16,
      align (roundup_pow_of_two tiles_w * roundup_pow_of_two tiles_h * meta_hdr_bytes) 16,
    )

-- The size of the compressed layout and its four offsets: luma metadata, luma, chroma metadata,
-- chroma.
unfoldable pub fill_comp : ℕ → ℕ → ℕ → ℕ × List ℕ
fill_comp width height bit_depth =
    let (y, y_meta) = calc_tile_meta width height bit_depth 32 32 in
    let (uv, uv_meta) = calc_tile_meta (width / 2) (height / 2) (bit_depth * 2) 16 8 in
    (y_meta + y + uv_meta + uv, y ∷ 0 ∷ (y + y_meta + uv) ∷ (y + y_meta) ∷ [])

unfoldable pub pixel_plane : ℕ → ℕ → ℕ → ℕ
pixel_plane width height bit_depth =
    let bpp = if bit_depth == 10 then 2 else 1 in width * height * bpp + width * height * bpp / 2

unfoldable pub era_sizeimage : ℕ → ℕ → ℕ → ℕ
era_sizeimage aligned_w aligned_h bit_depth =
    pixel_plane aligned_w aligned_h bit_depth + (fill_comp aligned_w aligned_h bit_depth).0

pub data Fourcc : Type 0 where
  p010 nv12 : Fourcc

unfoldable pub fourcc_for : ℕ → Fourcc
fourcc_for bit_depth = if bit_depth == 10 then p010 else nv12
