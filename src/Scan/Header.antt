-- ===== src/Scan/Header.antt =====
-- BitReader, `_color_config`, `_tile_geometry` and `classify_frame` of tests/vp9-sub64-scan.py.
use omarchy_m1_video.Prelude.{
  ℕ, zero, suc, ◌+◌, ◌*◌, ◌-◌, ◌/◌, ◌%◌, ◌^◌, Bool, not, ◌||◌, Option, none, some, List, ltb, leb,
  ◌==◌, ◌!=◌, if◌then◌else◌, get_elem?,
}
use omarchy_m1_video.Exec.{Exec, Result, pure, gets, or_raise, modify, raise_if, ◌>>=◌, ◌>>◌}

pub data Failure : Type 0 where
  truncated reserved_color rgb_profile bad_marker reserved_profile : Failure
  existing_frame not_key bad_sync : Failure

pub data Chroma : Type 0 where
  c420 c422 c440 c444 : Chroma

pub record Geometry : Type 0 where
  pub mi_cols : ℕ
  pub sb64_cols : ℕ
  pub tile_cols_log2_min : ℕ
  pub tile_cols_log2_max : ℕ

pub record FrameSize : Type 0 where
  pub bit_depth : ℕ
  pub chroma : Chroma
  pub color_space : ℕ
  pub coded_width : ℕ
  pub coded_height : ℕ
  pub render_width : ℕ
  pub render_height : ℕ
  pub geometry : Geometry

-- The report of a frame; a key that it leaves out is `none`.
pub record Info : Type 0 where
  pub profile : Option ℕ
  pub show_existing_frame : Option Bool
  pub key_frame : Option Bool
  pub show_frame : Option Bool
  pub size : Option FrameSize

pub record Scanner : Type 0 where
  pub data_ : List ℕ
  pub pos : ℕ
  pub info : Info

abbrev pub Action : Type 0 → Type 0
Action A = Exec Scanner Failure A

-- `(data[pos >> 3] >> (7 - (pos & 7))) & 1`, where the position is in the data
unfoldable pub bit_at : List ℕ → ℕ → Option ℕ
bit_at data_ pos = elim (get_elem? data_ (pos / 8)) [
  | none ↦ none
  | some byte ↦ some (byte / 2 ^ (7 - pos % 8) % 2)
]

-- The loop of BitReader.bits, with the value so far.
unfoldable pub bits_loop : ℕ → ℕ → Action ℕ
bits_loop zero v = pure v
bits_loop (suc n) v = do
  s ← gets (λ s. s)
  bit ← or_raise (bit_at s.data_ s.pos) truncated
  modify (λ s. record s { pos = s.pos + 1 })
  bits_loop n (2 * v + bit)

unfoldable pub bits : ℕ → Action ℕ
unfolding bits_loop
bits n = bits_loop n 0

abbrev pub has_subsampling : ℕ → Bool
has_subsampling profile = profile == 1 || profile == 3

-- `12 if b.bits(1) else 10` from profile 2 on
unfoldable pub color_depth : ℕ → Action ℕ
color_depth profile =
    if leb 2 profile then (do deep ← bits 1; pure (if deep == 0 then 10 else 12)) else pure 8

-- The subsampling of a colour space other than RGB, after its range bit.
unfoldable pub subsampling : ℕ → Action (ℕ × ℕ)
subsampling profile =
    if has_subsampling profile
    then (do
      ssx ← bits 1
      ssy ← bits 1
      reserved ← bits 1
      raise_if (reserved != 0) reserved_color
      pure (ssx, ssy))
    else pure (1, 1)

unfoldable pub rgb_subsampling : ℕ → Action (ℕ × ℕ)
rgb_subsampling profile = do
  raise_if (not (has_subsampling profile)) rgb_profile
  reserved ← bits 1
  raise_if (reserved != 0) reserved_color
  pure (0, 0)

abbrev pub cs_rgb : ℕ
cs_rgb = 7

-- The bit depth, the subsampling and the colour space.
unfoldable pub color_config : ℕ → Action (ℕ × (ℕ × ℕ) × ℕ)
color_config profile = do
  depth ← color_depth profile
  space ← bits 3
  ss ← if space != cs_rgb then (bits 1 >>= λ _. subsampling profile) else rgb_subsampling profile
  pure (depth, ss, space)

-- `while (64 << k) < sb64_cols: k += 1`, with the rounds left
unfoldable pub min_log2_from : ℕ → ℕ → ℕ → ℕ
min_log2_from zero k cols = k
min_log2_from (suc left) k cols =
    let next = min_log2_from left (suc k) cols in if ltb (64 * 2 ^ k) cols then next else k

-- `while (sb64_cols >> (k + 1)) >= 4: k += 1`, with the rounds left
unfoldable pub max_log2_from : ℕ → ℕ → ℕ → ℕ
max_log2_from zero k cols = k
max_log2_from (suc left) k cols =
    let next = max_log2_from left (suc k) cols in if leb 4 (cols / 2 ^ suc k) then next else k

-- Both loops end within as many rounds as there are superblock columns.
unfoldable pub tile_geometry : ℕ → Geometry
tile_geometry frame_width =
    let mi = (frame_width + 7) / 8 in
    let sb = (mi + 7) / 8 in
    record {
      mi_cols = mi;
      sb64_cols = sb;
      tile_cols_log2_min = min_log2_from sb 0 sb;
      tile_cols_log2_max = max_log2_from sb 0 sb;
    }

unfoldable pub chroma_of : ℕ → ℕ → Chroma
chroma_of ssx ssy =
    if ssx == 0 then (if ssy == 0 then c444 else c440) else (if ssy == 0 then c422 else c420)

abbrev pub sync_code : ℕ
sync_code = 4817730

-- The render size, which is the coded size unless the frame gives one.
unfoldable pub render_size : ℕ → ℕ → Action (ℕ × ℕ)
render_size w h = do
  own ← bits 1
  if own == 0 then pure (w, h) else (do rw' ← bits 16; rh ← bits 16; pure (rw' + 1, rh + 1))

-- What follows the sync code of a key frame.
unfoldable pub read_size : ℕ → Action Unit
unfolding tile_geometry
read_size profile = do
  (depth, (ssx, ssy), space) ← color_config profile
  w ← bits 16
  h ← bits 16
  render ← render_size (w + 1) (h + 1)
  modify (λ s. record s {
    info = record s.info {
      size = some (record {
        bit_depth = depth;
        chroma = chroma_of ssx ssy;
        color_space = space;
        coded_width = w + 1;
        coded_height = h + 1;
        render_width = render.0;
        render_height = render.1;
        geometry = tile_geometry (w + 1);
      });
    };
  })

-- The frame type and what follows it.
unfoldable pub read_frame : ℕ → Action Unit
read_frame profile = do
  kind ← bits 1
  modify (λ s. record s { info = record s.info { key_frame = some (kind == 0) } })
  shown ← bits 1
  modify (λ s. record s { info = record s.info { show_frame = some (shown != 0) } })
  bits 1
  raise_if (kind != 0) not_key
  sync ← bits 24
  raise_if (sync != sync_code) bad_sync
  read_size profile

unfoldable pub read_header : Action Unit
read_header = do
  marker ← bits 2
  raise_if (marker != 2) bad_marker
  low ← bits 1
  high ← bits 1
  let profile = 2 * high + low
  reserved ← (if profile == 3 then bits 1 else pure 0)
  raise_if (reserved != 0) reserved_profile
  modify (λ s. record s { info = record s.info { profile = some profile } })
  existing ← bits 1
  modify (λ s. record s { info = record s.info { show_existing_frame = some (existing != 0) } })
  raise_if (existing != 0) existing_frame
  read_frame profile

abbrev pub no_info : Info
no_info = record {
  profile = none;
  show_existing_frame = none;
  key_frame = none;
  show_frame = none;
  size = none;
}

-- The error, if there is one, and what was read before it.
unfoldable pub classify_frame : List ℕ → Result Failure Unit × Info
classify_frame data_ =
    let (r, s) = read_header (record { data_ = data_; pos = 0; info = no_info }) in (r, s.info)
