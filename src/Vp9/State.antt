-- ===== src/Vp9/State.antt =====
-- The objects of experiments/vp9-state/model.py: Era, Buffer and Session.
use omarchy_m1_video.Prelude.{
  ℕ, ◌+◌, Bool, true, false, Option, none, some, List, [], ◌∷◌, or_default, ◌==◌, if◌then◌else◌,
  ◌&&◌, max,
}
use omarchy_m1_video.Dict.{Dict}
use omarchy_m1_video.Exec.{Exec, Result, ok, err}
use omarchy_m1_video.Vp9.Reject.{Error, fixture}
use omarchy_m1_video.Vp9.Layout.{
  Fourcc, fourcc_for, round_up, fill_comp, pixel_plane, era_sizeimage, align_w, align_h,
}

pub data ModelPath : Type 0 where
  stock proposed : ModelPath

unfoldable pub is_stock : ModelPath → Bool
is_stock stock = true
is_stock proposed = false

pub record Era : Type 0 where
  pub id : ℕ
  pub width : ℕ
  pub height : ℕ
  pub bit_depth : ℕ
  pub aligned_w : ℕ
  pub aligned_h : ℕ
  pub fourcc : Fourcc
  pub sizeimage : ℕ
  pub comp_size : ℕ
  pub comp_offsets : List ℕ
  pub start_offset : ℕ

-- Era(era_id, width, height, bit_depth)
unfoldable pub new_era : ℕ → ℕ → ℕ → ℕ → Era
new_era era_id width height bit_depth =
    let w = round_up width align_w in
    let h = round_up height align_h in
    record {
      id = era_id;
      width = width;
      height = height;
      bit_depth = bit_depth;
      aligned_w = w;
      aligned_h = h;
      fourcc = fourcc_for bit_depth;
      sizeimage = era_sizeimage w h bit_depth;
      comp_size = (fill_comp w h bit_depth).0;
      comp_offsets = (fill_comp w h bit_depth).1;
      start_offset = pixel_plane w h bit_depth;
    }

pub record Buffer : Type 0 where
  pub name : ℕ
  pub era_id : ℕ
  pub width : ℕ
  pub height : ℕ
  pub bit_depth : ℕ
  pub sizeimage : ℕ
  pub backing_bytes : ℕ
  pub index : Option ℕ
  pub generation : Option ℕ
  pub timestamp : Option ℕ
  pub decoded_ok : Bool
  pub exported : Bool
  pub queued_as_dst : Bool
  pub wrapper_alive : Bool
  pub content_id : ℕ

-- Buffer(name, era, backing_bytes)
unfoldable pub new_buffer : ℕ → Era → Option ℕ → Buffer
new_buffer name era backing = record {
  name = name;
  era_id = era.id;
  width = era.width;
  height = era.height;
  bit_depth = era.bit_depth;
  sizeimage = era.sizeimage;
  backing_bytes = or_default backing era.sizeimage;
  index = none;
  generation = none;
  timestamp = none;
  decoded_ok = false;
  exported = false;
  queued_as_dst = false;
  wrapper_alive = false;
  content_id = name;
}

pub record Registration : Type 0 where
  pub generation : ℕ
  pub timestamp : ℕ
  pub era_id : ℕ
  pub index : Option ℕ

pub data SegPolicy : Type 0 where
  absent present lost unknown : SegPolicy

pub record Session : Type 0 where
  pub path : ModelPath
  pub session_id : ℕ
  pub profile : ℕ
  pub bit_depth : ℕ
  pub failed : Bool
  pub destructive_done : Bool
  pub output_streaming : Bool
  pub capture_streaming : Bool
  pub capture_slots : ℕ
  pub capture_generation : ℕ
  pub current_era : Option Era
  pub coded_w : Option ℕ
  pub coded_h : Option ℕ
  pub eras : Dict Era
  pub buffers : Dict Buffer
  pub slot : Dict ℕ
  pub ts_index : List ((ℕ × ℕ) × ℕ)
  pub registrations : Dict Registration
  pub probabilities : Bool
  pub last_present : Bool
  pub scratch_present : Bool
  pub scratch_w : Option ℕ
  pub scratch_h : Option ℕ
  pub scratch_depth : Option ℕ
  pub seg_present : Bool
  pub seg_policy : SegPolicy
  pub next_reg_ts : ℕ
  pub events_applied : ℕ

abbrev pub Action : Type 0 → Type 0
Action A = Exec Session Error A

abbrev pub ts_scale : ℕ
ts_scale = 1000

abbrev pub reg_ts_base : ℕ
reg_ts_base = 1000000

-- Session(path, session_id, profile, bit_depth): profile 0 is 8-bit, profile 2 is 10-bit.
unfoldable pub new_session : ModelPath → ℕ → ℕ → ℕ → Result Error Session
new_session path session_id profile bit_depth =
    let fields : Session = record {
      path = path;
      session_id = session_id;
      profile = profile;
      bit_depth = bit_depth;
      failed = false;
      destructive_done = false;
      output_streaming = false;
      capture_streaming = false;
      capture_slots = 0;
      capture_generation = 0;
      current_era = none;
      coded_w = none;
      coded_h = none;
      eras = [];
      buffers = [];
      slot = [];
      ts_index = [];
      registrations = [];
      probabilities = false;
      last_present = false;
      scratch_present = false;
      scratch_w = none;
      scratch_h = none;
      scratch_depth = none;
      seg_present = false;
      seg_policy = absent;
      next_reg_ts = reg_ts_base;
      events_applied = 0;
    } in
    if profile == 0 && bit_depth == 8
    then ok fields
    else if profile == 2 && bit_depth == 10
    then ok fields
    else err fixture

-- `ts_index.get((generation, timestamp))`
unfoldable pub ts_lookup : ℕ → ℕ → List ((ℕ × ℕ) × ℕ) → Option ℕ
ts_lookup g t [] = none
ts_lookup g t (((g', t'), name) ∷ d) = if g' == g && t' == t then some name else ts_lookup g t d

-- `ts_index[(generation, timestamp)] = name`; the newest entry of a key is the one that is found
abbrev pub ts_put : ℕ → ℕ → ℕ → List ((ℕ × ℕ) × ℕ) → List ((ℕ × ℕ) × ℕ)
ts_put g t name d = ((g, t), name) ∷ d

-- `0 if not eras else max(eras) + 1`
unfoldable pub next_era_id : Dict Era → ℕ
next_era_id [] = 0
next_era_id ((k, _) ∷ d) = max (k + 1) (next_era_id d)
