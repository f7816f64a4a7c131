-- ===== src/Hevc/Record.antt =====
-- The records of the schema `libva-v4l2request.hevc-refs/1`, as experiments/hevc-avd-map/model.py
-- reads them and `normalize` of experiments/hevc-controls/normalize.py writes them.
use omarchy_m1_video.Prelude.{ℕ, ℤ, Option, List, String, Bool, true, false}

-- A letter of a slice's `type`; `other_type` is any other text.
pub data SliceType : Type 0 where
  i_type p_type b_type other_type : SliceType

abbrev pub is_i : SliceType → Bool
is_i i_type = true
is_i _ = false

abbrev pub is_p : SliceType → Bool
is_p p_type = true
is_p _ = false

abbrev pub is_b : SliceType → Bool
is_b b_type = true
is_b _ = false

-- `col_l0` and `col` are absent unless `tmvp` is set.
pub record Slice : Type 0 where
  pub i : ℕ
  pub slice_type : SliceType
  pub nal : ℕ
  pub l0 : List ℕ
  pub l1 : List ℕ
  pub tmvp : ℕ
  pub col_l0 : Option ℕ
  pub col : Option ℕ

pub record DpbEntry : Type 0 where
  pub i : ℕ
  pub buf : ℕ
  pub poc : ℤ
  pub lt : ℕ
  pub field : ℕ

pub record Request : Type 0 where
  pub schema : String
  pub run : String
  pub seq : ℕ
  pub ctx : ℕ
  pub va_context : String
  pub pic : ℕ
  pub req : ℕ
  pub first : ℕ
  pub last : ℕ
  pub slices_omitted : Option ℕ
  pub target : ℕ
  pub poc : ℤ
  pub irap : Bool
  pub idr : Bool
  pub ltr_sps : Bool
  pub reorder : ℕ
  pub total_curr : ℕ
  pub dpb : List DpbEntry
  pub slices : List Slice
  pub st_before : List ℕ
  pub st_after : List ℕ
  pub lt_curr : List ℕ

abbrev pub schema_name : String
schema_name = "libva-v4l2request.hevc-refs/1"
