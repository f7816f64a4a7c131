-- ===== src/Hevc/Trace/Emit.antt =====
-- The records that `normalize` of experiments/hevc-controls/normalize.py makes of the pictures.
use omarchy_m1_video.Prelude.{
  ℕ, ◌-◌, ◌/◌, ◌^◌, ◌==◌, ◌!=◌, ℤ, eq_ℤ, Bool, ◌&&◌, none, some, List, [], ◌∷◌, String, ltb, opt_eq,
  length, take,
}
use omarchy_m1_video.Exec.{Result, ok}
use omarchy_m1_video.Checked.{◌>>=◌, ◌>>◌, need, present, read_each}
use omarchy_m1_video.Dict.{Dict, lookup, put}
use omarchy_m1_video.Hevc.Record.{Slice, Request, DpbEntry, schema_name}
use omarchy_m1_video.Hevc.Trace.Event.{
  Event, DpbParams, integer, poc_integer, flags, mem_text, key_error,
}
use omarchy_m1_video.Hevc.Trace.State.{Picture, Trace}
use omarchy_m1_video.Hevc.Trace.Steps.{read_trace}
use omarchy_m1_video.Hevc.Trace.Flags.{sps_flags, decode_flags, int, is_nonempty, slice_flags}
use omarchy_m1_video.Hevc.Trace.Slices.{Current, total, emit_current, emit_slice}

-- An entry of `associations`.
pub record Association : Type 0 where
  pub pic : ℕ
  pub poc : ℤ
  pub system_frame_number : ℕ

-- `by_timestamp.get(ts)`, the picture itself
unfoldable pub picture_at : Trace → ℕ → Result String Picture
picture_at t ts = do
  n ← present (lookup ts t.by_timestamp) "unresolved/future/self reference"
  present (lookup n t.pictures) key_error

-- The body of the loop over the active DPB entries of a picture.
unfoldable pub emit_entry : Trace → Dict ℕ → Picture → ℕ → ℕ → DpbParams → Result String DpbEntry
unfolding picture_at flags
emit_entry t last_writer p target slot e = do
  integer e.timestamp (2 ^ 64 - 1)
  ref ← picture_at t e.timestamp
  need (ltb ref.pic p.pic) "unresolved/future/self reference"
  buf ← present ref.target key_error
  need (opt_eq (lookup buf last_writer) (some ref.pic) && buf != target)
      "reference aliases a reused/destination capture buffer"
  rpoc ← poc_integer e.pic_order_cnt_val
  need (eq_ℤ rpoc ref.decode.pic_order_cnt_val) "reference POC mismatch"
  ef ← flags e.flags "V4L2_HEVC_PPS_FLAG_" ("DEPENDENT_SLICE_SEGMENT_ENABLED" ∷ [])
  field ← integer e.field_pic 1
  ok (record { i = slot; buf = buf; poc = rpoc; lt = int (is_nonempty ef); field = field })

unfoldable pub emit_dpb : Trace → Dict ℕ → Picture → ℕ → Result String (List DpbEntry)
unfolding emit_entry read_each
emit_dpb t last_writer p target = do
  need (length p.decode.dpb == 16) "incomplete DPB array"
  n ← integer p.decode.num_active_dpb_entries 16
  read_each (emit_entry t last_writer p target) 0 (take n p.decode.dpb)

-- The flags of a picture that its record is made of.
pub record PictureFlags : Type 0 where
  pub irap : Bool
  pub idr : Bool
  pub ltr_sps : Bool
  pub of_slice : List String

unfoldable pub emit_flags : Picture → Result String PictureFlags
unfolding flags
emit_flags p = do
  sf ← flags p.sps.flags "V4L2_HEVC_SPS_FLAG_" sps_flags
  df ← flags p.decode.flags "V4L2_HEVC_DECODE_PARAM_FLAG_" decode_flags
  lf ← flags p.slice.flags "V4L2_HEVC_SLICE_PARAMS_FLAG_" slice_flags
  ok (record {
    irap = mem_text "IRAP_PIC" df;
    idr = mem_text "IDR_PIC" df;
    ltr_sps = mem_text "LONG_TERM_REF_PICS_PRESENT" sf;
    of_slice = lf;
  })

abbrev pub new_record :
    String → Picture → PictureFlags → ℤ → ℕ → List DpbEntry → Current → Slice → Request
new_record run p f poc target dpb current s = record {
  schema = schema_name;
  run = run;
  seq = p.pic;
  ctx = 1;
  va_context = "direct-v4l2";
  pic = p.pic;
  req = p.pic;
  first = 1;
  last = 1;
  slices_omitted = none;
  target = target;
  poc = poc;
  irap = f.irap;
  idr = f.idr;
  ltr_sps = f.ltr_sps;
  reorder = 0;
  total_curr = total current;
  dpb = dpb;
  slices = s ∷ [];
  st_before = current.st_before;
  st_after = current.st_after;
  lt_curr = current.lt_curr;
}

abbrev pub association : Picture → ℤ → Association
association p poc = record { pic = p.pic; poc = poc; system_frame_number = p.timestamp / 1000 }

-- The lists and the slice of a picture.
unfoldable pub emit_lists : Picture → List String → Result String (Current × Slice)
unfolding emit_current emit_slice
emit_lists p lf = do
  current ← emit_current p.decode.num_active_dpb_entries p.decode
  s ← emit_slice p.decode.num_active_dpb_entries lf p.slice
  ok (current, s)

-- The body of the loop over the pictures.
unfoldable pub emit_picture :
    String → Trace → Dict ℕ → Picture → Result String (Request × Association × Dict ℕ)
unfolding emit_flags emit_dpb emit_lists
emit_picture run t last_writer p = do
  f ← emit_flags p
  poc ← poc_integer p.decode.pic_order_cnt_val
  target ← present p.target key_error
  dpb ← emit_dpb t last_writer p target
  lists ← emit_lists p f.of_slice
  ok (
    new_record run p f poc target dpb lists.0 lists.1,
    association p poc,
    put target p.pic last_writer,
  )

unfoldable pub emit_pictures :
    String → Trace → Dict ℕ → Dict Picture → Result String (List (Request × Association))
unfolding emit_picture
emit_pictures run t last_writer [] = ok []
emit_pictures run t last_writer ((_, p) ∷ ps) = do
  (r, a, last_writer') ← emit_picture run t last_writer p
  rest ← emit_pictures run t last_writer' ps
  ok ((r, a) ∷ rest)

-- `run` is the first 16 digits of the trace's digest. The two lists of the result are given as one
-- list of pairs.
unfoldable pub normalize : List Event → ℕ → String → Result String (List (Request × Association))
unfolding read_trace emit_pictures
normalize events expected run = do t ← read_trace events expected; emit_pictures run t [] t.pictures
