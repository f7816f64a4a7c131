-- ===== src/Interlace/Classify.antt =====
-- `classify_data` of tests/h264-interlace-scan.py.
use omarchy_m1_video.Prelude.{
  ℕ, ◌+◌, Bool, true, false, ◌&&◌, ◌||◌, Option, none, some, List, [], ◌∷◌, ◌++◌, ◌==◌, ltb, leb,
  if◌then◌else◌, all, max, or_default,
}
use omarchy_m1_video.Dict.{Dict, lookup, put}
use omarchy_m1_video.Exec.{Result, ok, err, pure, or_raise, ◌>>=◌, ◌>>◌}
use omarchy_m1_video.Interlace.Reader.{Caught, caught, Read, Unit_, bit, bits, ue, nals}
use omarchy_m1_video.Interlace.Params.{Sps, Pps, parse_sps, parse_pps, parsing}

pub record Scan : Type 0 where
  pub sps_list : List Sps
  pub pps_list : List Pps
  pub sps_by_id : Dict Sps
  pub pps_by_id : Dict Pps
  -- The types of the units whose parse raised.
  pub errors : List ℕ
  pub slice_nals : ℕ
  pub idr_slices : ℕ
  pub parsed : ℕ
  pub field_slices : ℕ
  pub bottom_field_slices : ℕ
  pub parse_errors : ℕ

abbrev pub new_scan : Scan
new_scan = record {
  sps_list = [];
  pps_list = [];
  sps_by_id = [];
  pps_by_id = [];
  errors = [];
  slice_nals = 0;
  idr_slices = 0;
  parsed = 0;
  field_slices = 0;
  bottom_field_slices = 0;
  parse_errors = 0;
}

abbrev pub is_slice : ℕ → Bool
is_slice t = t == 1 || t == 5

-- sps_by_id[pps_by_id[pps_id]['sps_id']]
unfoldable pub active_sps : Scan → ℕ → Option Sps
active_sps s id = elim (lookup id s.pps_by_id) [
  | none ↦ none
  | some pps ↦ lookup pps.sps_id s.sps_by_id
]

-- `field_pic_flag` and `bottom_field_flag`
unfoldable pub field_flags : Sps → Read (ℕ × ℕ)
field_flags sps = do
  field ← (if sps.frame_mbs_only == 0 then bit else pure 0)
  bottom ← (if field == 0 then pure 0 else bit)
  pure (field, bottom)

-- A slice header up to `frame_num`, with the SPS that it refers to.
unfoldable pub slice_sps : Scan → Read Sps
slice_sps s = do
  ue
  ue
  id ← ue
  sps ← or_raise (active_sps s id) caught
  (if or_default sps.separate_colour_plane 0 == 0 then pure 0 else bits 2)
  bits (sps.log2_max_frame_num_minus4 + 4)
  pure sps

unfoldable pub read_slice : Scan → Read (ℕ × ℕ)
read_slice s = do sps ← slice_sps s; field_flags sps

-- The `except` clause, for a unit of this type.
unfoldable pub failed : ℕ → Scan → Scan
failed t s =
    let noted : Scan = record s { errors = s.errors ++ t ∷ [] } in
    if is_slice t
    then record noted { parse_errors = s.parse_errors + 1 }
    else if t == 7
    then record noted { sps_by_id = [] }
    else if t == 8
    then record noted { pps_by_id = [] }
    else noted

unfoldable pub add_sps : Result Caught Sps → Scan → Scan
add_sps (err e) s = failed 7 s
add_sps (ok sps) s = record s {
  sps_by_id = put sps.sps_id sps s.sps_by_id;
  sps_list = s.sps_list ++ sps ∷ [];
}

unfoldable pub add_pps : Result Caught Pps → Scan → Scan
add_pps (err e) s = failed 8 s
add_pps (ok pps) s = record s {
  pps_by_id = put pps.pps_id pps s.pps_by_id;
  pps_list = s.pps_list ++ pps ∷ [];
}

-- The counts of a slice, which is counted before it is parsed.
unfoldable pub count_slice : ℕ → Scan → Scan
count_slice t s = record s {
  slice_nals = s.slice_nals + 1;
  idr_slices = if t == 5 then s.idr_slices + 1 else s.idr_slices;
}

unfoldable pub add_slice : ℕ → Result Caught (ℕ × ℕ) → Scan → Scan
add_slice t (err e) s = failed t s
add_slice t (ok (field, bottom)) s = record s {
  field_slices = s.field_slices + field;
  bottom_field_slices = s.bottom_field_slices + bottom;
  parsed = s.parsed + 1;
}

-- The body of the loop.
unfoldable pub scan_unit : Unit_ → Scan → Scan
scan_unit n s =
    if leb 128 n.header
    then failed n.nal_type s
    else if n.nal_type == 7
    then add_sps (parsing parse_sps n.rbsp) s
    else if n.nal_type == 8
    then add_pps (parsing parse_pps n.rbsp) s
    else if is_slice n.nal_type
    then add_slice n.nal_type (parsing (read_slice s) n.rbsp) (count_slice n.nal_type s)
    else s

unfoldable pub scan_units : List Unit_ → Scan → Scan
scan_units [] s = s
scan_units (n ∷ ns) s = scan_units ns (scan_unit n s)

abbrev pub is_nil {ℓ} : {A : Type ℓ} → List A → Bool
is_nil [] = true
is_nil (_ ∷ _) = false

pub record Report : Type 0 where
  pub sps : Option Sps
  pub sps_all_agree : Option Bool
  pub complete : Bool
  pub max_slice_groups_minus1 : Option ℕ
  pub entropy_coding : Option ℕ
  pub scan : Scan

abbrev pub agrees : Sps → Sps → Bool
agrees first s =
    s.frame_mbs_only == first.frame_mbs_only
    && s.mb_adaptive_frame_field == first.mb_adaptive_frame_field

-- max(..., default=0)
unfoldable pub greatest : (Pps → ℕ) → List Pps → ℕ
greatest f [] = 0
greatest f (p ∷ ps) = max (f p) (greatest f ps)

-- What `classify_data` makes of the scan, by whether an SPS was parsed.
unfoldable pub report_of : Scan → List Sps → Report
report_of s [] = record {
  sps = none;
  sps_all_agree = none;
  complete = false;
  max_slice_groups_minus1 = none;
  entropy_coding = none;
  scan = s;
}
report_of s (first ∷ rest) = record {
  sps = some first;
  sps_all_agree = some (all (agrees first) (first ∷ rest));
  complete = is_nil s.errors && ltb 0 s.parsed;
  max_slice_groups_minus1 = some (greatest (λ p. p.num_slice_groups_minus1) s.pps_list);
  entropy_coding = some (greatest (λ p. p.entropy_coding_mode) s.pps_list);
  scan = s;
}

unfoldable pub classify_data : List ℕ → Report
classify_data data_ = let s = scan_units (nals data_) new_scan in report_of s s.sps_list
