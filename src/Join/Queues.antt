-- ===== src/Join/Queues.antt =====
-- `parse_va_queue`, `_va_projection`, `parse_gst_queue` and `parse_associations` of
-- experiments/hevc-reference-content/same-run/join.py, on the rows that the JSON and the pattern give.
use omarchy_m1_video.Prelude.{text_eq}
use omarchy_m1_video.Prelude.{
  ℕ, suc, ◌==◌, ℤ, pos, negsuc, eq_ℤ, Bool, true, false, not, ◌&&◌, Option, none, some, List, [],
  ◌∷◌, String, map, is_some, or_default, opt_eq, any, ltb, leb, length, ◌^◌,
}
use omarchy_m1_video.Exec.{Result, ok}
use omarchy_m1_video.Checked.{◌>>=◌, ◌>>◌, need, read_each}
use omarchy_m1_video.Hevc.Record.{
  Request, DpbEntry, Slice, SliceType, i_type, p_type, b_type, other_type, schema_name,
}
use omarchy_m1_video.Hevc.Trace.Associate.{no_repeats}
use omarchy_m1_video.Join.Text.{uint, uint_nonzero, hex_nonzero, decimal}

pub record Observer : Type 0 where
  pub run : String
  pub context : ℕ
  pub allocation : ℕ
  pub surface : ℕ
  pub writer : ℕ

-- A row of the VA queue trace: a request of the reference schema with an observer.
pub record VaRow : Type 0 where
  pub request : Request
  pub observer : Observer

-- The keys of `VA_BASE_KEYS` leave `slices_omitted` out.
unfoldable pub check_va_row : ℕ → VaRow → Result String VaRow
unfolding hex_nonzero
check_va_row index row = do
  let r = row.request
  let o = row.observer
  need (not (is_some r.slices_omitted)) "VA queue row has unexpected fields"
  need (text_eq r.schema schema_name) "VA queue row has wrong schema"
  hex_nonzero r.run 16
  need (r.seq == r.pic && r.pic == r.req && r.req == index)
      "VA queue row is not a complete one-request picture"
  need (r.first == r.last && r.last == 1) "VA queue row is outside the one-slice campaign domain"
  uint r.target 32
  hex_nonzero o.run 32
  uint_nonzero o.context 64
  uint_nonzero o.allocation 64
  uint_nonzero o.surface 64
  uint_nonzero o.writer 64
  ok row

abbrev pub same_context : VaRow → VaRow → Bool
same_context a b = text_eq a.observer.run b.observer.run && a.observer.context == b.observer.context

-- `joined` of two rows
abbrev pub same_observer : VaRow → VaRow → Bool
same_observer a b =
    same_context a b
    && a.observer.allocation == b.observer.allocation
    && a.observer.surface == b.observer.surface
    && a.observer.writer == b.observer.writer
    && a.request.target == b.request.target

-- The loop over the rows, with the first row and the rows so far.
unfoldable pub read_va_rows : Option VaRow → List VaRow → ℕ → List VaRow → Result String Unit
unfolding check_va_row
read_va_rows common seen index [] = ok tt
read_va_rows common seen index (row ∷ rows) = do
  check_va_row index row
  let first = or_default common row
  need (same_context row first) "VA queue trace mixes observer runs or contexts"
  need (not (any (same_observer row) seen)) "VA queue trace duplicates an observer identity"
  read_va_rows (some first) (row ∷ seen) (suc index) rows

unfoldable pub parse_va_queue : List VaRow → ℕ → Result String (List VaRow)
unfolding read_va_rows
parse_va_queue rows expected = do
  need (length rows == expected) "VA queue trace has the wrong request extent"
  read_va_rows none [] 1 rows
  ok rows

abbrev pub same_numbers : List ℕ → List ℕ → Bool
same_numbers [] [] = true
same_numbers (a ∷ as_) (b ∷ bs) = a == b && same_numbers as_ bs
same_numbers _ _ = false

abbrev pub same_entry : DpbEntry → DpbEntry → Bool
same_entry a b =
    a.i == b.i && a.buf == b.buf && eq_ℤ a.poc b.poc && a.lt == b.lt && a.field == b.field

abbrev pub same_entries : List DpbEntry → List DpbEntry → Bool
same_entries [] [] = true
same_entries (a ∷ as_) (b ∷ bs) = same_entry a b && same_entries as_ bs
same_entries _ _ = false

abbrev pub same_type : SliceType → SliceType → Bool
same_type i_type i_type = true
same_type p_type p_type = true
same_type b_type b_type = true
same_type other_type other_type = true
same_type _ _ = false

abbrev pub same_slice : Slice → Slice → Bool
same_slice a b =
    a.i == b.i
    && same_type a.slice_type b.slice_type
    && a.nal == b.nal
    && same_numbers a.l0 b.l0
    && same_numbers a.l1 b.l1
    && a.tmvp == b.tmvp
    && opt_eq a.col_l0 b.col_l0
    && opt_eq a.col b.col

abbrev pub same_slices : List Slice → List Slice → Bool
same_slices [] [] = true
same_slices (a ∷ as_) (b ∷ bs) = same_slice a b && same_slices as_ bs
same_slices _ _ = false

abbrev pub same_flag : Bool → Bool → Bool
same_flag true b = b
same_flag false b = not b

-- `_va_projection(a) == _va_projection(b)`
unfoldable pub same_projection : Request → Request → Bool
same_projection a b =
    a.seq == b.seq
    && a.pic == b.pic
    && a.req == b.req
    && a.first == b.first
    && a.last == b.last
    && opt_eq a.slices_omitted b.slices_omitted
    && a.target == b.target
    && eq_ℤ a.poc b.poc
    && same_flag a.irap b.irap
    && same_flag a.idr b.idr
    && same_flag a.ltr_sps b.ltr_sps
    && a.reorder == b.reorder
    && a.total_curr == b.total_curr
    && same_entries a.dpb b.dpb
    && same_slices a.slices b.slices
    && same_numbers a.st_before b.st_before
    && same_numbers a.st_after b.st_after
    && same_numbers a.lt_curr b.lt_curr

-- A line of the Gst log: none with `observer-queue`, one that the pattern does not match in full, or
-- the texts of its groups.
pub record GstGroups : Type 0 where
  pub run0 : String
  pub run1 : String
  pub context : String
  pub allocation : String
  pub request : String
  pub writer : String
  pub frame : String
  pub capture : String

pub data GstLine : Type 0 where
  other_line malformed_line : GstLine
  matched_line : GstGroups → GstLine

pub record GstRow : Type 0 where
  pub run0 : String
  pub run1 : String
  pub context : ℕ
  pub allocation : ℕ
  pub request : ℕ
  pub writer : ℕ
  pub frame : ℕ
  pub capture : ℕ

unfoldable pub read_groups : GstGroups → Result String GstRow
unfolding decimal
read_groups g = do
  context ← decimal g.context true
  allocation ← decimal g.allocation true
  request ← decimal g.request true
  writer ← decimal g.writer true
  frame ← decimal g.frame false
  capture ← decimal g.capture false
  ok (record {
    run0 = g.run0;
    run1 = g.run1;
    context = context;
    allocation = allocation;
    request = request;
    writer = writer;
    frame = frame;
    capture = capture;
  })

-- The rows of the log and the number of malformed lines.
unfoldable pub read_gst_lines : List GstLine → Result String (List GstRow × ℕ)
unfolding read_groups
read_gst_lines [] = ok ([], 0)
read_gst_lines (other_line ∷ lines) = read_gst_lines lines
read_gst_lines (malformed_line ∷ lines) = do
  (rows, malformed) ← read_gst_lines lines
  ok (rows, suc malformed)
read_gst_lines (matched_line g ∷ lines) = do
  row ← read_groups g
  (rows, malformed) ← read_gst_lines lines
  ok (row ∷ rows, malformed)

abbrev pub same_gst_context : GstRow → GstRow → Bool
same_gst_context a b = text_eq a.run0 b.run0 && text_eq a.run1 b.run1 && a.context == b.context

abbrev pub same_gst_identity : GstRow → GstRow → Bool
same_gst_identity a b =
    same_gst_context a b
    && a.allocation == b.allocation
    && a.request == b.request
    && a.writer == b.writer
    && a.frame == b.frame
    && a.capture == b.capture

abbrev pub same_frame : GstRow → GstRow → Bool
same_frame a b = a.frame == b.frame

abbrev pub same_gst_request : GstRow → GstRow → Bool
same_gst_request a b = a.request == b.request

unfoldable pub read_gst_rows : Option GstRow → List GstRow → List GstRow → Result String Unit
unfolding hex_nonzero
read_gst_rows common seen [] = ok tt
read_gst_rows common seen (row ∷ rows) = do
  hex_nonzero row.run0 16
  hex_nonzero row.run1 16
  let first = or_default common row
  need (same_gst_context row first) "Gst queue log mixes observer runs or contexts"
  need (not (any (same_gst_identity row) seen)) "Gst queue log duplicates an observer identity"
  need (not (any (same_frame row) seen)) "Gst queue log duplicates a frame identity"
  need (not (any (same_gst_request row) seen)) "Gst queue log duplicates a request generation"
  read_gst_rows (some first) (row ∷ seen) rows

unfoldable pub parse_gst_queue : List GstLine → ℕ → Result String (List GstRow)
unfolding read_gst_lines read_gst_rows
parse_gst_queue lines expected = do
  (rows, malformed) ← read_gst_lines lines
  need (malformed == 0) "Gst queue log contains malformed or duplicated observer records"
  need (length rows == expected) "Gst queue log has the wrong request extent"
  read_gst_rows none [] rows
  ok rows

-- A row of the output association.
pub record OutputRow : Type 0 where
  pub output_index : ℕ
  pub pic : ℕ
  pub poc : ℤ

abbrev pub is_int32 : ℤ → Bool
is_int32 (pos n) = ltb n (2 ^ 31)
is_int32 (negsuc n) = ltb n (2 ^ 31)

abbrev pub read_output_row : ℕ → ℕ → OutputRow → Result String OutputRow
read_output_row expected index row = do
  need (row.output_index == index) "output association indices are incomplete"
  uint_nonzero row.pic 32
  need (leb row.pic expected) "association picture is outside the decode extent"
  need (is_int32 row.poc) "association POC is invalid"
  ok row

unfoldable pub parse_associations : List OutputRow → ℕ → Result String (List OutputRow)
unfolding read_each no_repeats
parse_associations document expected = do
  need (length document == expected) "output association has the wrong extent"
  rows ← read_each (read_output_row expected) 0 document
  need (no_repeats (map (λ (r : OutputRow). r.pic) rows))
      "output association duplicates a decoded picture"
  ok rows
