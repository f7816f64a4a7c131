-- ===== src/Hevc/Map/Steps.antt =====
-- `map_records` of experiments/hevc-avd-map/model.py.
use omarchy_m1_video.Prelude.{text_eq}
use omarchy_m1_video.Prelude.{
  ℕ, suc, ◌+◌, ◌-◌, ◌^◌, ◌==◌, ◌!=◌, ℤ, eq_ℤ, Bool, true, false, not, ◌&&◌, Option, none, some,
  List, [], ◌∷◌, String, if◌then◌else◌, any, leb, length, get_elem?, or_default,
}
use omarchy_m1_video.Exec.{Result, ok, err}
use omarchy_m1_video.Dict.{Dict, lookup, put}
use omarchy_m1_video.Checked.{◌>>=◌, ◌>>◌, need, present, check_each, read_each}
use omarchy_m1_video.Hevc.Record.{
  Slice, SliceType, Request, DpbEntry, i_type, p_type, b_type, other_type, is_i, schema_name,
}
use omarchy_m1_video.Hevc.Map.Lookup.{mem}
use omarchy_m1_video.Hevc.Map.Motion.{Writer, Reference, Motion, motion}
use omarchy_m1_video.Hevc.Map.Words.{
  Reason, ref_header, ref_list_word, index, integer, int32, incomplete_extent, unsupported_schema,
  mixed_context, picture_order, batched_picture, repeated_poc, one_slice, unsupported_slice,
  oversized_dpb, unsupported_dpb_layout, dpb_alias, stale_writer, oversized_list,
  slice_list_mismatch, missing_field, no_such_index,
}

-- An entry of `lists`.
pub record ListEntry : Type 0 where
  pub position : ℕ
  pub slot : ℕ
  pub word : ℕ
  pub writer : Writer

pub record Mapped : Type 0 where
  pub picture : ℕ
  pub poc : ℤ
  pub slice_type : SliceType
  pub nal : ℕ
  pub destination : Writer
  pub previous_destination_writer : Option Writer
  pub dpb : List Reference
  pub reference_table_emitted : Bool
  pub list0 : List ListEntry
  pub list1 : List ListEntry
  pub motion : Motion

-- The loop's state: `writers`, `generations` and `pocs`.
pub record History : Type 0 where
  pub writers : Dict Writer
  pub generations : Dict ℕ
  pub pocs : List ℤ

abbrev pub no_history : History
no_history = record { writers = []; generations = []; pocs = [] }

abbrev pub mem_poc : ℤ → List ℤ → Bool
mem_poc p ps = any (λ q. eq_ℤ p q) ps

-- The writer that a DPB entry names, when the buffer still holds it.
unfoldable pub resolve : Dict Writer → DpbEntry → Result Reason Writer
resolve writers e = do
  w ← present (lookup e.buf writers) stale_writer
  need (eq_ℤ w.poc e.poc) stale_writer
  ok w

-- The body of the loop over the DPB.
unfoldable pub read_entry : Request → Dict Writer → List ℕ → ℕ → DpbEntry → Result Reason Reference
unfolding resolve ref_header
read_entry r writers seen slot e = do
  need (e.i == slot && e.field == 0) unsupported_dpb_layout
  integer e.lt 0 1
  need (e.buf != r.target && not (mem e.buf seen)) dpb_alias
  w ← resolve writers e
  header ← ref_header (length r.dpb) e.lt none none
  guess ← ref_header (length r.dpb) e.lt (some r.poc) (some e.poc)
  ok (record {
    slot = slot;
    writer = w;
    long_term = e.lt;
    header = header;
    header_if_slice_poc_equals_decode_poc = guess.value;
    buffer = e.buf;
  })

unfoldable pub read_dpb :
    Request → Dict Writer → List ℕ → ℕ → List DpbEntry → Result Reason (List Reference)
unfolding read_entry
read_dpb r writers seen slot [] = ok []
read_dpb r writers seen slot (e ∷ es) = do
  x ← read_entry r writers seen slot e
  xs ← read_dpb r writers (e.buf ∷ seen) (suc slot) es
  ok (x ∷ xs)

abbrev pub list_entry : ℕ → List Reference → ℕ → ℕ → Result Reason ListEntry
list_entry which refs position slot = do
  index slot (length refs)
  w ← ref_list_word which position slot
  r ← present (get_elem? refs slot) no_such_index
  ok (record { position = position; slot = slot; word = w; writer = r.writer })

unfoldable pub read_list : ℕ → List Reference → List ℕ → Result Reason (List ListEntry)
unfolding read_each
read_list which refs slots = do
  need (leb (length slots) 16) oversized_list
  read_each (list_entry which refs) 0 slots

abbrev pub check_indices : ℕ → List ℕ → Result Reason Unit
check_indices n slots = check_each (λ i. index i n >> ok tt) slots

-- An I slice has no list, a P slice the first one, a B slice both.
abbrev pub lists_fit : SliceType → List ℕ → List ℕ → Bool
lists_fit i_type [] [] = true
lists_fit p_type (_ ∷ _) [] = true
lists_fit b_type (_ ∷ _) (_ ∷ _) = true
lists_fit _ _ _ = false

abbrev pub is_slice_type : SliceType → Bool
is_slice_type other_type = false
is_slice_type _ = true

-- The fields of a collocated picture are there when they are in use.
abbrev pub check_collocated : Slice → Result Reason Unit
check_collocated s =
    if s.tmvp != 0
    then (do
      c0 ← present s.col_l0 missing_field
      integer c0 0 1
      col ← present s.col missing_field
      integer col 0 255
      ok tt)
    else ok tt

-- The checks on the request itself, up to the one on its slices; `h.pocs` has the earlier ones.
unfoldable pub check_request : ℕ → String → ℕ → History → Request → Result Reason Unit
check_request context run ordinal h r = do
  need (text_eq r.schema schema_name) unsupported_schema
  need (r.ctx == context && text_eq r.run run) mixed_context
  integer r.seq 1 10000
  need (r.seq == ordinal) picture_order
  integer r.pic 1 10000
  need (r.pic == ordinal) picture_order
  integer r.req 1 10000
  need (r.req == ordinal) picture_order
  need (r.first == r.last && r.last == 1 && or_default r.slices_omitted 0 == 0) batched_picture
  int32 r.poc
  need (not (mem_poc r.poc h.pocs)) repeated_poc
  integer r.target 0 (2 ^ 32 - 1)
  ok tt

unfoldable pub only_slice : List Slice → Result Reason Slice
only_slice (s ∷ []) = ok s
only_slice _ = err one_slice

unfoldable pub check_slice : Slice → Result Reason Unit
check_slice s = do
  need (s.i == 0 && is_slice_type s.slice_type) unsupported_slice
  integer s.tmvp 0 1
  ok tt

-- `current`
unfoldable pub new_writer : ℕ → Request → Slice → History → Writer
new_writer ordinal r s h = record {
  picture = ordinal;
  poc = r.poc;
  buffer = r.target;
  generation = or_default (lookup r.target h.generations) 0 + 1;
  is_intra = is_i s.slice_type;
}

-- The history once the request is mapped.
unfoldable pub advance : Request → Writer → History → History
advance r w h = record {
  writers = put r.target w h.writers;
  generations = put r.target w.generation h.generations;
  pocs = r.poc ∷ h.pocs;
}

-- The slice of a request that passes the checks.
unfoldable pub map_slice : ℕ → String → ℕ → History → Request → Result Reason Slice
unfolding check_request only_slice check_slice
map_slice context run ordinal h r = do
  check_request context run ordinal h r
  s ← only_slice r.slices
  check_slice s
  ok s

-- The references of a request, and the checks on the indices into them.
unfoldable pub map_dpb : History → Request → Result Reason (List Reference)
unfolding read_dpb
map_dpb h r = do
  need (leb (length r.dpb) 16) oversized_dpb
  refs ← read_dpb r h.writers [] 0 r.dpb
  check_indices (length refs) r.st_before
  check_indices (length refs) r.st_after
  check_indices (length refs) r.lt_curr
  ok refs

-- `lists`
unfoldable pub map_lists : Slice → List Reference → Result Reason (List ListEntry × List ListEntry)
unfolding read_list
map_lists s refs = do
  list0 ← read_list 0 refs s.l0
  list1 ← read_list 1 refs s.l1
  need (lists_fit s.slice_type s.l0 s.l1) slice_list_mismatch
  check_collocated s
  ok (list0, list1)

-- The body of the loop over the records.
unfoldable pub map_one : ℕ → String → ℕ → History → Request → Result Reason (Mapped × History)
unfolding map_slice map_dpb map_lists new_writer advance motion
map_one context run ordinal h r = do
  s ← map_slice context run ordinal h r
  refs ← map_dpb h r
  lists ← map_lists s refs
  let current = new_writer ordinal r s h
  m ← motion s refs
  ok (
    record {
      picture = ordinal;
      poc = r.poc;
      slice_type = s.slice_type;
      nal = s.nal;
      destination = current;
      previous_destination_writer = lookup r.target h.writers;
      dpb = refs;
      reference_table_emitted = not (is_i s.slice_type);
      list0 = lists.0;
      list1 = lists.1;
      motion = m;
    },
    advance r current h,
  )

unfoldable pub map_loop : ℕ → String → ℕ → History → List Request → Result Reason (List Mapped)
unfolding map_one
map_loop context run ordinal h [] = ok []
map_loop context run ordinal h (r ∷ rs) = do
  (m, h') ← map_one context run ordinal h r
  ms ← map_loop context run (suc ordinal) h' rs
  ok (m ∷ ms)

-- `context` and `run` are those of the first record.
unfoldable pub map_all : List Request → Result Reason (List Mapped)
unfolding map_loop
map_all [] = ok []
map_all (r ∷ rs) = map_loop r.ctx r.run 1 no_history (r ∷ rs)

unfoldable pub map_records : List Request → ℕ → Result Reason (List Mapped)
unfolding map_all
map_records records expected = do
  integer expected 1 10000
  need (length records == expected) incomplete_extent
  map_all records
