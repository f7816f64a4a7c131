-- ===== src/Hevc/Trace/Slices.antt =====
-- The reference lists and the slice of a record that `normalize`
-- of experiments/hevc-controls/normalize.py makes.
use omarchy_m1_video.Prelude.{
  ℕ, zero, suc, ◌+◌, ◌==◌, Bool, true, false, not, ◌||◌, none, some, List, String, ltb, leb,
  if◌then◌else◌, all, length, take,
}
use omarchy_m1_video.Exec.{Result, ok}
use omarchy_m1_video.Checked.{◌>>=◌, ◌>>◌, need, read_each}
use omarchy_m1_video.Hevc.Record.{Slice, SliceType, i_type, p_type, b_type, is_i, is_p, is_b}
use omarchy_m1_video.Hevc.Trace.Event.{SliceParams, DecodeParams, integer, mem_text}
use omarchy_m1_video.Hevc.Trace.Flags.{int}

-- `integer(v, high=n - 1)`, which accepts nothing when `n` is 0
abbrev pub index_below : ℕ → ℕ → ℕ → Result String ℕ
index_below n position v = do need (ltb v n) "invalid integer"; ok v

-- `refs(array, count)`
unfoldable pub refs : ℕ → List ℕ → ℕ → Result String (List ℕ)
unfolding read_each
refs n array count = do
  need (length array == 16) "incomplete reference array"
  need (all (λ v. leb v 255) array) "invalid reference array"
  read_each (index_below n) 0 (take count array)

abbrev pub counted_refs : ℕ → ℕ → List ℕ → Result String (List ℕ)
counted_refs n count array = do integer count 16; refs n array count

-- The lists of current references.
pub record Current : Type 0 where
  pub st_before : List ℕ
  pub st_after : List ℕ
  pub lt_curr : List ℕ

abbrev pub total : Current → ℕ
total c = length c.st_before + length c.st_after + length c.lt_curr

unfoldable pub emit_current : ℕ → DecodeParams → Result String Current
unfolding refs
emit_current n dp = do
  before ← counted_refs n dp.num_poc_st_curr_before dp.poc_st_curr_before
  after ← counted_refs n dp.num_poc_st_curr_after dp.poc_st_curr_after
  long ← counted_refs n dp.num_poc_lt_curr dp.poc_lt_curr
  let lists : Current = record { st_before = before; st_after = after; lt_curr = long }
  need (leb (total lists) n) "current reference count exceeds DPB"
  ok lists

abbrev pub slice_type_of : ℕ → SliceType
slice_type_of zero = b_type
slice_type_of (suc zero) = p_type
slice_type_of _ = i_type

-- `num_ref_idx_l0_active_minus1 + 1`, or 0 for a slice without the list
abbrev pub active_count : Bool → ℕ → Result String ℕ
active_count true minus1 = do integer minus1 15; ok (minus1 + 1)
active_count false minus1 = ok 0

abbrev pub selected : SliceType → Bool → List ℕ → List ℕ → List ℕ
selected typ from_l0 l0 l1 = if is_p typ || from_l0 then l0 else l1

unfoldable pub emit_slice : ℕ → List String → SliceParams → Result String Slice
unfolding refs
emit_slice n lf sl = do
  integer sl.slice_type 2
  let typ = slice_type_of sl.slice_type
  n0 ← active_count (not (is_i typ)) sl.num_ref_idx_l0_active_minus1
  n1 ← active_count (is_b typ) sl.num_ref_idx_l1_active_minus1
  integer sl.nal_unit_type 63
  l0 ← refs n sl.ref_idx_l0 n0
  l1 ← refs n sl.ref_idx_l1 n1
  let tmvp = mem_text "SLICE_TEMPORAL_MVP_ENABLED" lf
  let from_l0 = mem_text "COLLOCATED_FROM_L0" lf
  let s : Slice = record {
    i = 0;
    slice_type = typ;
    nal = sl.nal_unit_type;
    l0 = l0;
    l1 = l1;
    tmvp = int tmvp;
    col_l0 = if tmvp then some (int from_l0) else none;
    col = if tmvp then some sl.collocated_ref_idx else none;
  }
  if tmvp
      then (do
        col ← integer sl.collocated_ref_idx 255
        need (is_i typ || ltb col (length (selected typ from_l0 l0 l1)))
            "unresolved collocated reference"
        ok s)
      else ok s
