-- ===== src/Hevc/Map/Motion.antt =====
-- `motion` of experiments/hevc-avd-map/model.py, and the entries of its result.
use omarchy_m1_video.Prelude.{
  ℕ, ◌-◌, ◌*◌, ◌^◌, ◌!=◌, ℤ, Bool, true, false, not, ◌&&◌, Option, none, some, List, [], ◌∷◌,
  if◌then◌else◌, ltb, length, get_elem?, or_default,
}
use omarchy_m1_video.Exec.{Result, ok}
use omarchy_m1_video.Checked.{◌>>=◌, ◌>>◌, need, present}
use omarchy_m1_video.Hevc.Record.{Slice, is_i, is_p, is_b}
use omarchy_m1_video.Hevc.Map.Words.{
  Reason, Word, word, field_of, index, all_bits, missing_field, no_such_index, field_outside_mask,
}

-- The picture that a buffer holds: `current` of `map_records`.
pub record Writer : Type 0 where
  pub picture : ℕ
  pub poc : ℤ
  pub buffer : ℕ
  pub generation : ℕ
  pub is_intra : Bool

-- An entry of `refs`; `buffer` is the one its compressed address is in.
pub record Reference : Type 0 where
  pub slot : ℕ
  pub writer : Writer
  pub long_term : ℕ
  pub header : Word
  pub header_if_slice_poc_equals_decode_poc : Option ℕ
  pub buffer : ℕ

pub data LookupNote : Type 0 where
  i_slice_early_return expected_from_trace inactive_fields_not_recorded : LookupNote

pub data GateReason : Type 0 where
  tmvp_disabled dependent_flag_unrecorded writer_is_intra : GateReason

pub data Emission : Type 0 where
  absent unknown_dependent_flag : Emission

pub record Address : Type 0 where
  pub buffer : ℕ
  pub writer_picture : ℕ
  pub generation : ℕ

pub record Motion : Type 0 where
  pub lookup : LookupNote
  pub collocated : Option Writer
  pub expected_ref_valid : Option Bool
  pub gate_reason : Option GateReason
  pub address_emission : Emission
  pub address_if_enabled : Option Address
  pub word : Word

-- `selected`: the list that the collocated picture is in.
abbrev pub selected_list : Slice → Result Reason (List ℕ)
selected_list s =
    if is_p s.slice_type
    then ok s.l0
    else (do c0 ← present s.col_l0 missing_field; ok (if c0 != 0 then s.l0 else s.l1))

abbrev pub collocated_writer : Slice → List Reference → Result Reason Writer
collocated_writer s refs = do
  selected ← selected_list s
  col ← present s.col missing_field
  i ← index col (length selected)
  slot ← present (get_elem? selected i) no_such_index
  r ← present (get_elem? refs slot) no_such_index
  ok r.writer

-- `col` after the branch on `tmvp`
unfoldable pub collocated : Slice → List Reference → Result Reason (Option Writer)
collocated s refs = if s.tmvp != 0 then (do w ← collocated_writer s refs; ok (some w)) else ok none

abbrev pub bit : Bool → ℕ
bit true = 1
bit false = 0

abbrev pub address_of : Option Writer → Option Address
address_of none = none
address_of (some w) =
    some (record { buffer = w.buffer; writer_picture = w.picture; generation = w.generation })

-- `ref_valid` and the reason for it
unfoldable pub gate : Bool → Option Writer → Option Bool × GateReason
gate false w = (some false, tmvp_disabled)
gate true none = (none, dependent_flag_unrecorded)
gate true (some w) =
    if w.is_intra then (some false, writer_is_intra) else (none, dependent_flag_unrecorded)

abbrev pub emission : Option Bool → Emission
emission (some false) = absent
emission _ = unknown_dependent_flag

abbrev pub valid_bits : Option Bool → Option ℕ
valid_bits none = none
valid_bits (some valid) = some (bit valid * 2 ^ 18)

-- The word of a slice that is not an I slice. The count of an empty list is -1, outside its mask.
unfoldable pub motion_word : Slice → Option Bool → Result Reason Word
motion_word s ref_valid = do
  let tmvp = s.tmvp != 0
  need (ltb 0 (length s.l0)) field_outside_mask
  need (not (is_b s.slice_type && not (ltb 0 (length s.l1)))) field_outside_mask
  word (
      field_of "opcode" 0xff000000 (some 0x2d000000)
      ∷ field_of "five_minus_max_num_merge_cand" 0xe none
      ∷ field_of "col_from_l1_flag" 0x10
          (some (bit (tmvp && not (or_default s.col_l0 0 != 0)) * 2 ^ 4))
      ∷ field_of "CABAC_INIT" 0x20 none
      ∷ field_of "MVD_L1_ZERO" 0x40 none
      ∷ field_of "num_ref_idx_l0_active_minus1" 0xf800 (some ((length s.l0 - 1) * 2 ^ 11))
      ∷ field_of "num_ref_idx_l1_active_minus1" 0x780
          (if is_b s.slice_type then some ((length s.l1 - 1) * 2 ^ 7) else none)
      ∷ field_of "DEPENDENT_SLICE_SEGMENT/FLAG2" 0x8000 (if tmvp then some 0x8000 else none)
      ∷ field_of "P-slice" 0x10000 (some (bit (is_p s.slice_type) * 2 ^ 16))
      ∷ field_of "ref_valid" 0x40000 (valid_bits ref_valid)
      ∷ [])

unfoldable pub inter_motion : Slice → List Reference → Result Reason Motion
unfolding collocated gate motion_word
inter_motion s refs = do
  col ← collocated s refs
  let tmvp = s.tmvp != 0
  let (ref_valid, reason) = gate tmvp col
  w ← motion_word s ref_valid
  ok (record {
    lookup = if tmvp then expected_from_trace else inactive_fields_not_recorded;
    collocated = col;
    expected_ref_valid = ref_valid;
    gate_reason = some reason;
    address_emission = emission ref_valid;
    address_if_enabled = address_of col;
    word = w;
  })

-- What an I slice gets: the code returns before any lookup.
unfoldable pub intra_motion : Result Reason Motion
unfolding word
intra_motion = do
  w ← word (field_of "I early return" all_bits (some 0x2d020000) ∷ [])
  ok (record {
    lookup = i_slice_early_return;
    collocated = none;
    expected_ref_valid = some false;
    gate_reason = none;
    address_emission = absent;
    address_if_enabled = none;
    word = w;
  })

unfoldable pub motion : Slice → List Reference → Result Reason Motion
unfolding inter_motion intra_motion
motion s refs = if is_i s.slice_type then intra_motion else inter_motion s refs
