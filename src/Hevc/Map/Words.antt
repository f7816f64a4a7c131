-- ===== src/Hevc/Map/Words.antt =====
-- `require`, `integer`, `word`, `ref_header` and `ref_list_word` of experiments/hevc-avd-map/model.py.
-- A 32-bit word is its number, where the source prints it in hexadecimal.
use Prim.Native.Nat.{bit_and, bit_or, bit_xor}
use omarchy_m1_video.Prelude.{
  ℕ, suc, ◌+◌, ◌-◌, ◌*◌, ◌%◌, ◌^◌, ℤ, pos, negsuc, Bool, ◌&&◌, Option, none, some, List, [], ◌∷◌,
  String, ltb, leb, ◌==◌, if◌then◌else◌,
}
use omarchy_m1_video.Exec.{Result, ok}
use omarchy_m1_video.Checked.{◌>>=◌, ◌>>◌, need}

-- The reasons of `Reject`; `missing_field` and `no_such_index` are the KeyError and the IndexError.
pub data Reason : Type 0 where
  invalid_integer field_outside_mask ambiguous_buffer_snapshot missing_timestamp : Reason
  incomplete_extent unsupported_schema mixed_context picture_order batched_picture : Reason
  repeated_poc one_slice unsupported_slice oversized_dpb unsupported_dpb_layout : Reason
  dpb_alias stale_writer oversized_list slice_list_mismatch missing_field no_such_index : Reason

-- `integer(value, low, high)`
abbrev pub integer : ℕ → ℕ → ℕ → Result Reason ℕ
integer value low high = do need (leb low value && leb value high) invalid_integer; ok value

-- `-(1 << 31) <= value <= (1 << 31) - 1`
abbrev pub is_int32 : ℤ → Bool
is_int32 (pos n) = ltb n (2 ^ 31)
is_int32 (negsuc n) = ltb n (2 ^ 31)

abbrev pub int32 : ℤ → Result Reason ℤ
int32 value = do need (is_int32 value) invalid_integer; ok value

-- `a - b` of two non-negative ints
abbrev minus_nat : ℕ → ℕ → ℤ
minus_nat a b = if leb b a then pos (a - b) else negsuc (b - suc a)

-- `a - b`
unfoldable pub minus : ℤ → ℤ → ℤ
minus (pos a) (pos b) = minus_nat a b
minus (pos a) (negsuc b) = pos (a + suc b)
minus (negsuc a) (pos b) = negsuc (a + b)
minus (negsuc a) (negsuc b) = minus_nat b a

-- `value & 0x1ffff`
unfoldable pub low17 : ℤ → ℕ
low17 (pos n) = n % 2 ^ 17
low17 (negsuc n) = 2 ^ 17 - 1 - n % 2 ^ 17

abbrev pub all_bits : ℕ
all_bits = 2 ^ 32 - 1

-- A contribution to a word: its name, its mask and its bits, when they are known.
pub record Field : Type 0 where
  pub name : String
  pub mask : ℕ
  pub bits : Option ℕ

abbrev pub field_of : String → ℕ → Option ℕ → Field
field_of name mask bits = record { name = name; mask = mask; bits = bits }

pub record Word : Type 0 where
  pub known_mask : ℕ
  pub known_value : ℕ
  pub value : Option ℕ
  pub unknown_inputs : List String

-- What the loop over the fields collects: the value, the unknown bits and the missing names.
pub record Merged : Type 0 where
  pub value : ℕ
  pub unknown : ℕ
  pub missing : List String

-- `bits & ~mask == 0`
abbrev pub is_inside : ℕ → ℕ → Bool
is_inside bits mask = bit_xor bits (bit_and bits mask) == 0

unfoldable pub merge_fields : ℕ → List Field → Result Reason Merged
merge_fields value [] = ok (record { value = value; unknown = 0; missing = [] })
merge_fields value (f ∷ fs) = elim f.bits [
  | none ↦ do
    rest ← merge_fields value fs
    ok (record rest { unknown = bit_or f.mask rest.unknown; missing = f.name ∷ rest.missing })
  | some bits ↦ do
    need (is_inside bits f.mask) field_outside_mask
    merge_fields (bit_or value bits) fs
]

unfoldable pub word : List Field → Result Reason Word
unfolding merge_fields
word fields = do
  m ← merge_fields 0 fields
  let unknown = bit_xor m.unknown (bit_and m.unknown m.value)
  ok (record {
    known_mask = bit_xor all_bits unknown;
    known_value = m.value;
    value = if unknown == 0 then some m.value else none;
    unknown_inputs = m.missing;
  })

-- The difference of the order counts, when both are given.
unfoldable pub poc_delta : Option ℤ → Option ℤ → Result Reason (Option ℕ)
unfolding minus low17
poc_delta none r = ok none
poc_delta (some s) none = ok none
poc_delta (some s) (some r) = do int32 s; int32 r; d ← int32 (minus s r); ok (some (low17 d))

unfoldable pub ref_header : ℕ → ℕ → Option ℤ → Option ℤ → Result Reason Word
unfolding word poc_delta
ref_header count long_term slice_poc reference_poc = do
  integer count 1 16
  integer long_term 0 1
  delta ← poc_delta slice_poc reference_poc
  word (
      field_of "count_minus_one" 0xf0000000 (some ((count - 1) * 2 ^ 28))
      ∷ field_of "constant" (2 ^ 24) (some (2 ^ 24))
      ∷ field_of "long_term" (2 ^ 17) (some (long_term * 2 ^ 17))
      ∷ field_of "slice_pic_order_cnt" 0x1ffff delta
      ∷ [])

unfoldable pub ref_list_word : ℕ → ℕ → ℕ → Result Reason ℕ
ref_list_word which position slot = do
  integer which 0 1
  integer position 0 15
  integer slot 0 15
  ok (bit_or (bit_or (bit_or 0x2dc00000 (which * 2 ^ 8)) (position * 2 ^ 4)) slot)

-- `integer(i, 0, n - 1)`, which has no value that it accepts when `n` is 0.
abbrev pub index : ℕ → ℕ → Result Reason ℕ
index i n = do need (ltb i n) invalid_integer; ok i
