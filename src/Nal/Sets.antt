-- ===== src/Nal/Sets.antt =====
-- The readers and setters of parameter sets of experiments/hevc-parameter-sets/hevcnal.py.
use omarchy_m1_video.Prelude.{
  ℕ, zero, suc, ◌+◌, ◌*◌, ◌-◌, ◌/◌, ◌%◌, Option, none, some, List, [], ◌∷◌, ◌++◌, ltb, ◌==◌, ◌!=◌,
  if◌then◌else◌, length, take, drop, or_default, replicate,
}
use omarchy_m1_video.Exec.{
  Result, ok, err, pure, gets, raise, or_raise, modify, raise_if, when, ◌>>=◌, ◌>>◌,
}
use omarchy_m1_video.Nal.Stream.{Bytes, escape, unescape}
use omarchy_m1_video.Nal.Reader.{
  Error, Bits, Action, value_error, assertion, index_error, u, ue, replace, u_bits, ue_bits,
  new_bits, to_rbsp,
}

abbrev pub vps_type : ℕ
vps_type = 32

abbrev pub sps_type : ℕ
sps_type = 33

abbrev pub pps_type : ℕ
pps_type = 34

-- `(nal[0] >> 1) & 0x3F`
unfoldable pub nal_type : Bytes → Result Error ℕ
nal_type [] = err index_error
nal_type (b ∷ bs) = ok (b / 2 % 64)

unfoldable pub payload : Bytes → Result Error Bits
payload nal = new_bits (unescape (drop 2 nal))

unfoldable pub rebuild : Bytes → List ℕ → Bytes
rebuild nal bits = take 2 nal ++ escape (to_rbsp bits)

-- A reader of the payload of a unit.
unfoldable pub reading : {A : Type 0} → Action A → Bytes → Result Error A
reading m nal = elim (payload nal) [ err e ↦ err e | ok bits ↦ (m bits).0 ]

-- The unit rebuilt from the bits that an edit leaves.
abbrev pub rebuilt : Bytes → Result Error Unit × Bits → Result Error Bytes
rebuilt nal (err e, bits) = err e
rebuilt nal (ok _, bits) = ok (rebuild nal bits.bits)

unfoldable pub editing : Action Unit → Bytes → Result Error Bytes
editing m nal = elim (payload nal) [ err e ↦ err e | ok bits ↦ rebuilt nal (m bits) ]

-- `assert nal_type(nal) == ...` before an edit
unfoldable pub editing_type : ℕ → Action Unit → Bytes → Result Error Bytes
unfolding editing
editing_type t m nal = elim (nal_type nal) [
  | err e ↦ err e
  | ok found ↦ if found == t then editing m nal else err assertion
]

-- The values of a Result as a call.
unfoldable pub from_result : {A : Type 0} → Result Error A → Action A
from_result (ok a) = pure a
from_result (err e) = raise e

-- The presence flags of the sub-layers.
unfoldable pub present_flags : ℕ → Action (List (ℕ × ℕ))
present_flags zero = pure []
present_flags (suc n) = do
  profile ← u 1
  level ← u 1
  rest ← present_flags n
  pure ((profile, level) ∷ rest)

unfoldable pub skip_present : List (ℕ × ℕ) → Action Unit
skip_present [] = pure tt
skip_present ((profile, level) ∷ rest) = do
  when (profile != 0) (u 88 >> pure tt)
  when (level != 0) (u 8 >> pure tt)
  skip_present rest

unfoldable pub skip_ptl : ℕ → Action Unit
skip_ptl max_sub_layers = do
  u 96
  present ← present_flags (max_sub_layers - 1)
  when (ltb 1 max_sub_layers) (u (2 * (8 - (max_sub_layers - 1))) >> pure tt)
  skip_present present

-- What follows the VPS identity of an SPS, up to its own identity.
unfoldable pub skip_to_sps_id : Action Unit
skip_to_sps_id = do
  layers ← u 3
  raise_if (ltb 7 (layers + 1)) value_error
  u 1
  skip_ptl (layers + 1)

unfoldable pub vps_ids : Bytes → Result Error ℕ
vps_ids = reading (u 4)

-- The VPS and SPS identities.
unfoldable pub sps_ids : Bytes → Result Error (ℕ × ℕ)
sps_ids = reading (do vps ← u 4; skip_to_sps_id; sps ← ue; pure (vps, sps))

-- The PPS and SPS identities.
unfoldable pub pps_ids : Bytes → Result Error (ℕ × ℕ)
pps_ids = reading (do pps ← ue; sps ← ue; pure (pps, sps))

unfoldable pub set_vps_id : Bytes → ℕ → Result Error Bytes
set_vps_id nal v = editing_type vps_type (from_result (u_bits v 4) >>= λ new. replace 0 4 new) nal

-- Reads a code and writes another in its place.
unfoldable pub replace_ue : ℕ → Action Unit
replace_ue v = do
  start ← gets (λ s. s.pos)
  ue
  end_ ← gets (λ s. s.pos)
  replace start end_ (ue_bits v)

-- `ue()` and, where a value is given, the code of that value in its place
abbrev pub replace_given : Option ℕ → Action Unit
replace_given none = ue >> pure tt
replace_given (some v) = replace_ue v

unfoldable pub set_sps_ids : Bytes → Option ℕ → Option ℕ → Result Error Bytes
set_sps_ids nal vps sps =
    editing_type sps_type
      (do
        old ← u 4
        new ← from_result (u_bits (or_default vps old) 4)
        replace 0 4 new
        skip_to_sps_id
        replace_given sps)
      nal

unfoldable pub set_pps_id : Bytes → ℕ → Result Error Bytes
set_pps_id nal v = editing_type pps_type (replace_ue v) nal

unfoldable pub set_pps_sps_id : Bytes → ℕ → Result Error Bytes
set_pps_sps_id nal v = editing_type pps_type (do ue; replace_ue v) nal

unfoldable pub set_sps_chroma_format_idc : Bytes → ℕ → Result Error Bytes
set_sps_chroma_format_idc nal v =
    editing_type sps_type (do u 4; skip_to_sps_id; ue; replace_ue v) nal

unfoldable pub set_pps_num_ref_idx_l0_minus1 : Bytes → ℕ → Result Error Bytes
set_pps_num_ref_idx_l0_minus1 nal v = editing_type pps_type (do ue; ue; u 7; replace_ue v) nal

-- A bit that the payload ends with, and the bits before it.
abbrev pub last : List ℕ → Option ℕ
last [] = none
last (b ∷ []) = some b
last (b ∷ c ∷ bs) = last (c ∷ bs)

unfoldable pub drop_payload_bits : Bytes → ℕ → Result Error Bytes
drop_payload_bits nal count =
    editing
      (do
        s ← gets (λ s. s)
        raise_if (ltb (length s.bits) count) value_error
        modify (λ s. record s { bits = take (length s.bits - count) s.bits }))
      nal

unfoldable pub set_sps_empty_extensions : Bytes → Result Error Bytes
set_sps_empty_extensions nal =
    editing_type sps_type
      (do
        s ← gets (λ s. s)
        final ← or_raise (last s.bits) index_error
        raise_if (final != 0) value_error
        modify (λ s. record s { bits = take (length s.bits - 1) s.bits ++ (1 ∷ replicate 8 0) }))
      nal

unfoldable pub filler : ℕ → List ℕ
filler zero = []
filler (suc n) = 1 ∷ 0 ∷ 1 ∷ 0 ∷ 1 ∷ 0 ∷ 1 ∷ 0 ∷ filler n

unfoldable pub pad_payload : Bytes → ℕ → Result Error Bytes
pad_payload nal count = editing (modify (λ s. record s { bits = s.bits ++ filler count })) nal

unfoldable pub truncate_rbsp : Bytes → ℕ → Bytes
truncate_rbsp nal keep = take 2 nal ++ escape (take keep (unescape (drop 2 nal)) ++ 128 ∷ [])
