-- ===== src/Tests/Nal.antt =====
-- Runs of the Annex B and bit field model.
use omarchy_m1_video.Prelude.{◌+◌, ◌≡◌, refl, List, [], ◌∷◌, false, arith}
use omarchy_m1_video.Nal.Stream.{Bytes, escape, unescape, escape_loop, split_annexb, join_annexb}
use omarchy_m1_video.Nal.Reader.{digits, value_from}
use omarchy_m1_video.Nal.Escape.{emulates, unescape-escape, emulates-escape}
use omarchy_m1_video.Nal.Split.{split_annexb-join_annexb}
use omarchy_m1_video.Nal.Split as Split
use omarchy_m1_video.Bits.{bit_length}
use omarchy_m1_video.Exec.{ok}
use omarchy_m1_video.Nal.Reader as Reader
use omarchy_m1_video.Nal.Reader.{ue, ue_bits, new_bits, to_rbsp}
use omarchy_m1_video.Nal.Sets as Sets
use omarchy_m1_video.Nal.Sets.{set_vps_id, set_pps_id, vps_ids, pps_ids}
use omarchy_m1_video.Nal.Payload.{new_bits-to_rbsp}
use omarchy_m1_video.Nal.ReadBack.{state, ue_reads}
use omarchy_m1_video.Nal.Identities.{set_vps_id-vps_ids, set_pps_id-pps_ids}
use omarchy_m1_video.Nal.Stream as Stream
use omarchy_m1_video.Prelude.{◌++◌, length}

abbrev payload : Bytes
payload = 64 ∷ 0 ∷ 0 ∷ 1 ∷ 0 ∷ 0 ∷ 3 ∷ []

escape-payload : escape payload ≡ 64 ∷ 0 ∷ 0 ∷ 3 ∷ 1 ∷ 0 ∷ 0 ∷ 3 ∷ 3 ∷ []
unfolding escape escape_loop
escape-payload = refl

unescape-escape_example : unescape (escape payload) ≡ payload
unescape-escape_example = unescape-escape payload

emulates-escape_example : emulates (escape payload) ≡ false
emulates-escape_example = emulates-escape payload

abbrev units : List Bytes
units = (64 ∷ 1 ∷ 12 ∷ []) ∷ (66 ∷ 1 ∷ 0 ∷ 7 ∷ []) ∷ []

split_annexb-join_annexb_example : split_annexb (join_annexb units) ≡ units
unfolding Split.has_start Split.ends_nonzero
split_annexb-join_annexb_example = split_annexb-join_annexb units ((refl, refl), ((refl, refl), tt))

code : ue_bits 4 ≡ 0 ∷ 0 ∷ 1 ∷ 0 ∷ 1 ∷ []
unfolding ue_bits digits bit_length
code = refl

ue_reads_example :
    ue (state ((1 ∷ []) ++ (ue_bits 4 ++ 1 ∷ [])) 1)
    ≡ (ok 4, state ((1 ∷ []) ++ (ue_bits 4 ++ 1 ∷ [])) (1 + length (ue_bits 4)))
ue_reads_example = ue_reads (1 ∷ []) (1 ∷ []) 4 (omega arith)

new_bits-to_rbsp_example : new_bits (to_rbsp (1 ∷ 0 ∷ [])) ≡ ok (state (1 ∷ 0 ∷ []) 0)
new_bits-to_rbsp_example = new_bits-to_rbsp (1 ∷ 0 ∷ []) (omega arith, (omega arith, tt))

-- A VPS of one payload byte, and a PPS with identity 0 that names SPS 0.
abbrev vps : Bytes
vps = 64 ∷ 1 ∷ 16 ∷ 128 ∷ []

abbrev pps : Bytes
pps = 68 ∷ 1 ∷ 208 ∷ []

vps_set : (out : Bytes) × (set_vps_id vps 5 ≡ ok out)
unfolding Sets.payload Sets.rebuild Sets.reading Sets.editing Sets.editing_type Sets.nal_type
    Sets.from_result Sets.replace_ue set_vps_id set_pps_id pps_ids vps_ids Reader.digits
    Reader.u_bits ue_bits Reader.unpack Reader.strip_zeros Reader.pop new_bits Reader.value_from
    Reader.u Reader.count_zeros ue Reader.replace Reader.pack to_rbsp unescape Stream.unescape_loop
    escape escape_loop bit_length
vps_set = (_, refl)

set_vps_id-vps_ids_example : vps_ids vps_set.0 ≡ ok 5
set_vps_id-vps_ids_example = set_vps_id-vps_ids vps 5 vps_set.0 vps_set.1

pps_set : (out : Bytes) × (set_pps_id pps 3 ≡ ok out) × (pps_ids pps ≡ ok (0, 0))
unfolding Sets.payload Sets.rebuild Sets.reading Sets.editing Sets.editing_type Sets.nal_type
    Sets.from_result Sets.replace_ue set_vps_id set_pps_id pps_ids vps_ids Reader.digits
    Reader.u_bits ue_bits Reader.unpack Reader.strip_zeros Reader.pop new_bits Reader.value_from
    Reader.u Reader.count_zeros ue Reader.replace Reader.pack to_rbsp unescape Stream.unescape_loop
    escape escape_loop bit_length
pps_set = (_, refl, refl)

set_pps_id-pps_ids_example : pps_ids pps_set.0 ≡ ok (3, 0)
set_pps_id-pps_ids_example =
    set_pps_id-pps_ids pps 3 pps_set.0 0 0 (omega arith) pps_set.2 pps_set.1
