-- ===== src/Nal/Identities.antt =====
-- Identities that are set in a parameter set are read back from it.
use omarchy_m1_video.Prelude.{
  ℕ, ◌+◌, ◌-◌, ◌^◌, ◌<◌, ◌≤◌, ◌≡◌, inl, inr, refl, ap, ◌∙◌, sym, subst, List, [], ◌++◌, arith,
  length, length-append, drop, replicate,
}
use omarchy_m1_video.Bits.{bit_length}
use omarchy_m1_video.Exec.{Result, ok, err, pure, Result-cases, ◌>>=◌}
use omarchy_m1_video.Nal.Stream.{Bytes, unescape}
use omarchy_m1_video.Nal.Reader.{Error, Bits, Action, digits, u, ue, replace, u_bits, ue_bits}
use omarchy_m1_video.Nal.Digits.{AreBits, length-digits, value_from-digits}
use omarchy_m1_video.Nal.Payload.{append-AreBits, replicate-AreBits}
use omarchy_m1_video.Nal.ReadBack.{u_reads, ue_reads, state, drop-append}
use omarchy_m1_video.Nal.Relocate.{IsAhead, ue-IsSameRun, ue-bits}
use omarchy_m1_video.Nal.Sets.{
  payload, reading, editing_type, from_result, replace_ue, vps_ids, pps_ids, set_vps_id, set_pps_id,
}
use omarchy_m1_video.Nal.Edit.{
  digits-AreBits, drop-AreBits, new_bits-AreBits, new_bits-pos, editing-payload, reading-payload,
}

u_bits-ok : (v n : ℕ) (xs : List ℕ) → u_bits v n ≡ ok xs → (v < 2 ^ n) × (xs ≡ digits n v)
unfolding u_bits
u_bits-ok v n xs h = (ground arith, ground arith)

-- The bits of the unit after its first four were replaced.
set_four :
    (nal out : Bytes) (v : ℕ) (r : Result Error (List ℕ))
    → u_bits v 4 ≡ r
    → editing_type 32 (from_result r >>= λ new. replace 0 4 new) nal ≡ ok out
    → (rest : List ℕ) × (v < 2 ^ 4) × (payload out ≡ ok (state (digits 4 v ++ rest) 0))
unfolding from_result replace payload
set_four nal out v (err e) p h =
    let (b, _, returned, _) =
      editing-payload 32 (from_result (err e) >>= λ new. replace 0 4 new) nal out h in
    absurd (cc)
set_four nal out v (ok xs) p h =
    let (b, read, _, next) =
      editing-payload 32 (from_result (ok xs) >>= λ new. replace 0 4 new) nal out h in
    let (fits, field) = u_bits-ok v 4 xs p in
    let tail = drop 4 b.bits in
    (
      tail,
      fits,
      subst (λ d. payload out ≡ ok (state (d ++ tail) 0)) field
          (next (
            append-AreBits xs tail (subst AreBits (sym field) (digits-AreBits 4 v))
              (drop-AreBits 4 b.bits (new_bits-AreBits (unescape (drop 2 nal)) b read)))),
    )

-- A VPS identity that is set, which must fit in four bits, is the one that is read back.
pub set_vps_id-vps_ids :
    (nal : Bytes) (v : ℕ) (out : Bytes) → set_vps_id nal v ≡ ok out → vps_ids out ≡ ok v
unfolding set_vps_id vps_ids reading
set_vps_id-vps_ids nal v out h =
    let (rest, fits, held) = set_four nal out v (u_bits v 4) refl h in
    let read : (u 4 (state (digits 4 v ++ rest) 0)).0 ≡ ok v =
      subst (λ n. (u n (state (digits 4 v ++ rest) 0)).0 ≡ ok v) (length-digits 4 v)
        (ap (λ r. r.0) (u_reads [] (digits 4 v) rest)
          ∙ ap ok (omega (arith, value_from-digits 4 0 v fits))) in
    reading-payload (u 4) out (state (digits 4 v ++ rest) 0) held ∙ read

-- Two codes in a row.
two_codes : Action (ℕ × ℕ)
two_codes = ue >>= λ pps. ue >>= λ sps. pure (pps, sps)

-- Where the two codes of a PPS are, once its first was replaced.
replaced-IsAhead :
    (b : Bits) (v : ℕ)
    → b.pos ≤ length b.bits
    → IsAhead b (state (ue_bits v ++ drop b.pos b.bits) (length (ue_bits v)))
replaced-IsAhead b v inside = record {
  in_left = inside;
  in_right = omega (arith, length-append (ue_bits v) (drop b.pos b.bits));
  same = sym (drop-append (ue_bits v) (drop b.pos b.bits));
}

two_codes-ok :
    (b : Bits) (p s : ℕ)
    → (two_codes b).0 ≡ ok (p, s)
    → ((ue b).0 ≡ ok p) × ((ue (ue b).1).0 ≡ ok s)
unfolding two_codes
two_codes-ok b p s h = elim (Result-cases (ue b).0) [
  | inr (e, q) ↦ absurd (cc (rw (q, two_codes) at h))
  | inl (x, q) ↦ elim (Result-cases (ue (ue b).1).0) [
    | inr (e, r) ↦ absurd (ground (arith, q, r))
    | inl (y, r) ↦ (ground arith, ground arith)
  ]
]

two_codes-of :
    (b c : Bits) (p s : ℕ) → ue b ≡ (ok p, c) → (ue c).0 ≡ ok s → (two_codes b).0 ≡ ok (p, s)
unfolding two_codes
two_codes-of b c p s h k = ground arith

replace_ue-bits :
    (b : Bits) (v old : ℕ)
    → b.pos ≡ 0
    → (ue b).0 ≡ ok old
    → (replace_ue v b).1.bits ≡ ue_bits v ++ drop (ue b).1.pos (ue b).1.bits
unfolding replace_ue replace
replace_ue-bits b v old start h = rw (replace_ue, h, start) refl

ue_bits-AreBits : (v : ℕ) → AreBits (ue_bits v)
unfolding ue_bits
ue_bits-AreBits v =
    let w = bit_length (v + 1) in
    append-AreBits (replicate (w - 1) 0) (digits w (v + 1))
      (replicate-AreBits (w - 1) 0 (omega arith)) (digits-AreBits w (v + 1))

-- A PPS identity that is set is the one that is read back, and the SPS identity that the PPS names
-- is what it was, for an identity below 2 ^ 32 - 1.
pub set_pps_id-pps_ids :
    (nal : Bytes) (v : ℕ) (out : Bytes) (old sps : ℕ)
    → v + 1 < 2 ^ 32
    → pps_ids nal ≡ ok (old, sps)
    → set_pps_id nal v ≡ ok out
    → pps_ids out ≡ ok (v, sps)
unfolding set_pps_id pps_ids payload two_codes
set_pps_id-pps_ids nal v out old sps fits before h =
    let (b, read, returned, next) = editing-payload 34 (replace_ue v) nal out h in
    let (first, second) =
      two_codes-ok b old sps (sym (reading-payload two_codes nal b read) ∙ before) in
    let c = (ue b).1 in
    let start : b.pos ≡ 0 = new_bits-pos (unescape (drop 2 nal)) b read in
    let tail = drop c.pos c.bits in
    let bits : (replace_ue v b).1.bits ≡ ue_bits v ++ tail = replace_ue-bits b v old start first in
    let here : IsAhead b b = record {
      in_left = omega (arith, start);
      in_right = omega (arith, start);
      same = refl;
    } in
    let inside : c.pos ≤ length c.bits = (ue-IsSameRun b b here).ahead.in_left in
    let are : AreBits (ue_bits v ++ tail) = append-AreBits (ue_bits v) tail (ue_bits-AreBits v) (
      drop-AreBits c.pos c.bits
        (subst AreBits (sym (ue-bits b)) (new_bits-AreBits (unescape (drop 2 nal)) b read))) in
    let held : payload out ≡ ok (state (ue_bits v ++ tail) 0) =
      next (subst AreBits (sym bits) are) ∙ ap (λ d. ok (state d 0)) bits in
    let after = state (ue_bits v ++ tail) (length (ue_bits v)) in
    let same : (ue after).0 ≡ ok sps =
      sym (ue-IsSameRun c after (replaced-IsAhead c v inside)).result ∙ second in
    reading-payload two_codes out (state (ue_bits v ++ tail) 0) held
    ∙ two_codes-of (state (ue_bits v ++ tail) 0) after v sps
        (ue_reads [] tail v fits ∙ ap (λ n. (ok v, state (ue_bits v ++ tail) n)) (omega arith)) same
