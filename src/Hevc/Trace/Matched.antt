-- ===== src/Hevc/Trace/Matched.antt =====
-- What `associate` of experiments/hevc-controls/normalize.py matches.
use omarchy_m1_video.Prelude.{
  ℕ, suc, ◌≡◌, inl, inr, refl, sym, subst, Bool, true, List, [], ◌∷◌, String, ◌==◌, all, length,
  All, arith, Bool-cases, Option-cases, eq_of_==,
}
use omarchy_m1_video.Exec.{Result-cases, ok}
use omarchy_m1_video.Checked.{read_each}
use omarchy_m1_video.Dict.{Dict, lookup, put, lookup-All, IsIn, IsIn-self, index_by, index_by-All}
use omarchy_m1_video.Hevc.Trace.Requests.{mem}
use omarchy_m1_video.Hevc.Trace.Emit.{Association}
use omarchy_m1_video.Hevc.Trace.Associate.{
  Log, Frame, LogLine, read_lines, no_repeats, frame_number, frame_of, associate, same_keys,
  other_line, unrecognized, output_picture,
}

-- The frame numbers that a log gives out, in its order.
unfoldable pub output_order : List LogLine → List ℕ
output_order [] = []
output_order (other_line ∷ lines) = output_order lines
output_order (unrecognized ∷ lines) = output_order lines
output_order (output_picture name f ∷ lines) = f ∷ output_order lines

read_lines-order :
    (lines : List LogLine) (names : List String) (ids : List ℕ)
    → read_lines lines ≡ ok (names, ids)
    → ids ≡ output_order lines
unfolding read_lines output_order
read_lines-order [] names ids ran = ground arith
read_lines-order (other_line ∷ lines) names ids ran = read_lines-order lines names ids ran
read_lines-order (unrecognized ∷ lines) names ids ran = ground arith
read_lines-order (output_picture name f ∷ lines) names ids ran =
    elim (Result-cases (read_lines lines)) [
      | inr (x, bad) ↦ ground arith
      | inl ((ns, is), a) ↦ ground (arith, read_lines-order lines ns is a)
    ]

-- An entry of the index is a picture, under its own number.
abbrev IsIndexed : List Association → ℕ × Association → Type 0
IsIndexed pictures (k, a) = (a.system_frame_number ≡ k) × IsIn pictures a

-- The frames are pictures, in the order of a list of numbers, from an index on.
pub data Outputs (pictures : List Association) : ℕ → List ℕ → List Frame → Type 0 where
  no_output : {i : ℕ} → Outputs pictures i [] []
  output :
      {i n : ℕ} {f : Frame} {ns : List ℕ} {fs : List Frame} (a : Association)
      → IsIn pictures a
      → a.system_frame_number ≡ n
      → f ≡ record {
        output_index = i;
        pic = a.pic;
        poc = a.poc;
        system_frame_number = a.system_frame_number;
      }
      → Outputs pictures (suc i) ns fs
      → Outputs pictures i (n ∷ ns) (f ∷ fs)

read_each-Outputs :
    (pictures : List Association) (d : Dict Association) (i : ℕ) (ns : List ℕ) (fs : List Frame)
    → All (IsIndexed pictures) d
    → read_each (frame_of d) i ns ≡ ok fs
    → Outputs pictures i ns fs
unfolding read_each
read_each-Outputs pictures d i [] fs h ran = subst (Outputs pictures i []) (ground arith) no_output
read_each-Outputs pictures d i (n ∷ ns) fs h ran = elim (Option-cases (lookup n d)) [
  | inl bad ↦ ground arith
  | inr (a, found) ↦ elim (Result-cases (read_each (frame_of d) (suc i) ns)) [
    | inr (x, bad) ↦ ground arith
    | inl (rest, b) ↦
        let (number, of) = lookup-All (IsIndexed pictures) n d a found h in
        subst (Outputs pictures i (n ∷ ns)) (ground arith)
          (output a of number refl (read_each-Outputs pictures d (suc i) ns rest h b))
  ]
]

-- Every number that the pictures have is among the outputs.
abbrev pub is_covered : List ℕ → Association → Bool
is_covered ids a = mem a.system_frame_number ids

mem_keys-put :
    (ids : List ℕ) (k : ℕ) (v : Association) (d : Dict Association)
    → all (λ (e : ℕ × Association). mem e.0 ids) (put k v d) ≡ true
    → (mem k ids ≡ true) × (all (λ (e : ℕ × Association). mem e.0 ids) d ≡ true)
unfolding put
mem_keys-put ids k v [] h = (ground arith, refl)
mem_keys-put ids k v ((i, w) ∷ d) h = elim (Bool-cases (i == k)) [
  | inl at ↦ (ground (arith, eq_of_== i k), ground (arith, eq_of_== i k))
  | inr off ↦ let ih = mem_keys-put ids k v d (ground arith) in (ih.0, ground arith)
]

index_by-covered :
    (ids : List ℕ) (d : Dict Association) (rest : List Association)
    → all (λ (e : ℕ × Association). mem e.0 ids) (index_by frame_number d rest) ≡ true
    → (all (is_covered ids) rest ≡ true) × (all (λ (e : ℕ × Association). mem e.0 ids) d ≡ true)
unfolding index_by
index_by-covered ids d [] h = (refl, h)
index_by-covered ids d (a ∷ rest) h =
    let (covered, keys) = index_by-covered ids (put a.system_frame_number a d) rest h in
    let (here, below) = mem_keys-put ids a.system_frame_number a d keys in
    (rw (here, covered) refl, below)

-- The pictures under their numbers.
with_numbers :
    (pictures rest : List Association)
    → All (IsIn pictures) rest
    → All (λ a. IsIndexed pictures (a.system_frame_number, a)) rest
with_numbers pictures [] h = tt
with_numbers pictures (a ∷ rest) (at, h) = ((refl, at), with_numbers pictures rest h)

-- What passes the checks of an association.
associate-parts :
    (log : Log) (pictures : List Association) (decoded status : ℕ) (fs : List Frame)
    → associate log pictures decoded status ≡ ok fs
    → (names : List String) × (ids : List ℕ) × (read_lines log.lines ≡ ok (names, ids))
      × (no_repeats ids ≡ true)
      × (length ids ≡ length pictures)
      × (same_keys ids (index_by frame_number [] pictures) ≡ true)
      × (read_each (frame_of (index_by frame_number [] pictures)) 0 ids ≡ ok fs)
unfolding associate
associate-parts log pictures decoded status fs ran = elim (Result-cases (read_lines log.lines)) [
  | inr (x, bad) ↦ ground arith
  | inl ((names, ids), a) ↦ (names, ids, a, ground arith, ground arith, ground arith, ground arith)
]

-- The frames are the log's output pictures in the log's order and numbered from 0: each is a picture
-- with the frame number of its line, no number comes twice, there are as many as pictures, and each
-- picture's number is among them.
pub associate-Outputs :
    (log : Log) (pictures : List Association) (decoded status : ℕ) (fs : List Frame)
    → associate log pictures decoded status ≡ ok fs
    → Outputs pictures 0 (output_order log.lines) fs
      × (no_repeats (output_order log.lines) ≡ true)
      × (length (output_order log.lines) ≡ length pictures)
      × (all (is_covered (output_order log.lines)) pictures ≡ true)
associate-Outputs log pictures decoded status fs ran =
    let (names, ids, lines, distinct, count, keys, frames) =
      associate-parts log pictures decoded status fs ran in
    let indexed =
      index_by-All (IsIndexed pictures) frame_number [] pictures tt
        (with_numbers pictures pictures (IsIn-self pictures)) in
    let covered : all (is_covered ids) pictures ≡ true =
      (index_by-covered ids [] pictures (ground arith)).0 in
    rw (sym (read_lines-order log.lines names ids lines)) (
      read_each-Outputs pictures (index_by frame_number [] pictures) 0 ids fs indexed frames,
      distinct,
      count,
      covered,
    )
