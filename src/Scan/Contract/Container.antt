-- ===== src/Scan/Contract/Container.antt =====
-- The traversal of a WebM file ends, and reads inside the file.
use omarchy_m1_video.Prelude.{
  ℕ, zero, suc, ◌+◌, ◌*◌, ◌-◌, ◌≤◌, ◌<◌, ◌≡◌, ◌≢◌, Bool, true, false, some, List, [], ◌∷◌, arith,
  length, get_elem?, inl, inr, Option-cases, Bool-cases, leb, take,
}
use omarchy_m1_video.Exec.{ok, err, Result-cases}
use omarchy_m1_video.Scan.Container.{
  no_rounds, vint_length, vint_sized, vint, block_at, block_payload, element, webm_loop,
  webm_first_frame, is_block, is_master,
}

vint_length_pos : (left len first n : ℕ) → 1 ≤ len → vint_length left len first ≡ some n → 1 ≤ n
unfolding vint_length
vint_length_pos zero len first n p h = cc
vint_length_pos (suc left) len first n p h = ground (arith, vint_length_pos left (suc len) first n)

-- A position that is read moves on.
vint-moves :
    (data_ : List ℕ) (pos : ℕ) (keep : Bool) (v next : ℕ)
    → vint data_ pos keep ≡ ok (v, next)
    → pos < next
unfolding vint vint_sized
vint-moves data_ pos keep v next h = elim (Option-cases (get_elem? data_ pos)) [
  | inl p ↦ absurd (ground arith)
  | inr (first, p) ↦ elim (Option-cases (vint_length 8 1 first)) [
    | inl q ↦ absurd (ground arith)
    | inr (len, q) ↦ ground (arith, vint_length_pos 8 1 first len (omega arith) q)
  ]
]

vint-ne : (data_ : List ℕ) (pos : ℕ) (keep : Bool) → vint data_ pos keep ≢ err no_rounds
unfolding vint vint_sized
vint-ne data_ pos keep h = ground arith

element-ne : (data_ : List ℕ) (pos end_ : ℕ) → element data_ pos end_ ≢ err no_rounds
unfolding element
element-ne data_ pos end_ h = elim (Result-cases (vint data_ pos true)) [
  | inr (e, p) ↦ ground (arith, vint-ne data_ pos true)
  | inl ((eid, next), p) ↦ ground (arith, vint-ne data_ next false)
]

-- An element's content lies after its first byte, and in the range that holds the element.
element-inside :
    (data_ : List ℕ) (pos end_ eid content size : ℕ)
    → element data_ pos end_ ≡ ok (eid, content, size)
    → (pos < content) × (content ≤ end_) × (size ≤ end_ - content)
unfolding element
element-inside data_ pos end_ eid content size h = elim (Result-cases (vint data_ pos true)) [
  | inr (e, p) ↦ absurd (ground arith)
  | inl ((id, next), p) ↦ elim (Result-cases (vint data_ next false)) [
    | inr (e, q) ↦ absurd (ground arith)
    | inl ((n, start), q) ↦
        let after_id : pos < next = vint-moves data_ pos true id next p in
        let after_size : next < start = vint-moves data_ next false n start q in
        (ground arith, ground arith, ground arith)
  ]
]

block_payload-ne : (data_ : List ℕ) (pos end_ : ℕ) → block_payload data_ pos end_ ≢ err no_rounds
unfolding block_payload block_at
block_payload-ne data_ pos end_ h = elim (Result-cases (vint (take end_ data_) pos false)) [
  | inr (e, p) ↦ ground (arith, vint-ne (take end_ data_) pos false)
  | inl ((track, bp), p) ↦ ground arith
]

-- The rounds that the ranges of a stack can take.
unfoldable rounds : List (ℕ × ℕ) → ℕ
rounds [] = 0
rounds ((pos, end_) ∷ stack) = (2 * (end_ - pos) + 1) + rounds stack

webm_loop-ne :
    (left : ℕ) (data_ : List ℕ) (stack : List (ℕ × ℕ))
    → rounds stack < left
    → webm_loop left data_ stack ≢ err no_rounds
unfolding webm_loop rounds
webm_loop-ne zero data_ stack h = absurd (omega arith)
webm_loop-ne (suc left) data_ [] h = λ p. cc
webm_loop-ne (suc left) data_ ((pos, end_) ∷ stack) h = elim (Bool-cases (leb end_ pos)) [
  | inl done ↦ rw done (webm_loop-ne left data_ stack (omega arith))
  | inr more ↦ elim (Result-cases (element data_ pos end_)) [
    | inr (e, p) ↦ rw (more, p) (λ q. element-ne data_ pos end_ (cc))
    | inl ((eid, content, size), p) ↦
        let (moved, inside, fits) = element-inside data_ pos end_ eid content size p in
        let before : pos < end_ = ground arith in
        rw (more, p)
          (elim (Bool-cases (is_block eid)) [
            | inl block ↦ rw block (block_payload-ne data_ content (content + size))
            | inr other ↦ elim (Bool-cases (is_master eid)) [
              | inl master ↦
                  rw (other, master)
                    (webm_loop-ne left data_
                      ((content, content + size) ∷ (content + size, end_) ∷ stack) (omega arith))
              | inr plain ↦
                  rw (other, plain)
                    (webm_loop-ne left data_ ((content + size, end_) ∷ stack) (omega arith))
            ]
          ])
  ]
]

-- The traversal of any file ends with a payload or with one of the scanner's own errors: the rounds
-- that it is given, twice the file's length and three, are never used up.
pub webm_first_frame-ne : (data_ : List ℕ) → webm_first_frame data_ ≢ err no_rounds
unfolding webm_first_frame rounds
webm_first_frame-ne data_ =
    webm_loop-ne (2 * length data_ + 3) data_ ((0, length data_) ∷ []) (omega arith)
