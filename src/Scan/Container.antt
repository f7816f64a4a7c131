-- ===== src/Scan/Container.antt =====
-- `_vint`, `_webm_first_frame`, `_ivf_first_frame` and `first_frame` of tests/vp9-sub64-scan.py.
use omarchy_m1_video.Prelude.{
  ℕ, zero, suc, ◌+◌, ◌*◌, ◌-◌, ◌/◌, ◌%◌, ◌^◌, Bool, true, false, not, ◌&&◌, ◌||◌, Option, none,
  some, List, [], ◌∷◌, ltb, leb, ◌==◌, ◌!=◌, if◌then◌else◌, length, get_elem?, take, drop,
  or_default,
}
use omarchy_m1_video.Exec.{Result, ok, err}

-- The ValueErrors, by message; `no_rounds` is a traversal that is cut off.
pub data Fault : Type 0 where
  truncated_id invalid_width truncated_value overruns truncated_block laced no_block : Fault
  truncated_ivf invalid_ivf truncated_ivf_frame truncated_frame no_rounds : Fault

abbrev pub byte_at : List ℕ → ℕ → ℕ
byte_at data_ i = or_default (get_elem? data_ i) 0

-- `while not (first & (0x80 >> (length - 1)))`, with the rounds left until `length > 8`
unfoldable pub vint_length : ℕ → ℕ → ℕ → Option ℕ
vint_length zero len first = none
vint_length (suc left) len first =
    let next = vint_length left (suc len) first in
    if first / 2 ^ (8 - len) % 2 == 0 then next else some len

-- `for i in range(1, length): value = (value << 8) | data[pos + i]`
unfoldable pub vint_value : ℕ → List ℕ → ℕ
vint_value value [] = value
vint_value value (b ∷ bs) = vint_value (value * 256 + b) bs

unfoldable pub vint_sized : List ℕ → ℕ → Bool → ℕ → ℕ → Result Fault (ℕ × ℕ)
vint_sized data_ pos keep_marker first len =
    if ltb (length data_) (pos + len)
    then err truncated_value
    else ok (
      vint_value (if keep_marker then first else first % 2 ^ (8 - len))
          (take (len - 1) (drop (pos + 1) data_)),
      pos + len,
    )

-- The value, and the position after it.
unfoldable pub vint : List ℕ → ℕ → Bool → Result Fault (ℕ × ℕ)
vint data_ pos keep_marker = elim (get_elem? data_ pos) [
  | none ↦ err truncated_id
  | some first ↦ elim (vint_length 8 1 first) [
    | none ↦ err invalid_width
    | some len ↦ vint_sized data_ pos keep_marker first len
  ]
]

-- Segment, Cluster and BlockGroup; SimpleBlock and Block.
abbrev pub is_master : ℕ → Bool
is_master eid = eid == 408125543 || (eid == 524531317 || eid == 160)

abbrev pub is_block : ℕ → Bool
is_block eid = eid == 163 || eid == 161

-- The payload of a block whose track number ends at `bp`.
unfoldable pub block_at : List ℕ → ℕ → ℕ → Result Fault (List ℕ)
block_at data_ end_ bp =
    if ltb end_ (bp + 3)
    then err truncated_block
    else if byte_at data_ (bp + 2) / 2 % 4 != 0
    then err laced
    else ok (drop (bp + 3) (take end_ data_))

-- The payload of a block that starts at `pos` and ends before `end_`.
unfoldable pub block_payload : List ℕ → ℕ → ℕ → Result Fault (List ℕ)
block_payload data_ pos end_ = elim (vint (take end_ data_) pos false) [
  | err e ↦ err e
  | ok (_, bp) ↦ block_at data_ end_ bp
]

-- An element's id, and where its content begins and how long it is.
unfoldable pub element : List ℕ → ℕ → ℕ → Result Fault (ℕ × ℕ × ℕ)
element data_ pos end_ = elim (vint data_ pos true) [
  | err e ↦ err e
  | ok (eid, after_id) ↦ elim (vint data_ after_id false) [
    | err e ↦ err e
    | ok (size, content) ↦
        if ltb end_ content || ltb (end_ - content) size
        then err overruns
        else ok (eid, content, size)
  ]
]

-- The loops over the stack of ranges, with the rounds left: a round takes the element at the head
-- range's position, or drops the range when it is done.
unfoldable pub webm_loop : ℕ → List ℕ → List (ℕ × ℕ) → Result Fault (List ℕ)
webm_loop zero data_ stack = err no_rounds
webm_loop (suc left) data_ [] = err no_block
webm_loop (suc left) data_ ((pos, end_) ∷ stack) =
    let popped = webm_loop left data_ stack in
    let found = element data_ pos end_ in
    if leb end_ pos then popped else elim found [
      | err e ↦ err e
      | ok (eid, content, size) ↦
          let entered =
            webm_loop left data_ ((content, content + size) ∷ (content + size, end_) ∷ stack) in
          let passed = webm_loop left data_ ((content + size, end_) ∷ stack) in
          if is_block eid
          then block_payload data_ content (content + size)
          else if is_master eid
          then entered
          else passed
    ]

unfoldable pub webm_first_frame : List ℕ → Result Fault (List ℕ)
webm_first_frame data_ = webm_loop (2 * length data_ + 3) data_ ((0, length data_) ∷ [])

-- int.from_bytes(..., 'little')
unfoldable pub little : List ℕ → ℕ
little [] = 0
little (b ∷ bs) = b + 256 * little bs

abbrev pub slice : List ℕ → ℕ → ℕ → List ℕ
slice data_ start end_ = drop start (take end_ data_)

abbrev pub starts_with : List ℕ → List ℕ → Bool
starts_with [] data_ = true
starts_with (x ∷ xs) [] = false
starts_with (x ∷ xs) (y ∷ ys) = x == y && starts_with xs ys

unfoldable pub ivf_first_frame : List ℕ → Result Fault (List ℕ)
ivf_first_frame data_ =
    let hdr = little (slice data_ 6 8) in
    let size = little (slice data_ hdr (hdr + 4)) in
    let frame = slice data_ (hdr + 12) (hdr + 12 + size) in
    if ltb (length data_) 32
    then err truncated_ivf
    else if ltb hdr 32 || not (starts_with (86 ∷ 80 ∷ 57 ∷ 48 ∷ []) (drop 8 data_))
    then err invalid_ivf
    else if ltb (length data_) (hdr + 12)
    then err truncated_ivf_frame
    else if length frame != size
    then err truncated_frame
    else ok frame

unfoldable pub first_frame : List ℕ → Result Fault (List ℕ)
first_frame data_ =
    if starts_with (26 ∷ 69 ∷ 223 ∷ 163 ∷ []) data_
    then webm_first_frame data_
    else if starts_with (68 ∷ 75 ∷ 73 ∷ 70 ∷ []) data_
    then ivf_first_frame data_
    else ok data_
