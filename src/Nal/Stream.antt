-- ===== src/Nal/Stream.antt =====
-- `split_annexb`, `join_annexb`, `unescape` and `escape` of
-- experiments/hevc-parameter-sets/hevcnal.py.
use omarchy_m1_video.Prelude.{
  ℕ, ◌+◌, Bool, true, false, ◌&&◌, Option, none, some, List, [], ◌∷◌, ◌++◌, leb, ◌==◌,
  if◌then◌else◌,
}

abbrev pub Bytes : Type 0
Bytes = List ℕ

abbrev pub start_code : Bytes
start_code = 0 ∷ 0 ∷ 0 ∷ 1 ∷ []

abbrev pub is_empty : Bytes → Bool
is_empty [] = true
is_empty (_ ∷ _) = false

-- nal.rstrip(b"\x00")
unfoldable pub rstrip : Bytes → Bytes
rstrip [] = []
rstrip (x ∷ xs) = let rest = rstrip xs in if x == 0 && is_empty rest then [] else x ∷ rest

-- `[nal for nal in nals if nal]`, for one more NAL unit in front
abbrev pub keep_nonempty : Bytes → List Bytes → List Bytes
keep_nonempty [] nals = nals
keep_nonempty (x ∷ xs) nals = (x ∷ xs) ∷ nals

-- The unit that ends here, if a start code was seen.
abbrev pub emit : Option Bytes → List Bytes → List Bytes
emit none nals = nals
emit (some nal) nals = keep_nonempty (rstrip nal) nals

abbrev pub push : Option Bytes → Bytes → Option Bytes
push none xs = none
push (some nal) xs = some (nal ++ xs)

abbrev pub is_start : ℕ → ℕ → ℕ → Bool
is_start x y z = x == 0 && (y == 0 && z == 1)

-- The loop over `i`: what is before the index since the last start code, and what is after it.
unfoldable pub split_loop : Option Bytes → Bytes → List Bytes
split_loop nal (x ∷ y ∷ z ∷ rest) =
    let found = emit nal (split_loop (some []) rest) in
    let next = split_loop (push nal (x ∷ [])) (y ∷ z ∷ rest) in
    if is_start x y z then found else next
split_loop nal rest = emit (push nal rest) []

unfoldable pub split_annexb : Bytes → List Bytes
unfolding split_loop
split_annexb data_ = split_loop none data_

unfoldable pub join_annexb : List Bytes → Bytes
join_annexb [] = []
join_annexb (nal ∷ nals) = (start_code ++ nal) ++ join_annexb nals

unfoldable pub unescape_loop : ℕ → Bytes → Bytes
unescape_loop zero_run [] = []
unescape_loop zero_run (b ∷ bs) =
    let dropped = unescape_loop 0 bs in
    let kept = b ∷ unescape_loop (if b == 0 then zero_run + 1 else 0) bs in
    if leb 2 zero_run && b == 3 then dropped else kept

unfoldable pub unescape : Bytes → Bytes
unfolding unescape_loop
unescape ebsp = unescape_loop 0 ebsp

unfoldable pub escape_loop : ℕ → Bytes → Bytes
escape_loop zero_run [] = []
escape_loop zero_run (b ∷ bs) =
    let guarded = leb 2 zero_run && leb b 3 in
    let run : ℕ = if guarded then 0 else zero_run in
    let rest = b ∷ escape_loop (if b == 0 then run + 1 else 0) bs in
    if guarded then 3 ∷ rest else rest

unfoldable pub escape : Bytes → Bytes
unfolding escape_loop
escape rbsp = escape_loop 0 rbsp
