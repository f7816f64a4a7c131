-- ===== src/Nal/Split.antt =====
-- Splitting a stream that `join_annexb` built gives its units back.
use omarchy_m1_video.Prelude.{
  ◌≡◌, refl, ap, ◌∙◌, sym, Bool, true, false, not, ◌||◌, List, [], ◌∷◌, ◌++◌, some, arith, ◌==◌,
  All, append_assoc, append-nil,
}
use omarchy_m1_video.Nal.Stream.{
  Bytes, rstrip, split_loop, split_annexb, join_annexb, emit, is_start, keep_nonempty,
}
use omarchy_m1_video.Nal.Escape.{emulates}

-- A start code inside a unit.
unfoldable pub has_start : Bytes → Bool
has_start (x ∷ y ∷ z ∷ rest) = is_start x y z || has_start (y ∷ z ∷ rest)
has_start _ = false

-- The last byte is there and is not zero.
unfoldable pub ends_nonzero : Bytes → Bool
ends_nonzero [] = false
ends_nonzero (x ∷ []) = not (x == 0)
ends_nonzero (x ∷ y ∷ rest) = ends_nonzero (y ∷ rest)

-- A unit of a stream: no start code inside, and no zero byte or nothing at its end.
abbrev pub IsUnit : Bytes → Type 0
IsUnit nal = (has_start nal ≡ false) × (ends_nonzero nal ≡ true)

-- A unit that `emulates` passes has no start code.
has_start-emulates : (nal : Bytes) → emulates nal ≡ false → has_start nal ≡ false
unfolding has_start emulates
has_start-emulates [] h = refl
has_start-emulates (x ∷ []) h = refl
has_start-emulates (x ∷ y ∷ []) h = refl
has_start-emulates (x ∷ y ∷ z ∷ rest) h = ground (arith, has_start-emulates (y ∷ z ∷ rest))

rstrip-append_zero : (nal : Bytes) → rstrip (nal ++ 0 ∷ []) ≡ rstrip nal
unfolding rstrip
rstrip-append_zero [] = refl
rstrip-append_zero (x ∷ nal) = rw (rstrip-append_zero nal)

rstrip-ends_nonzero : (nal : Bytes) → ends_nonzero nal ≡ true → rstrip nal ≡ nal
unfolding rstrip ends_nonzero
rstrip-ends_nonzero [] h = refl
rstrip-ends_nonzero (x ∷ []) h = ground arith
rstrip-ends_nonzero (x ∷ y ∷ rest) h = ground (arith, rstrip-ends_nonzero (y ∷ rest) h)

keep_unit :
    (nal : Bytes) (nals : List Bytes)
    → ends_nonzero nal ≡ true
    → keep_nonempty (rstrip nal) nals ≡ nal ∷ nals
unfolding ends_nonzero
keep_unit [] nals h = cc
keep_unit (x ∷ xs) nals h = rw (rstrip-ends_nonzero (x ∷ xs) h)

-- The loop walks over a unit up to the next start code, or to the end.
walk :
    (before nal : Bytes) (nals : List Bytes)
    → has_start nal ≡ false
    → ends_nonzero nal ≡ true
    → split_loop (some before) (nal ++ join_annexb nals)
      ≡ split_loop (some (before ++ nal)) (join_annexb nals)
unfolding split_loop join_annexb has_start ends_nonzero
walk before [] nals s e = cc
walk before (x ∷ []) [] s e = ap (λ b. emit (some b) []) (sym (append-nil _))
walk before (x ∷ []) (n ∷ nals) s e = ground arith
walk before (x ∷ y ∷ []) [] s e = ap (λ b. emit (some b) []) (sym (append-nil _))
walk before (x ∷ y ∷ []) (n ∷ nals) s e = ground (arith, append_assoc before (x ∷ []) (y ∷ []))
walk before (x ∷ y ∷ z ∷ rest) nals s e = ground (
  arith,
  walk (before ++ x ∷ []) (y ∷ z ∷ rest) nals,
  append_assoc before (x ∷ []) (y ∷ z ∷ rest),
)

-- From a whole unit on, the loop gives the unit and those that follow.
split_loop-join :
    (nal : Bytes) (nals : List Bytes)
    → IsUnit nal
    → All IsUnit nals
    → split_loop (some nal) (join_annexb nals) ≡ nal ∷ nals
unfolding split_loop join_annexb
split_loop-join nal [] u us = rw append-nil (keep_unit nal [] u.1)
split_loop-join nal (n ∷ nals) u us =
    rw (rstrip-append_zero, walk [] n nals us.0.0 us.0.1, split_loop-join n nals us.0 us.1)
      (keep_unit nal (n ∷ nals) u.1)

-- Splitting the stream of any units gives those units, in order.
pub split_annexb-join_annexb :
    (nals : List Bytes) → All IsUnit nals → split_annexb (join_annexb nals) ≡ nals
unfolding split_annexb split_loop join_annexb
split_annexb-join_annexb [] us = refl
split_annexb-join_annexb (n ∷ nals) us =
    walk [] n nals us.0.0 us.0.1 ∙ split_loop-join n nals us.0 us.1
