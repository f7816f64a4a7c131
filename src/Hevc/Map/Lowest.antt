-- ===== src/Hevc/Map/Lowest.antt =====
-- Which buffer `kernel_lookup` of experiments/hevc-avd-map/model.py finds.
use omarchy_m1_video.Prelude.{
  ℕ, ◌≤◌, ◌≡◌, refl, Bool, true, false, not, ◌&&◌, ◌||◌, List, [], ◌∷◌, leb, ◌==◌, if◌then◌else◌,
  any, all, arith,
}
use omarchy_m1_video.Exec.{ok}
use omarchy_m1_video.Hevc.Map.Lookup.{
  Slot, Found, insert, sorted, is_match, find_buffer, kernel_lookup,
}

any-insert : (p : Slot → Bool) (b : Slot) (bs : List Slot) → any p (insert b bs) ≡ (p b || any p bs)
unfolding insert
any-insert p b [] = refl
any-insert p b (c ∷ cs) = ground (arith, any-insert p b cs)

all-insert : (p : Slot → Bool) (b : Slot) (bs : List Slot) → all p (insert b bs) ≡ (p b && all p bs)
unfolding insert
all-insert p b [] = refl
all-insert p b (c ∷ cs) = ground (arith, all-insert p b cs)

any-sorted : (p : Slot → Bool) (bs : List Slot) → any p (sorted bs) ≡ any p bs
unfolding sorted
any-sorted p [] = refl
any-sorted p (b ∷ bs) = ground (arith, any-insert p b (sorted bs), any-sorted p bs)

all-sorted : (p : Slot → Bool) (bs : List Slot) → all p (sorted bs) ≡ all p bs
unfolding sorted
all-sorted p [] = refl
all-sorted p (b ∷ bs) = ground (arith, all-insert p b (sorted bs), all-sorted p bs)

abbrev is_after : ℕ → Slot → Bool
is_after i c = leb i c.index

unfoldable is_ordered : List Slot → Bool
is_ordered [] = true
is_ordered (b ∷ bs) = all (is_after b.index) bs && is_ordered bs

is_after-all :
    (i j : ℕ) (bs : List Slot) → i ≤ j → all (is_after j) bs ≡ true → all (is_after i) bs ≡ true
is_after-all i j [] le h = refl
is_after-all i j (b ∷ bs) le h = ground (arith, is_after-all i j bs le)

insert-ordered :
    (b : Slot) (bs : List Slot) → is_ordered bs ≡ true → is_ordered (insert b bs) ≡ true
unfolding insert is_ordered
insert-ordered b [] h = refl
insert-ordered b (c ∷ cs) h = ground (
  arith,
  insert-ordered b cs,
  is_after-all b.index c.index cs,
  all-insert (is_after c.index) b cs,
)

sorted-ordered : (bs : List Slot) → is_ordered (sorted bs) ≡ true
unfolding sorted is_ordered
sorted-ordered [] = refl
sorted-ordered (b ∷ bs) = insert-ordered b (sorted bs) (sorted-ordered bs)

-- A buffer with the copied timestamp has the index that was found, and no such buffer has a lower one.
abbrev pub is_lowest : ℕ → List Slot → ℕ → Bool
is_lowest timestamp bs i =
    any (λ b. is_match timestamp b && b.index == i) bs
    && all (λ b. not (is_match timestamp b) || leb i b.index) bs

-- A hit is the lowest index; on a miss the destination stands in.
abbrev pub is_answer : List Slot → ℕ → ℕ → Found → Bool
is_answer bs timestamp destination f =
    if f.fallback
    then f.index == destination && not (any (is_match timestamp) bs)
    else is_lowest timestamp bs f.index

find_buffer-miss :
    (t d : ℕ) (bs : List Slot)
    → any (is_match t) bs ≡ false
    → find_buffer t d bs ≡ record { index = d; fallback = true }
unfolding find_buffer
find_buffer-miss t d [] h = refl
find_buffer-miss t d (b ∷ bs) h = ground (arith, find_buffer-miss t d bs)

all-after :
    (t i : ℕ) (bs : List Slot)
    → all (is_after i) bs ≡ true
    → all (λ b. not (is_match t b) || leb i b.index) bs ≡ true
all-after t i [] h = refl
all-after t i (b ∷ bs) h = ground (arith, all-after t i bs)

find_buffer-answer :
    (t d : ℕ) (bs : List Slot) → is_ordered bs ≡ true → is_answer bs t d (find_buffer t d bs) ≡ true
unfolding find_buffer is_ordered
find_buffer-answer t d [] h = ground arith
find_buffer-answer t d (b ∷ bs) h =
    ground (arith, find_buffer-answer t d bs, all-after t b.index bs)

sorted-answer :
    (t d : ℕ) (bs : List Slot) (f : Found) → is_answer (sorted bs) t d f ≡ is_answer bs t d f
sorted-answer t d bs f =
    rw
      (
        any-sorted (is_match t) bs,
        any-sorted (λ b. is_match t b && b.index == f.index) bs,
        all-sorted (λ b. not (is_match t b) || leb f.index b.index) bs,
      )
      refl

-- A lookup that returns gives the lowest index of a buffer with the copied timestamp, or, when no
-- buffer has it, the destination and says so.
pub kernel_lookup-lowest :
    (bs : List Slot) (t d : ℕ) (f : Found) → kernel_lookup bs t d ≡ ok f → is_answer bs t d f ≡ true
unfolding kernel_lookup
kernel_lookup-lowest bs t d f ran =
    ground (arith, find_buffer-answer t d (sorted bs), sorted-ordered bs, sorted-answer t d bs f)
