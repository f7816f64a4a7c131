-- ===== src/Nal/Escape.antt =====
-- Emulation prevention: it can be undone, and leaves no start code inside a unit.
use omarchy_m1_video.Prelude.{
  ℕ, ◌+◌, ◌≤◌, ◌≡◌, refl, Bool, false, ◌&&◌, ◌||◌, [], ◌∷◌, arith, leb, ◌==◌, if◌then◌else◌,
}
use omarchy_m1_video.Nal.Stream.{Bytes, unescape, unescape_loop, escape, escape_loop}

unescape-escape_loop :
    (zero_run : ℕ) (bs : Bytes) → unescape_loop zero_run (escape_loop zero_run bs) ≡ bs
unfolding unescape_loop escape_loop
unescape-escape_loop zero_run [] = refl
unescape-escape_loop zero_run (b ∷ bs) = ground (
  arith,
  unescape-escape_loop (if b == 0 then zero_run + 1 else 0) bs,
  unescape-escape_loop (if b == 0 then 1 else 0) bs,
)

-- Removing the emulation prevention bytes that `escape` inserts gives the payload back.
pub unescape-escape : (rbsp : Bytes) → unescape (escape rbsp) ≡ rbsp
unfolding unescape escape
unescape-escape rbsp = unescape-escape_loop 0 rbsp

-- Three bytes in a row that a decoder would take for a start code or for its prefix.
unfoldable pub emulates : Bytes → Bool
emulates (x ∷ y ∷ z ∷ rest) = (x == 0 && (y == 0 && leb z 2)) || emulates (y ∷ z ∷ rest)
emulates _ = false

-- The bytes after `zero_run` zero bytes make no such row.
abbrev IsGuarded : ℕ → Bytes → Type 0
IsGuarded zero_run [] = Unit
IsGuarded zero_run (b ∷ bs) =
    (2 ≤ zero_run → 3 ≤ b) × IsGuarded (if b == 0 then zero_run + 1 else 0) bs

escape_loop-IsGuarded : (zero_run : ℕ) (bs : Bytes) → IsGuarded zero_run (escape_loop zero_run bs)
unfolding escape_loop
escape_loop-IsGuarded zero_run [] = tt
escape_loop-IsGuarded zero_run (b ∷ bs) = ground (
  arith,
  escape_loop-IsGuarded (if b == 0 then zero_run + 1 else 0) bs,
  escape_loop-IsGuarded (if b == 0 then 1 else 0) bs,
)

emulates-IsGuarded : (zero_run : ℕ) (bs : Bytes) → IsGuarded zero_run bs → emulates bs ≡ false
unfolding emulates
emulates-IsGuarded zero_run [] h = refl
emulates-IsGuarded zero_run (x ∷ []) h = refl
emulates-IsGuarded zero_run (x ∷ y ∷ []) h = refl
emulates-IsGuarded zero_run (x ∷ y ∷ z ∷ rest) h =
    ground (arith, emulates-IsGuarded (if x == 0 then zero_run + 1 else 0) (y ∷ z ∷ rest) h.1)

-- An escaped payload holds no two zero bytes in a row that are followed by a byte below 3.
pub emulates-escape : (rbsp : Bytes) → emulates (escape rbsp) ≡ false
unfolding escape
emulates-escape rbsp = emulates-IsGuarded 0 (escape rbsp) (escape_loop-IsGuarded 0 rbsp)
