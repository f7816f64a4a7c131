-- ===== src/Interlace/Reader.antt =====
-- BitReader, `strip_epb` and `nals` of tests/h264-interlace-scan.py.
use omarchy_m1_video.Prelude.{
  ℕ, zero, suc, ◌+◌, ◌*◌, ◌-◌, ◌/◌, ◌%◌, ◌^◌, Bool, false, ◌&&◌, Option, none, some, List, [], ◌∷◌,
  ◌++◌, ltb, leb, ◌==◌, if◌then◌else◌, get_elem?,
}
use omarchy_m1_video.Exec.{Exec, pure, gets, raise, or_raise, modify, ◌>>=◌, ◌>>◌}

pub data Caught : Type 0 where
  caught : Caught

pub record Reader : Type 0 where
  pub data_ : List ℕ
  pub pos : ℕ

abbrev pub Read : Type 0 → Type 0
Read A = Exec Reader Caught A

-- `(data[pos >> 3] >> (7 - (pos & 7))) & 1`
unfoldable pub bit : Read ℕ
bit = do
  r ← gets (λ r. r)
  byte ← or_raise (get_elem? r.data_ (r.pos / 8)) caught
  modify (λ r. record r { pos = r.pos + 1 })
  pure (byte / 2 ^ (7 - r.pos % 8) % 2)

unfoldable pub bits_loop : ℕ → ℕ → Read ℕ
bits_loop zero v = pure v
bits_loop (suc n) v = do b ← bit; bits_loop n (2 * v + b)

unfoldable pub bits : ℕ → Read ℕ
unfolding bits_loop
bits n = bits_loop n 0

-- `while bit() == 0`, with the rounds left before 32 zeros are passed.
unfoldable pub zeros_loop : ℕ → ℕ → Read ℕ
zeros_loop zero z = raise caught
zeros_loop (suc left) z = do
  b ← bit
  if b == 0 then (if ltb 32 (z + 1) then raise caught else zeros_loop left (z + 1)) else pure z

unfoldable pub ue : Read ℕ
ue = do z ← zeros_loop 33 0; v ← bits z; pure (2 ^ z - 1 + v)

-- `(last + delta + 256) % 256` for the delta that `se` makes of a code: half of it, rounded up,
-- where it is odd, and else less half of it, which is 255 times the half modulo 256.
unfoldable pub next_scale : ℕ → ℕ → ℕ
next_scale last k =
    if k % 2 == 1 then (last + (k + 1) / 2 + 256) % 256 else (last + 255 * (k / 2) + 256) % 256

-- The rounds of `skip_scaling_list` that are left.
unfoldable pub skip_scaling_list : ℕ → ℕ → ℕ → Read Unit
skip_scaling_list zero last nxt = pure tt
skip_scaling_list (suc left) last nxt =
    if nxt == 0
    then skip_scaling_list left last 0
    else ue >>= λ k.
        if next_scale last k == 0
        then skip_scaling_list left last 0
        else skip_scaling_list left (next_scale last k) (next_scale last k)

abbrev pub is_zero : Option ℕ → Bool
is_zero none = false
is_zero (some b) = b == 0

abbrev pub starts_low : List ℕ → Bool
starts_low [] = false
starts_low (b ∷ bs) = leb b 3

-- `strip_epb`, with the two bytes before the next one.
unfoldable pub strip_from : Option ℕ → Option ℕ → List ℕ → List ℕ
strip_from before last [] = []
strip_from before last (b ∷ bs) =
    let rest = strip_from last (some b) bs in
    if is_zero before && (is_zero last && (b == 3 && starts_low bs)) then rest else b ∷ rest

unfoldable pub strip_epb : List ℕ → List ℕ
unfolding strip_from
strip_epb p = strip_from none none p

-- `nal_unit_type`, the header byte and the payload without emulation prevention.
pub record Unit_ : Type 0 where
  pub nal_type : ℕ
  pub header : ℕ
  pub rbsp : List ℕ

abbrev pub with_unit : Option (List ℕ) → List Unit_ → List Unit_
with_unit none units = units
with_unit (some []) units = units
with_unit (some (b ∷ bs)) units =
    record { nal_type = b % 32; header = b; rbsp = strip_epb (b ∷ bs) } ∷ units

abbrev pub extend : Option (List ℕ) → List ℕ → Option (List ℕ)
extend none bs = none
extend (some cur) bs = some (cur ++ bs)

-- The loop over `i`: the payload since the last start code, and what is after the index.
unfoldable pub nals_from : Option (List ℕ) → List ℕ → List Unit_
nals_from cur (x ∷ y ∷ z ∷ w ∷ rest) =
    let short = nals_from (some []) (w ∷ rest) in
    let long = nals_from (some []) rest in
    let next = nals_from (extend cur (x ∷ [])) (y ∷ z ∷ w ∷ rest) in
    if x == 0 && (y == 0 && z == 1)
    then with_unit cur short
    else if x == 0 && (y == 0 && (z == 0 && w == 1))
    then with_unit cur long
    else next
nals_from cur (x ∷ y ∷ z ∷ []) =
    if x == 0 && (y == 0 && z == 1)
    then with_unit cur []
    else with_unit (extend cur (x ∷ y ∷ z ∷ [])) []
nals_from cur rest = with_unit (extend cur rest) []

unfoldable pub nals : List ℕ → List Unit_
unfolding nals_from
nals data_ = nals_from none data_
