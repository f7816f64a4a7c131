-- ===== src/Join/Text.antt =====
-- `_uint`, `_decimal` and `_hex` of experiments/hevc-reference-content/same-run/join.py, and the words
-- that a public name must not hold.
use Prim.Native.Char.{code}
use Prim.Native.String.{String, [], ◌∷◌}
use Prim.Native.Nat.{ℕ, suc, ◌+◌, ◌-◌, ◌*◌, ◌^◌}
use mathlib.Core.Bool.{Bool, true, false, not, ◌&&◌, ◌||◌}
use omarchy_m1_video.Prelude.{ltb, leb, ◌==◌, ◌!=◌, if◌then◌else◌}
use omarchy_m1_video.Exec.{Result, ok}
use omarchy_m1_video.Checked.{◌>>◌, need}

-- `0 <= value < 1 << bits`, and not zero where that is asked
abbrev pub uint : ℕ → ℕ → Result String ℕ
uint value bits = do need (ltb value (2 ^ bits)) "is not uint"; ok value

abbrev pub uint_nonzero : ℕ → ℕ → Result String ℕ
uint_nonzero value bits = do uint value bits; need (value != 0) "must be nonzero"; ok value

unfoldable pub all_chars : (ℕ → Bool) → String → Bool
all_chars p [] = true
all_chars p (c ∷ s) = p (code c) && all_chars p s

unfoldable pub count_chars : String → ℕ
count_chars [] = 0
count_chars (c ∷ s) = suc (count_chars s)

abbrev pub is_digit : ℕ → Bool
is_digit c = leb 48 c && leb c 57

abbrev pub is_hex_digit : ℕ → Bool
is_hex_digit c = is_digit c || leb 97 c && leb c 102

abbrev pub digit_value : ℕ → ℕ
digit_value c = if is_digit c then c - 48 else c - 87

-- `int(text, base)`, after the digits so far
unfoldable pub read_number : ℕ → ℕ → String → ℕ
read_number base acc [] = acc
read_number base acc (c ∷ s) = read_number base (acc * base + digit_value (code c)) s

-- `int(text, 16)`
abbrev pub from_hex : String → ℕ
from_hex s = read_number 16 0 s

unfoldable pub hex : String → ℕ → Result String String
unfolding all_chars count_chars
hex s digits = do
  need (all_chars is_hex_digit s && count_chars s == digits) "is not lowercase hexadecimal digits"
  ok s

unfoldable pub hex_nonzero : String → ℕ → Result String String
unfolding hex read_number
hex_nonzero s digits = do hex s digits; need (from_hex s != 0) "must be nonzero"; ok s

-- `str(int(text)) == text` for a text of digits
abbrev pub is_canonical : String → Bool
is_canonical [] = false
is_canonical (c ∷ []) = true
is_canonical (c ∷ (d ∷ s)) = code c != 48

unfoldable pub decimal : String → Bool → Result String ℕ
unfolding all_chars count_chars read_number
decimal s nonzero = do
  need (all_chars is_digit s && leb (count_chars s) 20) "is not canonical decimal"
  let number = read_number 10 0 s
  need (is_canonical s && ltb number (2 ^ 64) && (number != 0 || not nonzero))
      "is zero, oversized or noncanonical"
  ok number

-- Whether a letter is one of a word, once `lower` is applied to it.
abbrev pub same_letter : ℕ → ℕ → Bool
same_letter c w = c == w || leb 65 c && leb c 90 && c + 32 == w

unfoldable pub starts_with : String → String → Bool
starts_with [] s = true
starts_with (w ∷ ws) [] = false
starts_with (w ∷ ws) (c ∷ s) = same_letter (code c) (code w) && starts_with ws s

-- `word in name.lower()`
unfoldable pub has_word : String → String → Bool
unfolding starts_with
has_word word [] = false
has_word word (c ∷ s) = starts_with word (c ∷ s) || has_word word s

abbrev pub is_forbidden : String → Bool
is_forbidden name =
    has_word "timestamp" name
    || has_word "fd" name
    || has_word "dma" name
    || has_word "pointer" name
    || has_word "lease" name
    || has_word "bytes" name
