-- ===== src/Nal/Reader.antt =====
-- The class Bits of experiments/hevc-parameter-sets/hevcnal.py, `ue_bits` and `u_bits`.
use omarchy_m1_video.Prelude.{
  ℕ, zero, suc, ◌+◌, ◌-◌, ◌*◌, ◌/◌, ◌%◌, ◌^◌, Bool, true, false, List, [], ◌∷◌, ◌++◌, ltb, ◌==◌,
  if◌then◌else◌, length, take, drop, replicate,
}
use omarchy_m1_video.Bits.{bit_length}
use omarchy_m1_video.Exec.{Result, ok, err, Exec, pure, gets, raise, modify, raise_if, ◌>>=◌, ◌>>◌}
use omarchy_m1_video.Nal.Stream.{Bytes}

pub data Error : Type 0 where
  value_error assertion index_error : Error

-- The payload bits before the stop bit, and the position of the next read.
pub record Bits : Type 0 where
  pub bits : List ℕ
  pub pos : ℕ

abbrev pub Action : Type 0 → Type 0
Action A = Exec Bits Error A

-- `[(value >> (n - 1 - k)) & 1 for k in range(n)]`
unfoldable pub digits : ℕ → ℕ → List ℕ
digits zero value = []
digits (suc n) value = (value / 2 ^ n) % 2 ∷ digits n value

unfoldable pub u_bits : ℕ → ℕ → Result Error (List ℕ)
u_bits value n = if ltb value (2 ^ n) then ok (digits n value) else err value_error

-- Values are non-negative here.
unfoldable pub ue_bits : ℕ → List ℕ
ue_bits value =
    let width = bit_length (value + 1) in replicate (width - 1) 0 ++ digits width (value + 1)

-- for b in rbsp: bits.extend((b >> (7 - k)) & 1 for k in range(8))
unfoldable pub unpack : Bytes → List ℕ
unpack [] = []
unpack (b ∷ bs) = digits 8 b ++ unpack bs

abbrev pub is_nil : List ℕ → Bool
is_nil [] = true
is_nil (_ ∷ _) = false

-- while bits and bits[-1] == 0: bits.pop()
unfoldable pub strip_zeros : List ℕ → List ℕ
strip_zeros [] = []
strip_zeros (x ∷ xs) =
    let rest = strip_zeros xs in
    elim rest [ [] ↦ (if x == 0 then [] else x ∷ []) | y ∷ ys ↦ x ∷ y ∷ ys ]

-- bits.pop() on what is not empty
unfoldable pub pop : List ℕ → List ℕ
pop [] = []
pop (x ∷ []) = []
pop (x ∷ y ∷ xs) = x ∷ pop (y ∷ xs)

-- Bits(rbsp)
unfoldable pub new_bits : Bytes → Result Error Bits
new_bits rbsp =
    let stripped = strip_zeros (unpack rbsp) in
    if is_nil stripped then err value_error else ok (record { bits = pop stripped; pos = 0 })

-- `v = (v << 1) | bit`, for each bit in turn
unfoldable pub value_from : ℕ → List ℕ → ℕ
value_from v [] = v
value_from v (b ∷ bs) = value_from (2 * v + b) bs

-- Bits.u
unfoldable pub u : ℕ → Action ℕ
u n = do
  s ← gets (λ s. s)
  raise_if (ltb (length s.bits) (s.pos + n)) value_error
  modify (λ s. record s { pos = s.pos + n })
  pure (value_from 0 (take n (drop s.pos s.bits)))

-- `while self.u(1) == 0`, with the zeros counted so far and the rounds left before the limit of 31
-- zeros is passed.
unfoldable pub count_zeros : ℕ → ℕ → Action ℕ
count_zeros zero count = raise value_error
count_zeros (suc left) count = do
  bit ← u 1
  if bit == 0
      then (if ltb 31 (count + 1) then raise value_error else count_zeros left (count + 1))
      else pure count

-- Bits.ue; the loop ends within 32 rounds.
unfoldable pub ue : Action ℕ
ue = do count ← count_zeros 32 0; v ← u count; pure (2 ^ count - 1 + v)

-- Bits.replace
unfoldable pub replace : ℕ → ℕ → List ℕ → Action Unit
replace start end_ new = modify (λ s. record s {
  bits = (take start s.bits ++ new) ++ drop end_ s.bits;
  pos = start + length new;
})

-- Groups of eight bits, each as one byte; the list that `to_rbsp` packs has whole groups only.
unfoldable pub pack : List ℕ → Bytes
pack (a ∷ b ∷ c ∷ d ∷ e ∷ f ∷ g ∷ h ∷ rest) =
    value_from 0 (a ∷ b ∷ c ∷ d ∷ e ∷ f ∷ g ∷ h ∷ []) ∷ pack rest
pack [] = []
pack short = value_from 0 short ∷ []

-- The zero bits that fill the last byte.
abbrev pub padding : List ℕ → List ℕ
padding bits = replicate ((8 - length bits % 8) % 8) 0

-- Bits.to_rbsp
unfoldable pub to_rbsp : List ℕ → Bytes
to_rbsp bits = let stopped = bits ++ 1 ∷ [] in pack (stopped ++ padding stopped)
