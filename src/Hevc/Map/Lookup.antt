-- ===== src/Hevc/Map/Lookup.antt =====
-- `kernel_lookup` of experiments/hevc-avd-map/model.py.
use omarchy_m1_video.Prelude.{
  ℕ, ◌^◌, ◌-◌, Bool, true, false, not, ◌&&◌, List, [], ◌∷◌, leb, ◌==◌, if◌then◌else◌, any, map,
}
use omarchy_m1_video.Exec.{Result, ok}
use omarchy_m1_video.Checked.{◌>>◌, need, check_each}
use omarchy_m1_video.Hevc.Map.Words.{Reason, integer, ambiguous_buffer_snapshot}

-- A buffer of the snapshot.
pub record Slot : Type 0 where
  pub index : ℕ
  pub copied_timestamp : Bool
  pub timestamp : ℕ

pub record Found : Type 0 where
  pub index : ℕ
  pub fallback : Bool

abbrev pub mem : ℕ → List ℕ → Bool
mem x xs = any (λ y. x == y) xs

-- `len(set(xs)) == len(xs)`
unfoldable pub no_repeats : List ℕ → Bool
no_repeats [] = true
no_repeats (x ∷ xs) = not (mem x xs) && no_repeats xs

-- `sorted(buffers, key=lambda b: b['index'])`
unfoldable pub insert : Slot → List Slot → List Slot
insert b [] = b ∷ []
insert b (c ∷ cs) = let rest = insert b cs in if leb b.index c.index then b ∷ c ∷ cs else c ∷ rest

unfoldable pub sorted : List Slot → List Slot
unfolding insert
sorted [] = []
sorted (b ∷ bs) = insert b (sorted bs)

abbrev pub is_match : ℕ → Slot → Bool
is_match timestamp b = b.copied_timestamp && b.timestamp == timestamp

unfoldable pub find_buffer : ℕ → ℕ → List Slot → Found
find_buffer timestamp destination [] = record { index = destination; fallback = true }
find_buffer timestamp destination (b ∷ bs) =
    let rest = find_buffer timestamp destination bs in
    if is_match timestamp b then record { index = b.index; fallback = false } else rest

abbrev pub check_buffer : Slot → Result Reason Unit
check_buffer b = do integer b.index 0 (2 ^ 32 - 1); integer b.timestamp 0 (2 ^ 64 - 1); ok tt

unfoldable pub kernel_lookup : List Slot → ℕ → ℕ → Result Reason Found
unfolding sorted no_repeats find_buffer
kernel_lookup buffers timestamp destination = do
  integer timestamp 0 (2 ^ 64 - 1)
  let indices = map (λ (b : Slot). b.index) buffers
  need (no_repeats indices && mem destination indices) ambiguous_buffer_snapshot
  check_each check_buffer buffers
  ok (find_buffer timestamp destination (sorted buffers))
