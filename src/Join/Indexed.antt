-- ===== src/Join/Indexed.antt =====
-- What the checks of experiments/hevc-reference-content/same-run/join.py on rows and on the kernel's
-- evidence give at one row.
use omarchy_m1_video.Prelude.{
  ℕ, zero, suc, ◌+◌, ◌≡◌, ◌≢◌, inl, inr, refl, ◌∙◌, ap, subst, true, some, List, [], ◌∷◌, length,
  All, get_elem?, arith, eq_of_==, eq_of_eq_ℤ,
}
use omarchy_m1_video.Exec.{Result-cases, ok}
use omarchy_m1_video.Checked.{read_each}
use omarchy_m1_video.Dict.{lookup, lookup-All, index_by-All}
use omarchy_m1_video.Hevc.Record.{Request}
use omarchy_m1_video.Join.Evidence.{
  KernelEvidence, RefRow, check, counts_from, endpoints, two_rows, reference_pair, pictures_of,
}
use omarchy_m1_video.Join.Queues.{
  VaRow, OutputRow, read_output_row, parse_associations, same_projection,
}
use omarchy_m1_video.Join.Select.{index_outputs, output_number, check_projections}

-- The two endpoints of a picture in the kernel's snapshot, in the buffer that was captured: written
-- by the picture and completed, in one allocation.
pub record Lifetime (k : KernelEvidence) (picture capture allocation : ℕ) : Type 0 where
  pub start : RefRow
  pub done : RefRow
  pub only : endpoints picture k.reference_records ≡ start ∷ done ∷ []
  pub buffers : (start.buffer ≡ capture) × (done.buffer ≡ capture)
  pub writers : (start.writer ≡ picture) × (done.writer ≡ picture)
  pub completion : (start.completed ≡ 0) × (done.completed ≡ 1) × (done.result ≡ 5)
  pub allocations :
      (start.allocation ≡ allocation) × (done.allocation ≡ allocation) × (allocation ≢ 0)

two_rows-ok : (rows : List RefRow) (a b : RefRow) → two_rows rows ≡ ok (a, b) → rows ≡ a ∷ b ∷ []
two_rows-ok [] a b h = ground arith
two_rows-ok (x ∷ []) a b h = ground arith
two_rows-ok (x ∷ (y ∷ [])) a b h = ground arith
two_rows-ok (x ∷ (y ∷ (z ∷ zs))) a b h = ground arith

pub reference_pair-Lifetime :
    (k : KernelEvidence) (picture capture : ℕ) (start done : RefRow)
    → reference_pair k picture capture ≡ ok (start, done)
    → Lifetime k picture capture start.allocation
unfolding reference_pair
reference_pair-Lifetime k picture capture start done ran =
    elim (Result-cases (two_rows (endpoints picture k.reference_records))) [
      | inr (x, bad) ↦ ground arith
      | inl ((a, b), two) ↦ record {
        start = start;
        done = done;
        only = ground (arith, two_rows-ok (endpoints picture k.reference_records) a b two);
        buffers = (ground arith, ground arith);
        writers = (ground arith, ground arith);
        completion = (ground arith, ground arith, ground arith);
        allocations = (refl, ground arith, ground arith);
      }
    ]

-- The requests of checked evidence are numbered from 1.
counts_from-at :
    (first i : ℕ) (rs : List Request) (r : Request)
    → counts_from first (pictures_of rs) ≡ true
    → get_elem? rs i ≡ some r
    → r.pic ≡ first + i
unfolding counts_from
counts_from-at first i [] r h at = ground arith
counts_from-at first zero (x ∷ rs) r h at = ground (arith, eq_of_== x.pic first)
counts_from-at first (suc i) (x ∷ rs) r h at =
    omega (arith, counts_from-at (suc first) i rs r (ground arith) at)

pub check-at :
    (k : KernelEvidence) (i : ℕ) (r : Request)
    → check k ≡ ok tt
    → get_elem? k.requests i ≡ some r
    → r.pic ≡ suc i
unfolding check
check-at k i r ran at = omega (arith, counts_from-at 1 i k.requests r (ground arith) at)

-- A row of the queue that passes agrees with the kernel's request at its place.
pub check_projections-at :
    (rows : List VaRow) (rs : List Request) (i : ℕ) (row : VaRow)
    → check_projections rows rs ≡ ok tt
    → length rows ≡ length rs
    → get_elem? rows i ≡ some row
    → (r : Request) × (get_elem? rs i ≡ some r) × (same_projection row.request r ≡ true)
unfolding check_projections
check_projections-at [] rs i row ran same at = ground arith
check_projections-at (x ∷ rows) [] i row ran same at = ground arith
check_projections-at (x ∷ rows) (r ∷ rs) zero row ran same at = (r, refl, ground arith)
check_projections-at (x ∷ rows) (r ∷ rs) (suc i) row ran same at =
    check_projections-at rows rs i row (ground arith) (omega (arith, same)) at

pub same_projection-parts :
    (a b : Request)
    → same_projection a b ≡ true
    → (a.pic ≡ b.pic) × (a.target ≡ b.target) × (a.poc ≡ b.poc)
unfolding same_projection
same_projection-parts a b h = (ground arith, ground arith, ground (arith, eq_of_eq_ℤ a.poc b.poc))

-- The rows of an output association are numbered from an index on, each with a picture.
abbrev pub AreOutputs : ℕ → List OutputRow → Type 0
AreOutputs i [] = Unit
AreOutputs i (r ∷ rs) = (r.output_index ≡ i) × (r.pic ≢ 0) × AreOutputs (suc i) rs

read_each-AreOutputs :
    (expected i : ℕ) (xs rows : List OutputRow)
    → read_each (read_output_row expected) i xs ≡ ok rows
    → AreOutputs i rows
unfolding read_each
read_each-AreOutputs expected i [] rows ran = subst (AreOutputs i) {x = []} (ground arith) tt
read_each-AreOutputs expected i (x ∷ xs) rows ran =
    elim (Result-cases (read_each (read_output_row expected) (suc i) xs)) [
      | inr (w, bad) ↦ ground arith
      | inl (rest, b) ↦
          subst (AreOutputs i) {x = x ∷ rest} (ground arith)
            (ground arith, ground arith, read_each-AreOutputs expected (suc i) xs rest b)
    ]

pub parse_associations-AreOutputs :
    (document rows : List OutputRow) (expected : ℕ)
    → parse_associations document expected ≡ ok rows
    → AreOutputs 0 rows
unfolding parse_associations
parse_associations-AreOutputs document rows expected ran =
    elim (Result-cases (read_each (read_output_row expected) 0 document)) [
      | inr (x, bad) ↦ ground arith
      | inl (rest, b) ↦
          subst (AreOutputs 0) (ground arith) (read_each-AreOutputs expected 0 document rest b)
    ]

-- A row at the place of its index.
abbrev IsAt : List OutputRow → ℕ × OutputRow → Type 0
IsAt rows (i, r) = (get_elem? rows i ≡ some r) × (r.pic ≢ 0)

abbrev IsPlaced : ℕ → List OutputRow → OutputRow → Type 0
IsPlaced first rows r =
    (j : ℕ) × (r.output_index ≡ first + j) × (get_elem? rows j ≡ some r) × (r.pic ≢ 0)

IsPlaced-cons :
    (first : ℕ) (x : OutputRow) (rows rest : List OutputRow)
    → All (IsPlaced (suc first) rows) rest
    → All (IsPlaced first (x ∷ rows)) rest
IsPlaced-cons first x rows [] h = tt
IsPlaced-cons first x rows (r ∷ rest) ((j, i, at, nonzero), h) =
    ((suc j, omega (arith, i), at, nonzero), IsPlaced-cons first x rows rest h)

AreOutputs-IsPlaced :
    (first : ℕ) (rows : List OutputRow) → AreOutputs first rows → All (IsPlaced first rows) rows
AreOutputs-IsPlaced first [] h = tt
AreOutputs-IsPlaced first (r ∷ rows) (i, nonzero, h) = (
  (0, omega (arith, i), refl, nonzero),
  IsPlaced-cons first r rows rows (AreOutputs-IsPlaced (suc first) rows h),
)

IsPlaced-IsAt :
    (rows rest : List OutputRow)
    → All (IsPlaced 0 rows) rest
    → All (λ r. IsAt rows (r.output_index, r)) rest
IsPlaced-IsAt rows [] h = tt
IsPlaced-IsAt rows (r ∷ rest) ((j, i, at, nonzero), h) =
    ((ap (λ n. get_elem? rows n) (omega (arith, i)) ∙ at, nonzero), IsPlaced-IsAt rows rest h)

-- The index by outputs finds the row at an ordinal.
pub index_outputs-at :
    (rows : List OutputRow) (i : ℕ) (r : OutputRow)
    → AreOutputs 0 rows
    → lookup i (index_outputs rows) ≡ some r
    → (get_elem? rows i ≡ some r) × (r.pic ≢ 0)
index_outputs-at rows i r h found = lookup-All (IsAt rows) i (index_outputs rows) r found (
    index_by-All (IsAt rows) output_number [] rows tt
      (IsPlaced-IsAt rows rows (AreOutputs-IsPlaced 0 rows h)))
