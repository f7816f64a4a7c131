-- ===== src/Checked.antt =====
-- Functions that only read and may raise: `require` and the reading of a list, for the checkers of
-- experiments/hevc-avd-map and experiments/hevc-controls.
use omarchy_m1_video.Prelude.{
  ℕ, suc, ◌≡◌, subst, Bool, true, false, Option, none, some, List, [], ◌∷◌, All, inl, inr, arith,
}
use omarchy_m1_video.Exec.{Result, Result-cases, ok, err}

module _ {ℓ} {E A B : Type ℓ} where
  infixl 10 ◌>>=◌ ◌>>◌
  abbrev pub ◌>>=◌ : Result E A → (A → Result E B) → Result E B
  ok a >>= f = f a
  err e >>= f = err e

  abbrev pub ◌>>◌ : Result E A → Result E B → Result E B
  m >> k = m >>= λ _. k

module _ {E : Type 0} where
  -- `require(condition, reason)`
  abbrev pub need : Bool → E → Result E Unit
  need true e = ok tt
  need false e = err e

module _ {E A : Type 0} where
  -- A value that the next check needs, such as the one at a key or an index.
  abbrev pub present : Option A → E → Result E A
  present none e = err e
  present (some a) e = ok a

  -- `for x in xs: check(x)`
  unfoldable pub check_each : (A → Result E Unit) → List A → Result E Unit
  check_each check [] = ok tt
  check_each check (x ∷ xs) = check x >> check_each check xs

module _ {E A B : Type 0} where
  -- `[read(i, x) for i, x in enumerate(xs, start)]`
  unfoldable pub read_each : (ℕ → A → Result E B) → ℕ → List A → Result E (List B)
  read_each read i [] = ok []
  read_each read i (x ∷ xs) = do b ← read i x; bs ← read_each read (suc i) xs; ok (b ∷ bs)

  -- What each reading promises of its result holds of all results.
  pub read_each-All :
      (P : B → Type 0) (read : ℕ → A → Result E B)
      → ((i : ℕ) (x : A) (y : B) → read i x ≡ ok y → P y)
      → (i : ℕ) (xs : List A) (ys : List B) → read_each read i xs ≡ ok ys
      → All P ys
  unfolding read_each
  read_each-All P read each i [] ys ran = subst (All P) {x = []} (ground arith) tt
  read_each-All P read each i (x ∷ xs) ys ran = elim (Result-cases (read i x)) [
    | inr (w, bad) ↦ ground arith
    | inl (y, a) ↦ elim (Result-cases (read_each read (suc i) xs)) [
      | inr (w, bad) ↦ ground arith
      | inl (rest, b) ↦
          subst (All P) {x = y ∷ rest} (ground arith)
            (each i x y a, read_each-All P read each (suc i) xs rest b)
    ]
  ]
