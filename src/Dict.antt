-- ===== src/Dict.antt =====
-- A Python dict keyed by ints, in insertion order.
use omarchy_m1_video.Prelude.{
  ℕ, suc, ◌+◌, ◌≤◌, ◌≡◌, refl, Bool, false, Option, none, some, List, [], ◌∷◌, arith, ◌==◌,
  if◌then◌else◌, is_some, any, length, All, get_elem?, subst, Bool-cases, inl, inr, eq_of_==,
}

abbrev pub Dict {ℓ} : Type ℓ → Type ℓ
Dict V = List (ℕ × V)

module _ {ℓ} {V : Type ℓ} where
  -- `d.get(k)`
  unfoldable pub lookup : ℕ → Dict V → Option V
  lookup k [] = none
  lookup k ((j, v) ∷ d) = if j == k then some v else lookup k d

  -- `k in d`
  abbrev pub contains : ℕ → Dict V → Bool
  contains k d = is_some (lookup k d)

  -- `d[k] = v`
  unfoldable pub put : ℕ → V → Dict V → Dict V
  put k v [] = (k, v) ∷ []
  put k v ((j, w) ∷ d) = if j == k then (k, v) ∷ d else (j, w) ∷ put k v d

  -- `del d[k]`
  unfoldable pub remove : ℕ → Dict V → Dict V
  remove k [] = []
  remove k ((j, w) ∷ d) = let rest = remove k d in if j == k then rest else (j, w) ∷ rest

  -- every value changed in place
  unfoldable pub map_values : (V → V) → Dict V → Dict V
  map_values f [] = []
  map_values f ((j, w) ∷ d) = (j, f w) ∷ map_values f d

  abbrev pub map_found : (V → V) → Option V → Option V
  map_found f none = none
  map_found f (some v) = some (f v)

  -- `any(p(v) for v in d.values())`
  abbrev pub any_value : (V → Bool) → Dict V → Bool
  any_value p d = any (λ e. p e.1) d

  pub lookup-put :
      (k j : ℕ) (v : V) (d : Dict V)
      → lookup j (put k v d) ≡ (if k == j then some v else lookup j d)
  unfolding lookup put
  lookup-put k j v [] = refl
  lookup-put k j v ((i, w) ∷ d) = ground (arith, lookup-put k j v d)

  pub lookup-remove :
      (k j : ℕ) (d : Dict V) → lookup j (remove k d) ≡ (if k == j then none else lookup j d)
  unfolding lookup remove
  lookup-remove k j [] = ground arith
  lookup-remove k j ((i, w) ∷ d) = ground (arith, lookup-remove k j d)

  pub lookup-map_values :
      (f : V → V) (k : ℕ) (d : Dict V) → lookup k (map_values f d) ≡ map_found f (lookup k d)
  unfolding lookup map_values
  lookup-map_values f k [] = refl
  lookup-map_values f k ((i, w) ∷ d) = ground (arith, lookup-map_values f k d)

  pub length-put : (k : ℕ) (v : V) (d : Dict V) → length (put k v d) ≤ length d + 1
  unfolding put
  length-put k v [] = omega arith
  length-put k v ((i, w) ∷ d) = ground (arith, length-put k v d)

  -- Writing a key that is there adds no entry.
  pub length-put-some :
      (k : ℕ) (v : V) (d : Dict V) (w : V) → lookup k d ≡ some w → length (put k v d) ≡ length d
  unfolding put lookup
  length-put-some k v [] w h = ground arith
  length-put-some k v ((i, u) ∷ d) w h = ground (arith, length-put-some k v d w)

  pub length-remove : (k : ℕ) (d : Dict V) → length (remove k d) ≤ length d
  unfolding remove
  length-remove k [] = omega arith
  length-remove k ((i, w) ∷ d) = ground (arith, length-remove k d)

  pub length-remove-some :
      (k : ℕ) (d : Dict V) (v : V) → lookup k d ≡ some v → length (remove k d) + 1 ≤ length d
  unfolding remove lookup
  length-remove-some k [] v h = ground arith
  length-remove-some k ((i, w) ∷ d) v h =
      ground (arith, length-remove k d, length-remove-some k d v)

  -- Every value that a lookup finds fails a test that no value passes.
  pub lookup-any_value :
      (p : V → Bool) (k : ℕ) (d : Dict V) (v : V)
      → any_value p d ≡ false
      → lookup k d ≡ some v
      → p v ≡ false
  unfolding lookup
  lookup-any_value p k [] v no_value found = ground arith
  lookup-any_value p k ((i, w) ∷ d) v no_value found = ground (arith, lookup-any_value p k d v)

  -- What holds of all items holds of the one that is found.
  pub lookup-All :
      (P : ℕ × V → Type 0) (k : ℕ) (d : Dict V) (v : V) → lookup k d ≡ some v → All P d → P (k, v)
  unfolding lookup
  lookup-All P k [] v found h = ground arith
  lookup-All P k ((i, w) ∷ d) v found (p, h) = elim (Bool-cases (i == k)) [
    | inl at ↦ subst P {x = (i, w)} (ground (arith, eq_of_== i k)) p
    | inr off ↦ lookup-All P k d v (ground arith) h
  ]

  pub put-All :
      (P : ℕ × V → Type 0) (k : ℕ) (v : V) (d : Dict V) → P (k, v) → All P d → All P (put k v d)
  unfolding put
  put-All P k v [] p h = (p, tt)
  put-All P k v ((i, w) ∷ d) p (q, h) = elim (Bool-cases (i == k)) [
    | inl at ↦ rw at (p, h)
    | inr off ↦ rw off (q, put-All P k v d p h)
  ]

  -- `{key(v): v for v in vs}`, added to a dict: of two values with one key the later stays.
  unfoldable pub index_by : (V → ℕ) → Dict V → List V → Dict V
  index_by key d [] = d
  index_by key d (v ∷ vs) = index_by key (put (key v) v d) vs

  pub index_by-All :
      (P : ℕ × V → Type 0) (key : V → ℕ) (d : Dict V) (vs : List V)
      → All P d
      → All (λ v. P (key v, v)) vs
      → All P (index_by key d vs)
  unfolding index_by
  index_by-All P key d [] h g = h
  index_by-All P key d (v ∷ vs) h (p, g) =
      index_by-All P key (put (key v) v d) vs (put-All P (key v) v d p h) g

  -- A value at some place of a list.
  abbrev pub IsIn : List V → V → Type ℓ
  IsIn vs v = (i : ℕ) × (get_elem? vs i ≡ some v)

  IsIn-cons : (w : V) (vs rest : List V) → All (IsIn vs) rest → All (IsIn (w ∷ vs)) rest
  IsIn-cons w vs [] h = tt
  IsIn-cons w vs (v ∷ rest) ((i, at), h) = ((suc i, at), IsIn-cons w vs rest h)

  pub IsIn-self : (vs : List V) → All (IsIn vs) vs
  IsIn-self [] = tt
  IsIn-self (v ∷ vs) = ((0, refl), IsIn-cons v vs vs (IsIn-self vs))
