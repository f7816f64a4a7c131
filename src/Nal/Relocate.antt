-- ===== src/Nal/Relocate.antt =====
-- A read depends only on the bits from its position on.
use omarchy_m1_video.Prelude.{
  ℕ, zero, suc, ◌+◌, ◌-◌, ◌^◌, ◌≤◌, ◌≡◌, inl, inr, refl, ap, ◌∙◌, sym, subst, true, false, List, [],
  ◌∷◌, arith, length, take, drop, ltb, ◌==◌, Bool-cases, if◌then◌else◌,
}
use omarchy_m1_video.Exec.{Result, ok, err, pure, raise, continue, Result-cases, ◌>>=◌}
use omarchy_m1_video.Nal.Reader.{Error, value_error, Bits, Action, u, count_zeros, ue, value_from}

-- The same bits are ahead.
pub record IsAhead (s t : Bits) : Type 0 where
  pub in_left : s.pos ≤ length s.bits
  pub in_right : t.pos ≤ length t.bits
  pub same : drop s.pos s.bits ≡ drop t.pos t.bits

-- Two runs with the same result that end with the same bits ahead.
pub record IsSameRun {A : Type 0} (x y : Result Error A × Bits) : Type 0 where
  pub result : x.0 ≡ y.0
  pub ahead : IsAhead x.1 y.1

module _ {A B : Type 0} (f : A → Action B)
    (h : (a : A) (s t : Bits) → IsAhead s t → IsSameRun (f a s) (f a t)) where
  continue-IsSameRun :
      (p q : Result Error A) (s t : Bits)
      → p ≡ q
      → IsAhead s t
      → IsSameRun (continue p f s) (continue q f t)
  continue-IsSameRun (ok a) (ok b) s t e k = subst (λ c. IsSameRun (f a s) (f c t)) (cc) (h a s t k)
  continue-IsSameRun (err a) (err b) s t e k = record { result = cc; ahead = k }
  continue-IsSameRun (ok a) (err b) s t e k = cc
  continue-IsSameRun (err a) (ok b) s t e k = cc

  bind-IsSameRun :
      (m : Action A) (s t : Bits) → IsSameRun (m s) (m t) → IsSameRun ((m >>= f) s) ((m >>= f) t)
  bind-IsSameRun m s t r = continue-IsSameRun (m s).0 (m t).0 (m s).1 (m t).1 r.result r.ahead

length-drop : (n : ℕ) (bs : List ℕ) → length (drop n bs) ≡ length bs - n
length-drop zero bs = omega arith
length-drop (suc n) [] = omega arith
length-drop (suc n) (b ∷ bs) = omega (arith, length-drop n bs)

drop-nil : (n : ℕ) → drop {A = ℕ} n [] ≡ []
drop-nil zero = refl
drop-nil (suc n) = refl

drop-add : (m n : ℕ) (bs : List ℕ) → drop (m + n) bs ≡ drop n (drop m bs)
drop-add zero n bs = ap (λ k. drop k bs) (omega arith)
drop-add (suc m) n [] = drop-nil (suc m + n) ∙ sym (drop-nil n)
drop-add (suc m) n (b ∷ bs) =
    let e : suc m + n ≡ suc (m + n) = omega arith in rw e (drop-add m n bs)

pub u-IsSameRun : (n : ℕ) (s t : Bits) → IsAhead s t → IsSameRun (u n s) (u n t)
unfolding u
u-IsSameRun n s t k =
    let left = length-drop s.pos s.bits in
    let right = length-drop t.pos t.bits in
    let sizes : length (drop s.pos s.bits) ≡ length (drop t.pos t.bits) = ap length k.same in
    elim (Bool-cases (ltb (length s.bits) (s.pos + n))) [
      | inl short ↦
          let short' : ltb (length t.bits) (t.pos + n) ≡ true =
            ground (arith, left, right, sizes, k.in_left, k.in_right) in
          rw (short, short') (record { result = refl; ahead = k })
      | inr enough ↦
          let enough' : ltb (length t.bits) (t.pos + n) ≡ false =
            ground (arith, left, right, sizes, k.in_left, k.in_right) in
          rw (enough, enough')
            (record {
              result = ap (λ bs. ok (value_from 0 (take n bs))) k.same;
              ahead = record {
                in_left = ground arith;
                in_right = ground arith;
                same = drop-add s.pos n s.bits ∙ ap (drop n) k.same ∙ sym (drop-add t.pos n t.bits);
              };
            })
    ]

count_zeros-IsSameRun :
    (left count : ℕ) (s t : Bits)
    → IsAhead s t
    → IsSameRun (count_zeros left count s) (count_zeros left count t)
unfolding count_zeros
count_zeros-IsSameRun zero count s t k = record { result = refl; ahead = k }
count_zeros-IsSameRun (suc left) count s t k =
    bind-IsSameRun
      (λ bit.
        if bit == 0
        then (if ltb 31 (count + 1) then raise value_error else count_zeros left (count + 1))
        else pure count)
      (λ bit s t k. elim (Bool-cases (bit == 0)) [
        | inr one ↦ rw one (record { result = refl; ahead = k })
        | inl another ↦ rw another (elim (Bool-cases (ltb 31 (count + 1))) [
          | inl many ↦ rw many (record { result = refl; ahead = k })
          | inr few ↦ rw few (count_zeros-IsSameRun left (count + 1) s t k)
        ])
      ])
      (u 1) s t (u-IsSameRun 1 s t k)

-- A code is read as the same value wherever it stands.
pub ue-IsSameRun : (s t : Bits) → IsAhead s t → IsSameRun (ue s) (ue t)
unfolding ue
ue-IsSameRun s t k =
    bind-IsSameRun (λ count. u count >>= λ v. pure (2 ^ count - 1 + v))
      (λ count s t k.
        bind-IsSameRun (λ v. pure (2 ^ count - 1 + v))
          (λ v s t k. record { result = refl; ahead = k }) (u count) s t (u-IsSameRun count s t k))
      (count_zeros 32 0) s t (count_zeros-IsSameRun 32 0 s t k)

u-bits : (n : ℕ) (s : Bits) → (u n s).1.bits ≡ s.bits
unfolding u
u-bits n s = ground arith

-- A call that leaves the bits, followed by one that does.
module _ {A B : Type 0} (f : A → Action B) (h : (a : A) (s : Bits) → (f a s).1.bits ≡ s.bits) where
  bind-bits : (m : Action A) (s : Bits) → (m s).1.bits ≡ s.bits → ((m >>= f) s).1.bits ≡ s.bits
  bind-bits m s e = elim (Result-cases (m s).0) [
    | inl (a, p) ↦ rw p (h a (m s).1 ∙ e)
    | inr (x, p) ↦ rw p e
  ]

count_zeros-bits : (left count : ℕ) (s : Bits) → (count_zeros left count s).1.bits ≡ s.bits
unfolding count_zeros
count_zeros-bits zero count s = refl
count_zeros-bits (suc left) count s =
    bind-bits
      (λ bit.
        if bit == 0
        then (if ltb 31 (count + 1) then raise value_error else count_zeros left (count + 1))
        else pure count)
      (λ bit s. elim (Bool-cases (bit == 0)) [
        | inr one ↦ rw one refl
        | inl another ↦ rw another (elim (Bool-cases (ltb 31 (count + 1))) [
          | inl many ↦ rw many refl
          | inr few ↦ rw few (count_zeros-bits left (count + 1) s)
        ])
      ])
      (u 1) s (u-bits 1 s)

-- Reading a code leaves the bits.
pub ue-bits : (s : Bits) → (ue s).1.bits ≡ s.bits
unfolding ue
ue-bits s =
    bind-bits (λ count. u count >>= λ v. pure (2 ^ count - 1 + v))
      (λ count s.
        bind-bits (λ v. pure (2 ^ count - 1 + v)) (λ v s. refl) (u count) s (u-bits count s))
      (count_zeros 32 0) s (count_zeros-bits 32 0 s)
