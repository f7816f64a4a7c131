-- ===== src/Vp9/Invariant/Safe.antt =====
-- A call that keeps the invariant and ends in no exception but a Reject or a FixtureError.
use omarchy_m1_video.Prelude.{◌≡◌, ◌≢◌, refl, subst, sym}
use omarchy_m1_video.Exec.{Result, ok, err, continue, ◌>>=◌}
use omarchy_m1_video.Vp9.Reject.{Error, crash}
use omarchy_m1_video.Vp9.State.{Session, Action}
use omarchy_m1_video.Vp9.Invariant.Defs.{IsValid}

pub record IsSafe {A : Type 0} (r : Result Error A × Session) : Type 0 where
  pub no_crash : r.0 ≢ err crash
  pub valid : IsValid r.1

module _ {A B : Type 0} (f : A → Action B) where
  continue-IsSafe :
      (r : Result Error A) (s : Session)
      → IsSafe (r, s)
      → ((a : A) → r ≡ ok a → IsValid s → IsSafe (f a s))
      → IsSafe (continue r f s)
  continue-IsSafe (ok a) s h k = k a refl h.valid
  continue-IsSafe (err e) s h k = record { no_crash = λ p. h.no_crash (cc); valid = h.valid }

  -- A `do` block is safe if its first call is, and the rest is wherever that returns.
  pub bind-IsSafe :
      (m : Action A) (s : Session)
      → IsSafe (m s)
      → ((a : A) (t : Session) → m s ≡ (ok a, t) → IsValid t → IsSafe (f a t))
      → IsSafe ((m >>= f) s)
  bind-IsSafe m s h k =
      continue-IsSafe (m s).0 (m s).1 h (λ a e v. k a (m s).1 (λ i. (e i, (m s).1)) v)

-- A call that only looks.
pub looks-IsSafe :
    {A : Type 0} (m : Action A) (s : Session)
    → IsValid s
    → (m s).1 ≡ s
    → (m s).0 ≢ err crash
    → IsSafe (m s)
looks-IsSafe m s v same calm = record { no_crash = calm; valid = subst IsValid (sym same) v }
