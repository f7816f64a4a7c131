-- ===== src/Hevc/Trace/Numbered.antt =====
-- The pictures of `normalize` (experiments/hevc-controls/normalize.py) as its loop over the events
-- leaves them.
use omarchy_m1_video.Prelude.{
  ℕ, suc, ◌+◌, ◌≡◌, inl, inr, refl, subst, true, Option, none, some, List, [], ◌∷◌, ◌++◌, ◌==◌,
  if◌then◌else◌, length, arith, Bool-cases, Option-cases, eq_of_==,
}
use omarchy_m1_video.Exec.{Result-cases, ok}
use omarchy_m1_video.Dict.{Dict, lookup, put, lookup-put}
use omarchy_m1_video.Hevc.Trace.Event.{Event}
use omarchy_m1_video.Hevc.Trace.State.{Picture, Trace, empty_trace, all_complete}
use omarchy_m1_video.Hevc.Trace.Steps.{
  read_event, read_events, read_trace, finish_trace, video_context,
}
use omarchy_m1_video.Hevc.Trace.Changes.{
  Change, same, joined, filled, Changes, done, step, read_event-Changes,
}

abbrev pub IsNumbered : ℕ → Dict Picture → Type 0
IsNumbered n [] = Unit
IsNumbered n ((k, p) ∷ ps) = (k ≡ n) × (p.pic ≡ n) × IsNumbered (suc n) ps

abbrev pub IsStamped : Dict ℕ → ℕ → Option Picture → Type 0
IsStamped stamps k none = Unit
IsStamped stamps k (some p) = lookup p.timestamp stamps ≡ some k

-- The pictures stand under their numbers, from 1 on, and a timestamp finds the picture that has it.
pub record IsSound (t : Trace) : Type 0 where
  pub numbered : IsNumbered 1 t.pictures
  pub stamped : (k : ℕ) → IsStamped t.by_timestamp k (lookup k t.pictures)

stamped_at :
    (t : Trace) (k : ℕ) (p : Picture)
    → IsSound t
    → lookup k t.pictures ≡ some p
    → lookup p.timestamp t.by_timestamp ≡ some k
stamped_at t k p s found = subst (IsStamped t.by_timestamp k) found (s.stamped k)

IsStamped-each :
    (t : Trace)
    → ((k : ℕ) (p : Picture)
        → lookup k t.pictures ≡ some p
        → lookup p.timestamp t.by_timestamp ≡ some k)
    → (k : ℕ) → IsStamped t.by_timestamp k (lookup k t.pictures)
IsStamped-each t h k = elim (Option-cases (lookup k t.pictures)) [
  | inl missing ↦ rw missing tt
  | inr (p, found) ↦ rw found (h k p found)
]

IsNumbered-append :
    (n : ℕ) (ps : Dict Picture) (p : Picture)
    → p.pic ≡ n + length ps
    → IsNumbered n ps
    → IsNumbered n (ps ++ (p.pic, p) ∷ [])
IsNumbered-append n [] p e h = (omega (arith, e), omega (arith, e), tt)
IsNumbered-append n ((k, q) ∷ ps) p e (a, b, h) =
    (a, b, IsNumbered-append (suc n) ps p (omega (arith, e)) h)

IsNumbered-put :
    (n k : ℕ) (p q : Picture) (ps : Dict Picture)
    → lookup k ps ≡ some p
    → q.pic ≡ p.pic
    → IsNumbered n ps
    → IsNumbered n (put k q ps)
unfolding lookup put
IsNumbered-put n k p q [] found e h = ground arith
IsNumbered-put n k p q ((j, r) ∷ ps) found e (a, b, h) = elim (Bool-cases (j == k)) [
  | inl at ↦ rw at (ground arith, ground arith, h)
  | inr off ↦ rw off (a, b, IsNumbered-put (suc n) k p q ps (ground arith) e h)
]

pub lookup-IsNumbered :
    (n k : ℕ) (p : Picture) (ps : Dict Picture) → lookup k ps ≡ some p → IsNumbered n ps → p.pic ≡ k
unfolding lookup
lookup-IsNumbered n k p [] found h = ground arith
lookup-IsNumbered n k p ((j, r) ∷ ps) found (a, b, h) = elim (Bool-cases (j == k)) [
  | inl at ↦ ground (arith, eq_of_== j k)
  | inr off ↦ lookup-IsNumbered (suc n) k p ps (ground arith) h
]

lookup-append :
    (k j : ℕ) (p : Picture) (ps : Dict Picture)
    → lookup k (ps ++ (j, p) ∷ [])
      ≡ elim (lookup k ps) [ some q ↦ some q | none ↦ if j == k then some p else none ]
unfolding lookup
lookup-append k j p [] = refl
lookup-append k j p ((i, r) ∷ ps) = ground (arith, lookup-append k j p ps)

IsSound-Change : (t t' : Trace) → Change t t' → IsSound t → IsSound t'
IsSound-Change t t' (same ps ts) s = record {
  numbered = rw ps s.numbered;
  stamped = IsStamped-each t' (λ k p found. ground (arith, stamped_at t k p s));
}
IsSound-Change t t' (joined p number fresh ps ts) s = record {
  numbered = rw ps (IsNumbered-append 1 t.pictures p (omega (arith, number)) s.numbered);
  stamped = IsStamped-each t' (λ k q found. ground (
    arith,
    stamped_at t k q s,
    lookup-append k p.pic p t.pictures,
    lookup-put p.timestamp q.timestamp p.pic t.by_timestamp,
  ));
}
IsSound-Change t t' (filled n b p found empty ps ts) s = record {
  numbered =
      rw ps (IsNumbered-put 1 n p (record p { target = some b }) t.pictures found refl s.numbered);
  stamped = IsStamped-each t' (λ k q at. ground (
    arith,
    stamped_at t k q s,
    stamped_at t n p s found,
    lookup-put n k (record p { target = some b }) t.pictures,
  ));
}

IsSound-Changes : (t t' : Trace) → Changes t t' → IsSound t → IsSound t'
IsSound-Changes t t' done s = s
IsSound-Changes t t' (step {t1 = t1} c cs) s = IsSound-Changes t1 t' cs (IsSound-Change t t1 c s)

empty_trace-IsSound : IsSound empty_trace
unfolding lookup
empty_trace-IsSound = record { numbered = tt; stamped = λ k. tt }

-- Reading events keeps the pictures numbered from 1 in the order of their requests, each found by
-- its own timestamp.
pub read_events-IsSound :
    (fd start expected index : ℕ) (t t' : Trace) (es : List Event)
    → read_events fd start expected index t es ≡ ok t'
    → IsSound t
    → IsSound t'
unfolding read_events
read_events-IsSound fd start expected index t t' [] ran s = subst IsSound (ground arith) s
read_events-IsSound fd start expected index t t' (e ∷ es) ran s =
    elim (Result-cases (read_event fd start expected index t e)) [
      | inr (x, bad) ↦ ground arith
      | inl (t1, a) ↦
          read_events-IsSound fd start expected (suc index) t1 t' es (ground arith)
            (IsSound-Changes t t1 (read_event-Changes fd start expected index t t1 e a) s)
    ]

-- The trace of an accepted file has the expected number of pictures, all complete and numbered from
-- 1 in the order of their requests, each found by its own timestamp.
pub read_trace-IsSound :
    (es : List Event) (expected : ℕ) (t : Trace)
    → read_trace es expected ≡ ok t
    → IsSound t × (length t.pictures ≡ expected) × (all_complete t ≡ true)
unfolding read_trace finish_trace
read_trace-IsSound es expected t ran = elim (Result-cases (video_context es)) [
  | inr (x, bad) ↦ ground arith
  | inl ((fd, start), a) ↦ elim (Result-cases (read_events fd start expected 0 empty_trace es)) [
    | inr (x, bad) ↦ ground arith
    | inl (t1, b) ↦ (
      subst IsSound (ground arith)
          (read_events-IsSound fd start expected 0 empty_trace t1 es b empty_trace-IsSound),
      ground arith,
      ground arith,
    )
  ]
]
