-- ===== src/Capture/Silent.antt =====
-- What calls of `validate` of experiments/hevc-avd-trace/check.py have established when they return
-- without a new finding.
use omarchy_m1_video.Prelude.{
  ℕ, suc, ◌≡◌, subst, ap, some, List, [], ◌∷◌, String, ◌==◌, inl, inr, arith, Option-cases, All,
}
use omarchy_m1_video.Exec.{Exec, ok, bind-ok, continue, ◌>>=◌}
use omarchy_m1_video.Dict.{lookup}
use omarchy_m1_video.Hevc.Map.Motion.{bit}
use omarchy_m1_video.Capture.Rows.{Held, Start, Table, Listed, Motion}
use omarchy_m1_video.Capture.Checker.{
  Checker, Check, Who, find_history, check_writer, check_reference, check_source,
}
use omarchy_m1_video.Capture.Groups.{each, check_table_row}
use omarchy_m1_video.Capture.Validate.{Expected, check_detail}
use omarchy_m1_video.Capture.Framed.{
  Framed, Keeps, Grows, reports, check_layout-Framed, check_allocation-Framed,
  check_reference-Framed,
}
use omarchy_m1_video.Capture.Preserved.{
  preserved_rules, each-Framed, check_table_row-Framed, compare_row-Framed, check_lists-Framed,
}

-- A call that returns and reports nothing.
pub record Silent {A : Type 0} (m : Exec Checker String A) (c : Checker) (a : A) : Type 0 where
  pub returned : (m c).0 ≡ ok a
  pub quiet : reports (m c).1 ≡ reports c

abbrev pub Growing : {A : Type 0} → Exec Checker String A → Type 0
Growing m = (c : Checker) → Grows c (m c).1

pub Framed-Growing : {A : Type 0} (m : Exec Checker String A) → Framed m → Growing m
Framed-Growing m h c = (h c).grows

-- Both parts of a silent sequence are silent.
pub bind-Silent :
    {A B : Type 0} (m : Exec Checker String A) (f : A → Exec Checker String B) (c : Checker) (b : B)
    → Growing m
    → ((a : A) → Growing (f a))
    → Silent (m >>= f) c b
    → (a : A) × Silent m c a × Silent (f a) (m c).1 b
bind-Silent m f c b grows grows' s =
    let (a, ran, last) = bind-ok f m c b s.returned in
    let total : reports (f a (m c).1).1 ≡ reports c =
      subst (λ r. reports (continue r f (m c).1).1 ≡ reports c) ran s.quiet in
    (
      a,
      record {
        returned = ran;
        quiet = omega (arith, (grows c).fewer, (grows' a (m c).1).fewer, total);
      },
      record {
        returned = last;
        quiet = omega (arith, (grows c).fewer, (grows' a (m c).1).fewer, total);
      },
    )

-- The state in which a sequence ends is that of its last part.
pub bind-ends :
    {A B : Type 0} (m : Exec Checker String A) (f : A → Exec Checker String B) (c : Checker) (a : A)
    → Silent m c a
    → ((m >>= f) c).1 ≡ (f a (m c).1).1
bind-ends m f c a s = ap (λ r. (continue r f (m c).1).1) s.returned

module _ (Q : Checker → Type 0) (stable : (c c' : Checker) → Keeps c c' → Q c' → Q c) where
  -- What a silent run of a call shows of the state that it began in.
  abbrev pub Shows : {A : Type 0} → Exec Checker String A → Type 0
  Shows {A} m = (c : Checker) (a : A) → Silent m c a → Q c

  pub first-Shows :
      {A B : Type 0} (m : Exec Checker String A) (f : A → Exec Checker String B)
      → Framed m
      → ((a : A) → Framed (f a))
      → Shows m
      → Shows (m >>= f)
  first-Shows m f h k shows c b s =
      let (a, s1, _) =
        bind-Silent m f c b (Framed-Growing m h) (λ a. Framed-Growing (f a) (k a)) s in
      shows c a s1

  pub later-Shows :
      {A B : Type 0} (m : Exec Checker String A) (f : A → Exec Checker String B)
      → Framed m
      → ((a : A) → Framed (f a))
      → ((a : A) → Shows (f a))
      → Shows (m >>= f)
  later-Shows m f h k shows c b s =
      let (a, _, s2) =
        bind-Silent m f c b (Framed-Growing m h) (λ a. Framed-Growing (f a) (k a)) s in
      stable c (m c).1 (h c) (shows a (m c).1 b s2)

All-map :
    {A : Type 0} (Q : A → Checker → Type 0) (c c' : Checker)
    → ((x : A) → Q x c' → Q x c)
    → (xs : List A) → All (λ x. Q x c') xs
    → All (λ x. Q x c) xs
All-map Q c c' h [] all = tt
All-map Q c c' h (x ∷ xs) (q, qs) = (h x q, All-map Q c c' h xs qs)

-- A loop shows of each item what its body shows.
pub each-Shows :
    {A : Type 0} (Q : A → Checker → Type 0)
    → ((x : A) (c c' : Checker) → Keeps c c' → Q x c' → Q x c)
    → (check : ℕ → A → Check) → ((i : ℕ) (x : A) → Framed (check i x))
    → ((i : ℕ) (x : A) (c : Checker) (u : Unit {0}) → Silent (check i x) c u → Q x c)
    → (i : ℕ) (xs : List A) (c : Checker) (u : Unit {0}) → Silent (each check i xs) c u
    → All (λ x. Q x c) xs
unfolding each
each-Shows Q stable check framed shows i [] c u s = tt
each-Shows {A} Q stable check framed shows i (x ∷ xs) c u s =
    let later = λ (_ : Unit {0}). each check (suc i) xs in
    let (v, s1, s2) =
      bind-Silent (check i x) later c u (Framed-Growing (check i x) (framed i x))
        (λ _. Framed-Growing (each check (suc i) xs) (each-Framed check (suc i) xs framed)) s in
    let c' = (check i x c).1 in
    (
      shows i x c v s1,
      All-map Q c c' (λ y. stable y c c' (framed i x c)) xs
          (each-Shows Q stable check framed shows (suc i) xs c' u s2),
    )

-- The writer of a buffer as the state knows it: the row has the current allocation of the buffer,
-- the picture that wrote both last, and the timestamp and the kind of that picture.
pub record IsKnown (h : Held) (c : Checker) : Type 0 where
  pub known : Start
  pub allocation : lookup h.buffer c.current_allocations ≡ some h.allocation
  pub last_writer : find_history (h.buffer, h.allocation) c.histories ≡ some h.writer
  pub started : lookup h.writer c.starts ≡ some known
  pub same_picture : (h.timestamp ≡ known.held.timestamp) × (h.intra ≡ bit (known.slice_type == 2))
  pub completed : h.completed ≡ 1

IsKnown-stable : (h : Held) (c c' : Checker) → Keeps c c' → IsKnown h c' → IsKnown h c
IsKnown-stable h c c' k is = record {
  known = is.known;
  allocation = cc (k.same_allocations, is.allocation);
  last_writer = cc (k.same_histories, is.last_writer);
  started = cc (k.same_starts, is.started);
  same_picture = is.same_picture;
  completed = is.completed;
}

check_reference-IsKnown :
    (who : Who) (h : Held) (c : Checker) (u : Unit {0})
    → Silent (check_reference who h) c u
    → IsKnown h c
unfolding check_reference check_writer
check_reference-IsKnown who h c u s = elim (Option-cases (lookup h.writer c.starts)) [
  | inl missing ↦ ground (arith, s.quiet)
  | inr (k, there) ↦ record {
    known = k;
    allocation = ground (arith, s.quiet);
    last_writer = ground (arith, s.quiet);
    started = there;
    same_picture = (ground (arith, s.quiet), ground (arith, s.quiet));
    completed = ground (arith, s.quiet);
  }
]

check_source-IsKnown :
    (h : Held) (who : Who) (start : Start)
    → Shows (IsKnown h) (IsKnown-stable h) (check_source who h start)
unfolding check_source
check_source-IsKnown h who start =
    search
      (
        first-Shows, later-Shows, preserved_rules, check_layout-Framed, check_allocation-Framed,
        check_reference-Framed, check_reference-IsKnown, IsKnown-stable,
      )
      depth 20

check_table_row-IsKnown :
    (start : Start) (i : ℕ) (r : Table)
    → Shows (IsKnown r.held) (IsKnown-stable r.held) (check_table_row start i r)
unfolding check_table_row
check_table_row-IsKnown start i r =
    search
      (
        first-Shows, later-Shows, preserved_rules, compare_row-Framed, check_source-IsKnown,
        IsKnown-stable,
      )
      depth 20

-- Every row of a table is known.
abbrev pub AllKnown : List Table → Checker → Type 0
AllKnown ts c = All (λ t. IsKnown t.held c) ts

pub AllKnown-stable :
    (ts : List Table) (c c' : Checker) → Keeps c c' → AllKnown ts c' → AllKnown ts c
AllKnown-stable [] c c' k all = tt
AllKnown-stable (t ∷ ts) c c' k (is, all) =
    (IsKnown-stable t.held c c' k is, AllKnown-stable ts c c' k all)

each-AllKnown :
    (start : Start) (i : ℕ) (ts : List Table)
    → Shows (AllKnown ts) (AllKnown-stable ts) (each (check_table_row start) i ts)
each-AllKnown start i ts =
    each-Shows (λ t. IsKnown t.held) (λ t. IsKnown-stable t.held) (check_table_row start)
      (check_table_row-Framed start) (check_table_row-IsKnown start) i ts

pub check_detail-AllKnown :
    (expected : Expected) (start : Start) (ts : List Table) (lists : List Listed) (m : Motion)
    → Shows (AllKnown ts) (AllKnown-stable ts) (check_detail expected start ts lists m)
unfolding check_detail
check_detail-AllKnown expected start ts lists m =
    search
      (
        first-Shows, later-Shows, preserved_rules, each-AllKnown, AllKnown-stable, each-Framed,
        check_table_row-Framed, check_lists-Framed,
      )
      depth 40
