-- ===== src/Capture/Framed.antt =====
-- What the checks of experiments/hevc-avd-trace/check.py leave of the state of `validate`: a finding
-- stays, and of the writers only the start of a picture is new.
use omarchy_m1_video.Prelude.{
  ℕ, ◌≤◌, ◌≡◌, refl, Bool, true, false, Option, none, some, String, length, arith, ◌∙◌,
  if◌then◌else◌,
}
use omarchy_m1_video.Exec.{
  Exec, Result, ok, err, pure, raise, gets, when, or_raise, continue, ◌>>=◌,
}
use omarchy_m1_video.Capture.Rows.{Start, Held}
use omarchy_m1_video.Capture.Checker.{
  Checker, Check, Who, finding, check_value, demand, check_layout, check_allocation, check_writer,
  check_reference, check_source, check_destination,
}

abbrev pub reports : Checker → ℕ
reports c = length c.findings

-- The findings only grow.
pub record Grows (c c' : Checker) : Type 0 where
  pub fewer : reports c ≤ reports c'

-- Moreover what was written stays as it is.
pub record Keeps (c c' : Checker) : Type 0 where
  pub grows : Grows c c'
  pub same_histories : c'.histories ≡ c.histories
  pub same_starts : c'.starts ≡ c.starts
  pub same_allocations : c'.current_allocations ≡ c.current_allocations

pub Keeps-refl : (c : Checker) → Keeps c c
Keeps-refl c = record {
  grows = record { fewer = omega arith };
  same_histories = refl;
  same_starts = refl;
  same_allocations = refl;
}

pub Keeps-trans : (a b c : Checker) → Keeps a b → Keeps b c → Keeps a c
Keeps-trans a b c h k = record {
  grows = record { fewer = omega (arith, h.grows.fewer, k.grows.fewer) };
  same_histories = k.same_histories ∙ h.same_histories;
  same_starts = k.same_starts ∙ h.same_starts;
  same_allocations = k.same_allocations ∙ h.same_allocations;
}

-- A call that keeps the state.
abbrev pub Framed : {A : Type 0} → Exec Checker String A → Type 0
Framed m = (c : Checker) → Keeps c (m c).1

pub pure-Framed : {A : Type 0} (a : A) → Framed {A = A} (pure a)
pure-Framed a c = Keeps-refl c

pub raise-Framed : (A : Type 0) (e : String) → Framed {A = A} (raise e)
raise-Framed A e c = Keeps-refl c

pub demand-Framed : (b : Bool) (e : String) → Framed (demand b e)
demand-Framed true e c = Keeps-refl c
demand-Framed false e c = Keeps-refl c

pub or_raise-Framed : {A : Type 0} (x : Option A) (e : String) → Framed (or_raise x e)
or_raise-Framed none e c = Keeps-refl c
or_raise-Framed (some a) e c = Keeps-refl c

pub finding-Framed : (who : Who) (code : String) → Framed (finding who code)
finding-Framed (picture, kind) code c = record {
  grows = record { fewer = omega arith };
  same_histories = refl;
  same_starts = refl;
  same_allocations = refl;
}

pub check_value-Framed : (who : Who) (b : Bool) (code : String) → Framed (check_value who b code)
check_value-Framed who true code c = Keeps-refl c
check_value-Framed who false code c = finding-Framed who code c

pub bind-Framed :
    {A B : Type 0} (m : Exec Checker String A) (f : A → Exec Checker String B)
    → Framed m
    → ((a : A) → Framed (f a))
    → Framed (m >>= f)
bind-Framed {A} {B} m f h k c = on_result (m c).0 (h c)
  where
    on_result : (r : Result String A) → Keeps c (m c).1 → Keeps c (continue r f (m c).1).1
    on_result (ok a) first = Keeps-trans c (m c).1 (f a (m c).1).1 first (k a (m c).1)
    on_result (err e) first = first

pub gets-Framed : {A : Type 0} (f : Checker → A) → Framed (gets f)
gets-Framed f c = Keeps-refl c

pub if-Framed :
    {A : Type 0} (b : Bool) (m k : Exec Checker String A)
    → Framed m
    → Framed k
    → Framed (if b then m else k)
if-Framed true m k h g = h
if-Framed false m k h g = g

pub when-Framed : (b : Bool) (m : Check) → Framed m → Framed (when b m)
when-Framed true m h c = h c
when-Framed false m h c = Keeps-refl c

pub ruleset framed_rules = (
  pure-Framed, raise-Framed, demand-Framed, or_raise-Framed, finding-Framed, check_value-Framed,
  bind-Framed, gets-Framed, if-Framed, when-Framed,
)

pub check_layout-Framed : (who : Who) (h : Held) (start : Start) → Framed (check_layout who h start)
unfolding check_layout
check_layout-Framed who h start = search framed_rules depth 20

pub check_allocation-Framed : (h : Held) → Framed (check_allocation h)
unfolding check_allocation
check_allocation-Framed h c = ground arith

pub check_writer-Framed : (who : Who) (h : Held) (s : Option Start) → Framed (check_writer who h s)
unfolding check_writer
check_writer-Framed who h none = search framed_rules
check_writer-Framed who h (some known) = search framed_rules

pub check_reference-Framed : (who : Who) (h : Held) → Framed (check_reference who h)
unfolding check_reference
check_reference-Framed who h = search (framed_rules, check_writer-Framed) depth 20

pub check_source-Framed : (who : Who) (h : Held) (start : Start) → Framed (check_source who h start)
unfolding check_source
check_source-Framed who h start =
    search (framed_rules, check_layout-Framed, check_allocation-Framed, check_reference-Framed)

pub check_destination-Framed :
    (who : Who) (h : Held) (start : Start) → Framed (check_destination who h start)
unfolding check_destination
check_destination-Framed who h start =
    search (framed_rules, check_layout-Framed, check_allocation-Framed)
