-- ===== src/Capture/Writers.antt =====
-- The writers that `validate` of experiments/hevc-avd-trace/check.py keeps, in terms of the starts of
-- pictures that it has read.
use omarchy_m1_video.Prelude.{
  ℕ, suc, ◌<◌, ◌≡◌, refl, Bool, ◌&&◌, Option, none, some, List, [], ◌∷◌, ◌==◌, inl, inr, arith,
  Bool-cases, if◌then◌else◌, ap, ◌∙◌, sym, subst,
}
use omarchy_m1_video.Dict.{lookup, lookup-put}
use omarchy_m1_video.Hevc.Map.Motion.{bit}
use omarchy_m1_video.Capture.Rows.{Held, Start}
use omarchy_m1_video.Capture.Checker.{Checker, find_history, new_checker}
use omarchy_m1_video.Capture.Validate.{record_start}
use omarchy_m1_video.Capture.Framed.{Keeps}
use omarchy_m1_video.Capture.Silent.{IsKnown}

-- The last start that passes a test, of those that were read, the newest first.
unfoldable pub last_of : (Start → Bool) → List Start → Option Start
last_of test [] = none
last_of test (s ∷ done) = let rest = last_of test done in if test s then some s else rest

abbrev pub in_buffer : ℕ → Start → Bool
in_buffer b s = s.held.buffer == b

abbrev pub in_both : ℕ × ℕ → Start → Bool
in_both (b, a) s = s.held.buffer == b && s.held.allocation == a

abbrev pub is_numbered : ℕ → Start → Bool
is_numbered n s = s.picture == n

abbrev number_in : Option Start → Option ℕ
number_in none = none
number_in (some s) = some s.picture

abbrev allocation_in : Option Start → Option ℕ
allocation_in none = none
allocation_in (some s) = some s.held.allocation

-- The numbers of the pictures go up, and are below a bound.
abbrev pub Ordered : ℕ → List Start → Type 0
Ordered n [] = Unit
Ordered n (s ∷ done) = (s.picture < n) × Ordered s.picture done

-- The state knows the writers that the starts make.
pub record Follows (n : ℕ) (done : List Start) (c : Checker) : Type 0 where
  pub ordered : Ordered n done
  pub histories : (k : ℕ × ℕ) → find_history k c.histories ≡ number_in (last_of (in_both k) done)
  pub allocations :
      (b : ℕ) → lookup b c.current_allocations ≡ allocation_in (last_of (in_buffer b) done)
  pub starts : (m : ℕ) → lookup m c.starts ≡ last_of (is_numbered m) done

pub new_checker-Follows : (n : ℕ) → Follows n [] new_checker
unfolding find_history lookup last_of
new_checker-Follows n = record {
  ordered = tt;
  histories = λ k. refl;
  allocations = λ b. refl;
  starts = λ m. refl;
}

pub Keeps-Follows :
    (n : ℕ) (done : List Start) (c c' : Checker) → Keeps c c' → Follows n done c → Follows n done c'
Keeps-Follows n done c c' k f = record {
  ordered = f.ordered;
  histories = λ q. ap (find_history q) k.same_histories ∙ f.histories q;
  allocations = λ b. ap (lookup b) k.same_allocations ∙ f.allocations b;
  starts = λ m. ap (lookup m) k.same_starts ∙ f.starts m;
}

pub record_start-Follows :
    (s : Start) (done : List Start) (c : Checker)
    → Follows s.picture done c
    → Follows (suc s.picture) (s ∷ done) (record_start s c)
unfolding find_history last_of
record_start-Follows s done c f = record {
  ordered = (omega arith, f.ordered);
  histories = λ k. ground (arith, f.histories k);
  allocations = λ b.
      ground (
        arith,
        f.allocations b,
        lookup-put s.held.buffer b s.held.allocation c.current_allocations,
      );
  starts = λ m. ground (arith, f.starts m, lookup-put s.picture m s c.starts);
}

last_of-below :
    (test : Start → Bool) (n : ℕ) (done : List Start) (s : Start)
    → Ordered n done
    → last_of test done ≡ some s
    → s.picture < n
unfolding last_of
last_of-below test n [] s o h = absurd (ground arith)
last_of-below test n (t ∷ done) s (below, o) h = elim (Bool-cases (test t)) [
  | inl at ↦ ground arith
  | inr off ↦
      let lower = last_of-below test t.picture done s o (ground arith) in
      omega (arith, lower, below)
]

-- A start that is the last with something is the only one with its number.
last_of-is_numbered :
    (test : Start → Bool) (n : ℕ) (done : List Start) (s : Start)
    → Ordered n done
    → last_of test done ≡ some s
    → last_of (is_numbered s.picture) done ≡ some s
unfolding last_of
last_of-is_numbered test n [] s o h = ground arith
last_of-is_numbered test n (t ∷ done) s (below, o) h = elim (Bool-cases (test t)) [
  | inl at ↦ ground arith
  | inr off ↦
      let there : last_of test done ≡ some s = ground arith in
      let lower = last_of-below test t.picture done s o there in
      let is = last_of-is_numbered test t.picture done s o there in ground (arith, lower, is)
]

last_of-in_both :
    (b a : ℕ) (done : List Start) (s : Start)
    → last_of (in_buffer b) done ≡ some s
    → s.held.allocation ≡ a
    → last_of (in_both (b, a)) done ≡ some s
unfolding last_of
last_of-in_both b a [] s h same = ground arith
last_of-in_both b a (t ∷ done) s h same = elim (Bool-cases (t.held.buffer == b)) [
  | inl at ↦ ground arith
  | inr off ↦ let is = last_of-in_both b a done s (ground arith) same in ground (arith, is)
]

-- A buffer as the snapshot shows it is the one that the last picture in it wrote: the row has the
-- allocation, the number, the timestamp and the kind of that picture, and its completion.
pub record IsCurrent (done : List Start) (h : Held) : Type 0 where
  pub last : Start
  pub newest : last_of (in_buffer h.buffer) done ≡ some last
  pub same_allocation : h.allocation ≡ last.held.allocation
  pub written_by : h.writer ≡ last.picture
  pub same_picture : (h.timestamp ≡ last.held.timestamp) × (h.intra ≡ bit (last.slice_type == 2))
  pub completed : h.completed ≡ 1

-- `some` of an option that has a field
allocation_in-some :
    (o : Option Start) (a : ℕ)
    → allocation_in o ≡ some a
    → (s : Start) × (o ≡ some s) × (s.held.allocation ≡ a)
allocation_in-some none a h = absurd (ground arith)
allocation_in-some (some s) a h = (s, refl, ground arith)

pub IsKnown-IsCurrent :
    (n : ℕ) (done : List Start) (c : Checker) (h : Held)
    → Follows n done c
    → IsKnown h c
    → IsCurrent done h
IsKnown-IsCurrent n done c h f is =
    let (s, newest, same) =
      allocation_in-some (last_of (in_buffer h.buffer) done) h.allocation
        (sym (f.allocations h.buffer) ∙ is.allocation) in
    let both = last_of-in_both h.buffer h.allocation done s newest same in
    let number : some h.writer ≡ some s.picture =
      sym is.last_writer ∙ f.histories (h.buffer, h.allocation) ∙ ap number_in both in
    let wrote : h.writer ≡ s.picture = cc number in
    let only = last_of-is_numbered (in_buffer h.buffer) n done s f.ordered newest in
    let found : some is.known ≡ some s =
      sym is.started ∙ f.starts h.writer ∙ ap (λ m. last_of (is_numbered m) done) wrote ∙ only in
    let known : is.known ≡ s = cc found in
    record {
      last = s;
      newest = newest;
      same_allocation = sym same;
      written_by = wrote;
      same_picture =
          subst (λ k. (h.timestamp ≡ k.held.timestamp) × (h.intra ≡ bit (k.slice_type == 2))) known
            is.same_picture;
      completed = is.completed;
    }
