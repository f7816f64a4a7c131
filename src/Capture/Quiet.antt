-- ===== src/Capture/Quiet.antt =====
-- What a snapshot shows on which `validate` of experiments/hevc-avd-trace/check.py reports nothing.
use omarchy_m1_video.Prelude.{
  ℕ, suc, ◌≡◌, sym, ◌∙◌, subst, false, List, [], ◌∷◌, String, inl, inr, ◌==◌, length, arith,
  Bool-cases, All, if◌then◌else◌, get_elem?,
}
use omarchy_m1_video.Exec.{Exec, Result, ok, err, continue, modify, or_raise, ◌>>=◌, ◌>>◌}
use omarchy_m1_video.Capture.Rows.{Start, Done, Table, Row}
use omarchy_m1_video.Capture.Checker.{Checker, Check, check_destination, demand}
use omarchy_m1_video.Capture.Groups.{tables, listed, motions}
use omarchy_m1_video.Capture.Validate.{
  Expected, is_detailed, record_start, check_start, open_picture, check_ends, check_extent,
  check_commands, check_detail, check_body,
}
use omarchy_m1_video.Capture.Framed.{Framed, Grows, check_destination-Framed}
use omarchy_m1_video.Capture.Preserved.{
  preserved_rules, check_detail-Framed, check_start-Framed, check_ends-Framed, check_extent-Framed,
  check_commands-Framed,
}
use omarchy_m1_video.Capture.Silent.{
  Shows, first-Shows, later-Shows, Silent, Growing, Framed-Growing, bind-Silent, bind-ends,
  AllKnown, AllKnown-stable, check_detail-AllKnown,
}
use omarchy_m1_video.Capture.Writers.{
  Follows, IsCurrent, Keeps-Follows, record_start-Follows, IsKnown-IsCurrent,
}

pub bind-Growing :
    {A B : Type 0} (m : Exec Checker String A) (f : A → Exec Checker String B)
    → Growing m
    → ((a : A) → Growing (f a))
    → Growing (m >>= f)
bind-Growing {A} {B} m f h k c = on_result (m c).0
  where
    on_result : (r : Result String A) → Grows c (continue r f (m c).1).1
    on_result (ok a) = record { fewer = omega (arith, (h c).fewer, (k a (m c).1).fewer) }
    on_result (err e) = h c

modify-Growing : (s : Start) → Growing (modify {S = Checker} {E = String} (record_start s))
modify-Growing s c = record { fewer = omega arith }

-- The start of a picture is known once it is opened.
module _ (expected : Expected) (s : Start) where
  record_rest : Unit {0} → Check
  record_rest _ = do modify (record_start s); check_destination (s.picture, 1) s.held s

  record_rest-Growing : (u : Unit {0}) → Growing (record_rest u)
  unfolding record_rest
  record_rest-Growing u =
      bind-Growing (modify (record_start s)) (λ _. check_destination (s.picture, 1) s.held s)
        (modify-Growing s)
        (λ _.
          Framed-Growing (check_destination (s.picture, 1) s.held s)
            (check_destination-Framed (s.picture, 1) s.held s))

  open_picture-Growing : Growing (open_picture expected s)
  unfolding open_picture record_rest
  open_picture-Growing =
      bind-Growing (check_start expected s) record_rest
        (Framed-Growing (check_start expected s) (check_start-Framed expected s))
        record_rest-Growing

  open_picture-Follows :
      (done : List Start) (c : Checker) (u : Unit {0})
      → Silent (open_picture expected s) c u
      → Follows s.picture done c
      → Follows (suc s.picture) (s ∷ done) (open_picture expected s c).1
  unfolding open_picture record_rest
  open_picture-Follows done c u silent f =
      let (v, s1, s2) =
        bind-Silent (check_start expected s) record_rest c u
          (Framed-Growing (check_start expected s) (check_start-Framed expected s))
          record_rest-Growing silent in
      let c1 = (check_start expected s c).1 in
      subst (Follows (suc s.picture) (s ∷ done))
        (sym (bind-ends (check_start expected s) record_rest c v s1))
        (Keeps-Follows (suc s.picture) (s ∷ done) (record_start s c1)
          (check_destination (s.picture, 1) s.held s (record_start s c1)).1
          (check_destination-Framed (s.picture, 1) s.held s (record_start s c1))
          (record_start-Follows s done c1
            (Keeps-Follows s.picture done c c1 (check_start-Framed expected s c) f)))

  detail_part : List Row → Check
  detail_part g = do
    m ← or_raise (get_elem? (motions g) 0) "IndexError"
    check_detail expected s (tables g) (listed g) m

  detail_part-AllKnown :
      (g : List Row) → Shows (AllKnown (tables g)) (AllKnown-stable (tables g)) (detail_part g)
  unfolding detail_part
  detail_part-AllKnown g = search (
    first-Shows, later-Shows, preserved_rules, check_detail-Framed, check_detail-AllKnown,
    AllKnown-stable,
  )

  no_tables :
      (g : List Row) (c : Checker) (u : Unit {0})
      → (check_extent s g c).0 ≡ ok u
      → is_detailed s.picture ≡ false
      → length (tables g) ≡ 0
  unfolding check_extent
  no_tables g c u ran off = ground arith

  none_known : (ts : List Table) (c : Checker) → length ts ≡ 0 → AllKnown ts c
  none_known [] c h = tt
  none_known (t ∷ ts) c h = absurd (ground arith)

  check_commands-AllKnown :
      (g : List Row) (c c' : Checker) (u v : Unit {0})
      → (check_extent s g c').0 ≡ ok u
      → Silent (check_commands expected s g) c v
      → AllKnown (tables g) c
  unfolding check_commands detail_part
  check_commands-AllKnown g c c' u v extent silent = elim (Bool-cases (is_detailed s.picture)) [
    | inr off ↦ none_known (tables g) c (no_tables g c' u extent off)
    | inl on ↦ detail_part-AllKnown g c v (
        subst
          (λ b.
            Silent
              (if b
                then detail_part g
                else demand (length (listed g) == 0) "command records outside window")
              c v)
          on silent)
  ]

  body_rest : List Row → Unit {0} → Check
  body_rest g _ = do check_extent s g; check_commands expected s g

  body_rest-Framed : (g : List Row) (u : Unit {0}) → Framed (body_rest g u)
  unfolding body_rest
  body_rest-Framed g u = search (preserved_rules, check_extent-Framed, check_commands-Framed)

  after_ends : List Row → Unit {0} → Check
  after_ends g _ = do open_picture expected s; body_rest g tt

  after_ends-Growing : (g : List Row) (u : Unit {0}) → Growing (after_ends g u)
  unfolding after_ends
  after_ends-Growing g u =
      bind-Growing (open_picture expected s) (body_rest g) open_picture-Growing
        (λ v. Framed-Growing (body_rest g v) (body_rest-Framed g v))

  pub check_body-Growing : (d : Done) (g : List Row) → Growing (check_body expected s d g)
  unfolding check_body after_ends body_rest
  check_body-Growing d g =
      bind-Growing (check_ends s d g) (after_ends g)
        (Framed-Growing (check_ends s d g) (check_ends-Framed s d g)) (after_ends-Growing g)

  body_rest-AllKnown :
      (g : List Row) (c : Checker) (u : Unit {0})
      → Silent (body_rest g tt) c u
      → AllKnown (tables g) c
  unfolding body_rest
  body_rest-AllKnown g c u silent =
      let (v, s1, s2) =
        bind-Silent (check_extent s g) (λ _. check_commands expected s g) c u
          (Framed-Growing (check_extent s g) (check_extent-Framed s g))
          (λ _. Framed-Growing (check_commands expected s g) (check_commands-Framed expected s g))
          silent in
      AllKnown-stable (tables g) c (check_extent s g c).1 (check_extent-Framed s g c)
        (check_commands-AllKnown g (check_extent s g c).1 c v u s1.returned s2)

  All-IsCurrent :
      (n : ℕ) (done : List Start) (c : Checker) (ts : List Table)
      → Follows n done c
      → AllKnown ts c
      → All (λ t. IsCurrent done t.held) ts
  All-IsCurrent n done c [] f all = tt
  All-IsCurrent n done c (t ∷ ts) f (is, all) =
      (IsKnown-IsCurrent n done c t.held f is, All-IsCurrent n done c ts f all)

  -- A group without a finding: its table shows current buffers, and its start is the newest.
  pub check_body-IsCurrent :
      (done : List Start) (d : Done) (g : List Row) (c : Checker) (u : Unit {0})
      → Silent (check_body expected s d g) c u
      → Follows s.picture done c
      → All (λ t. IsCurrent (s ∷ done) t.held) (tables g)
        × Follows (suc s.picture) (s ∷ done) (check_body expected s d g c).1
  unfolding check_body after_ends body_rest
  check_body-IsCurrent done d g c u silent f =
      let (v, s1, s2) =
        bind-Silent (check_ends s d g) (after_ends g) c u
          (Framed-Growing (check_ends s d g) (check_ends-Framed s d g)) (after_ends-Growing g)
          silent in
      let c1 = (check_ends s d g c).1 in
      let (w, s3, s4) =
        bind-Silent (open_picture expected s) (body_rest g) c1 u open_picture-Growing
          (λ v. Framed-Growing (body_rest g v) (body_rest-Framed g v)) s2 in
      let c2 = (open_picture expected s c1).1 in
      let f2 =
        open_picture-Follows done c1 w s3
          (Keeps-Follows s.picture done c c1 (check_ends-Framed s d g c) f) in
      (
        All-IsCurrent (suc s.picture) (s ∷ done) c2 (tables g) f2 (body_rest-AllKnown g c2 u s4),
        subst (Follows (suc s.picture) (s ∷ done))
            (sym (
              bind-ends (check_ends s d g) (after_ends g) c v s1
              ∙ bind-ends (open_picture expected s) (body_rest g) c1 w s3))
            (Keeps-Follows (suc s.picture) (s ∷ done) c2 (body_rest g tt c2).1
              (body_rest-Framed g tt c2) f2),
      )
