-- ===== src/Join/Ordinals.antt =====
-- Which ordinals `join_va` of experiments/hevc-reference-content/same-run/join.py selects, and that
-- each is bound.
use omarchy_m1_video.Prelude.{
  ℕ, suc, ◌≡◌, inl, inr, refl, sym, ◌∙◌, ap, subst, Bool, true, Option, none, some, List, [], ◌∷◌,
  String, map, length, All, arith, eq_of_==, or_default,
}
use omarchy_m1_video.Exec.{Result-cases, ok}
use omarchy_m1_video.Checked.{read_each}
use omarchy_m1_video.Dict.{Dict}
use omarchy_m1_video.Join.Evidence.{KernelEvidence, check}
use omarchy_m1_video.Join.Queues.{
  VaRow, OutputRow, parse_va_queue, parse_associations, same_numbers, read_output_row,
}
use omarchy_m1_video.Join.Report.{
  Output, Document, va, Place, va_place, gst_place, validate_report, read_outputs, coordinate,
  Identity, report_identity,
}
use omarchy_m1_video.Join.Select.{
  Selected, Joined, index_outputs, check_projections, select_va, select_all, va_ordinal, result_of,
  join_va,
}
use omarchy_m1_video.Join.Bound.{IsBound, select_va-parts, select_all-IsBound}
use omarchy_m1_video.Join.Indexed.{parse_associations-AreOutputs}

coordinate-va_ordinal : (p : Place) (c v : ℕ) → coordinate va p ≡ ok c → va_ordinal p ≡ ok v → c ≡ v
coordinate-va_ordinal (va_place ordinal surface) c v h g = ground arith
coordinate-va_ordinal (gst_place frame request) c v h g = ground arith

read_outputs-values :
    (k : KernelEvidence) (queue : List VaRow) (d : Dict OutputRow) (copy : Bool)
    (common : Option Identity) (os : List Output) (cs : List ℕ) (i : ℕ) (ss : List Selected)
    → read_outputs va copy common os ≡ ok cs
    → read_each (λ i o. select_va k queue d o) i os ≡ ok ss
    → cs ≡ map (λ (s : Selected). s.value) ss
unfolding read_outputs read_each
read_outputs-values k queue d copy common [] cs i ss h g = ground arith
read_outputs-values k queue d copy common (o ∷ os) cs i ss h g =
    elim (Result-cases (coordinate va o.place)) [
      | inr (x, bad) ↦ ground arith
      | inl (c, a) ↦ elim (Result-cases (report_identity o)) [
        | inr (x, bad) ↦ ground arith
        | inl (id, e) ↦
            elim (Result-cases (read_outputs va copy (some (or_default common id)) os)) [
              | inr (x, bad) ↦ ground arith
              | inl (cs', b) ↦ elim (Result-cases (select_va k queue d o)) [
                | inr (x, bad) ↦ ground arith
                | inl (s, f) ↦
                    elim (Result-cases (read_each (λ i o. select_va k queue d o) (suc i) os)) [
                      | inr (x, bad) ↦ ground arith
                      | inl (ss', r) ↦
                          let (_, _, _, _, _, _, _, _, v, _, _, _, _) =
                            select_va-parts k queue d o s f in
                          let head : c ≡ s.value = coordinate-va_ordinal o.place c s.value a v in
                          let rest =
                            read_outputs-values k queue d copy (some (or_default common id)) os cs'
                              (suc i) ss' b r in
                          ground arith
                    ]
              ]
            ]
      ]
    ]

select_all-values :
    (k : KernelEvidence) (queue : List VaRow) (outputs : List OutputRow) (copy : Bool)
    (os : List Output) (cs : List ℕ) (ss : List Selected)
    → read_outputs va copy none os ≡ ok cs
    → select_all (select_va k queue (index_outputs outputs)) os ≡ ok ss
    → cs ≡ map (λ (s : Selected). s.value) ss
unfolding select_all
select_all-values k queue outputs copy os cs ss h g =
    read_outputs-values k queue (index_outputs outputs) copy none os cs 0 ss h g

same_numbers-eq : (a b : List ℕ) → same_numbers a b ≡ true → a ≡ b
same_numbers-eq [] [] h = refl
same_numbers-eq [] (y ∷ ys) h = ground arith
same_numbers-eq (x ∷ xs) [] h = ground arith
same_numbers-eq (x ∷ xs) (y ∷ ys) h = ground (arith, eq_of_== x y, same_numbers-eq xs ys)

read_each-id :
    (expected i : ℕ) (xs rows : List OutputRow)
    → read_each (read_output_row expected) i xs ≡ ok rows
    → rows ≡ xs
unfolding read_each
read_each-id expected i [] rows ran = ground arith
read_each-id expected i (x ∷ xs) rows ran =
    elim (Result-cases (read_each (read_output_row expected) (suc i) xs)) [
      | inr (w, bad) ↦ ground arith
      | inl (rest, b) ↦ ground (arith, read_each-id expected (suc i) xs rest b)
    ]

parse_associations-id :
    (document rows : List OutputRow) (expected : ℕ)
    → parse_associations document expected ≡ ok rows
    → rows ≡ document
unfolding parse_associations
parse_associations-id document rows expected ran =
    elim (Result-cases (read_each (read_output_row expected) 0 document)) [
      | inr (x, bad) ↦ ground arith
      | inl (rest, b) ↦ ground (arith, read_each-id expected 0 document rest b)
    ]

parse_va_queue-id :
    (rows queue : List VaRow) (expected : ℕ)
    → parse_va_queue rows expected ≡ ok queue
    → (queue ≡ rows) × (length rows ≡ expected)
unfolding parse_va_queue
parse_va_queue-id rows queue expected ran = (ground arith, ground arith)

validate_report-ordinals :
    (document : Document) (selectors : List ℕ) (copy : Bool) (os : List Output)
    → validate_report document va selectors copy ≡ ok os
    → read_outputs va copy none os ≡ ok selectors
unfolding validate_report
validate_report-ordinals document selectors copy os ran =
    elim (Result-cases (read_outputs va copy none document.outputs)) [
      | inr (x, bad) ↦ ground arith
      | inl (observed, a) ↦ ground (arith, same_numbers-eq observed selectors)
    ]

-- The stages of `join_va`.
join_va-parts :
    (f : Joined → ℕ) (k : KernelEvidence) (report : Document) (rows : List VaRow)
    (associations : List OutputRow) (selectors : List ℕ) (copy : Bool) (sha : String) (j : Joined)
    → join_va f k report rows associations selectors copy sha ≡ ok j
    → (os : List Output) × (queue : List VaRow) × (outputs : List OutputRow) × (check k ≡ ok tt)
      × (validate_report report va selectors copy ≡ ok os)
      × (parse_va_queue rows (length k.requests) ≡ ok queue)
      × (parse_associations associations (length k.requests) ≡ ok outputs)
      × (check_projections queue k.requests ≡ ok tt)
      × (select_all (select_va k queue (index_outputs outputs)) os ≡ ok j.selected)
unfolding join_va result_of
join_va-parts f k report rows associations selectors copy sha j ran =
    elim (Result-cases (validate_report report va selectors copy)) [
      | inr (x, bad) ↦ ground arith
      | inl (os, a) ↦ elim (Result-cases (parse_va_queue rows (length k.requests))) [
        | inr (x, bad) ↦ ground arith
        | inl (queue, b) ↦
            elim (Result-cases (parse_associations associations (length k.requests))) [
              | inr (x, bad) ↦ ground arith
              | inl (outputs, c) ↦
                  elim (Result-cases (select_all (select_va k queue (index_outputs outputs)) os)) [
                    | inr (x, bad) ↦ ground arith
                    | inl (ss, d) ↦
                        (os, queue, outputs, ground arith, a, b, c, ground arith, ground arith)
                  ]
            ]
      ]
    ]

-- A VA join that returns has one selected entry for each ordinal that was asked for, in that order.
-- Each is bound: its association stands at its ordinal; the picture of that association is the
-- kernel's request of this number, in the buffer that the client captured and with the same order
-- count; the client's writer, allocation and context are the ones in the queue; and the kernel's
-- snapshot has that picture written to that buffer and completed, in one allocation.
pub join_va-IsBound :
    (f : Joined → ℕ) (k : KernelEvidence) (report : Document) (rows : List VaRow)
    (associations : List OutputRow) (selectors : List ℕ) (copy : Bool) (sha : String) (j : Joined)
    → join_va f k report rows associations selectors copy sha ≡ ok j
    → (map (λ (s : Selected). s.value) j.selected ≡ selectors)
      × All (IsBound k rows associations) j.selected
join_va-IsBound f k report rows associations selectors copy sha j ran =
    let (os, queue, outputs, checked, valid, queued, parsed, projected, selected) =
      join_va-parts f k report rows associations selectors copy sha j ran in
    let (same_queue, full) = parse_va_queue-id rows queue (length k.requests) queued in
    let bound =
      select_all-IsBound k queue outputs checked projected (ap length same_queue ∙ full)
        (parse_associations-AreOutputs associations outputs (length k.requests) parsed) os
        j.selected selected in
    (
      sym (
          select_all-values k queue outputs copy os selectors j.selected
            (validate_report-ordinals report selectors copy os valid) selected),
      subst (λ q. All (IsBound k q associations) j.selected) same_queue
          (subst (λ o. All (IsBound k queue o) j.selected)
            (parse_associations-id associations outputs (length k.requests) parsed) bound),
    )
