-- ===== src/Join/Bound.antt =====
-- What `join_va` of experiments/hevc-reference-content/same-run/join.py binds a selected output to.
use omarchy_m1_video.Prelude.{
  suc, ◌-◌, ◌≡◌, inl, inr, sym, ◌∙◌, ap, subst, some, List, length, All, get_elem?, arith,
  Option-cases, eq_of_eq_ℤ,
}
use omarchy_m1_video.Exec.{Result-cases, ok}
use omarchy_m1_video.Checked.{read_each-All}
use omarchy_m1_video.Dict.{Dict, lookup}
use omarchy_m1_video.Hevc.Record.{Request}
use omarchy_m1_video.Join.Text.{from_hex}
use omarchy_m1_video.Join.Evidence.{KernelEvidence, RefRow, check, reference_pair}
use omarchy_m1_video.Join.Queues.{VaRow, OutputRow}
use omarchy_m1_video.Join.Report.{Output}
use omarchy_m1_video.Join.Select.{
  Selected, index_outputs, check_projections, check_va_match, select_va, select_all, va_ordinal,
}
use omarchy_m1_video.Join.Indexed.{
  Lifetime, reference_pair-Lifetime, check-at, check_projections-at, same_projection-parts,
  AreOutputs, index_outputs-at,
}

-- A selected output: its association stands at its ordinal; the picture of that association is the
-- kernel's request of this number, in the buffer that the client captured and with the same order
-- count; the client's writer and allocation are the ones in the queue; and the kernel saw the picture
-- written to that buffer and completed.
pub record IsBound (k : KernelEvidence) (queue : List VaRow) (outputs : List OutputRow)
    (s : Selected) : Type 0 where
  pub association : OutputRow
  pub row : VaRow
  pub request : Request
  pub delivered : get_elem? outputs s.value ≡ some association
  pub picture : (s.bridge.picture ≡ association.pic) × (s.bridge.poc ≡ association.poc)
  pub queued : get_elem? queue (association.pic - 1) ≡ some row
  pub requested : get_elem? k.requests (association.pic - 1) ≡ some request
  pub same_request :
      (request.pic ≡ association.pic)
      × (request.target ≡ s.client.capture_index)
      × (request.poc ≡ association.poc)
  pub same_client :
      (row.observer.writer ≡ from_hex s.client.writer)
      × (row.observer.allocation ≡ from_hex s.client.allocation_generation)
      × (row.observer.context ≡ from_hex s.client.context_generation)
  pub lifetime : Lifetime k association.pic s.client.capture_index s.bridge.kernel_allocation

-- What `select_va` has read when it returns.
pub select_va-parts :
    (k : KernelEvidence) (queue : List VaRow) (by_output : Dict OutputRow) (o : Output)
    (s : Selected)
    → select_va k queue by_output o ≡ ok s
    → (a : OutputRow) × (row : VaRow) × (start : RefRow) × (done : RefRow) × (lookup s.value
          by_output
        ≡ some a)
      × (get_elem? queue (a.pic - 1) ≡ some row)
      × (check_va_match o row a ≡ ok tt)
      × (reference_pair k a.pic o.capture_index ≡ ok (start, done))
      × (va_ordinal o.place ≡ ok s.value)
      × (s.client ≡ o)
      × (s.bridge.picture ≡ a.pic)
      × (s.bridge.poc ≡ a.poc)
      × (s.bridge.kernel_allocation ≡ start.allocation)
unfolding select_va
select_va-parts k queue by_output o s ran = elim (Result-cases (va_ordinal o.place)) [
  | inr (x, bad) ↦ ground arith
  | inl (i, p) ↦ elim (Option-cases (lookup i by_output)) [
    | inl bad ↦ ground arith
    | inr (a, found) ↦ elim (Option-cases (get_elem? queue (a.pic - 1))) [
      | inl bad ↦ ground arith
      | inr (row, at) ↦ elim (Result-cases (check_va_match o row a)) [
        | inr (x, bad) ↦ ground arith
        | inl (u, m) ↦ elim (Result-cases (reference_pair k a.pic o.capture_index)) [
          | inr (x, bad) ↦ ground arith
          | inl ((start, done), r) ↦ (
            a,
            row,
            start,
            done,
            ground arith,
            at,
            m,
            r,
            ground arith,
            ground arith,
            ground arith,
            ground arith,
            ground arith,
          )
        ]
      ]
    ]
  ]
]

check_va_match-parts :
    (o : Output) (row : VaRow) (a : OutputRow)
    → check_va_match o row a ≡ ok tt
    → (row.request.target ≡ o.capture_index)
      × (row.request.poc ≡ a.poc)
      × (row.observer.writer ≡ from_hex o.writer)
      × (row.observer.allocation ≡ from_hex o.allocation_generation)
      × (row.observer.context ≡ from_hex o.context_generation)
unfolding check_va_match
check_va_match-parts o row a ran = (
  ground arith,
  ground (arith, eq_of_eq_ℤ row.request.poc a.poc),
  ground arith,
  ground arith,
  ground arith,
)

module _ (k : KernelEvidence) (queue : List VaRow) (outputs : List OutputRow)
    (checked : check k ≡ ok tt) (projected : check_projections queue k.requests ≡ ok tt)
    (full : length queue ≡ length k.requests) (numbered : AreOutputs 0 outputs) where
  select_va-IsBound :
      (o : Output) (s : Selected)
      → select_va k queue (index_outputs outputs) o ≡ ok s
      → IsBound k queue outputs s
  select_va-IsBound o s ran =
      let (a, row, start, done, found, at, match, pair, ordinal, client, picture, poc, allocation) =
        select_va-parts k queue (index_outputs outputs) o s ran in
      let (delivered, nonzero) = index_outputs-at outputs s.value a numbered found in
      let (request, there, same) =
        check_projections-at queue k.requests (a.pic - 1) row projected full at in
      let (target, count, writer, alloc, context) = check_va_match-parts o row a match in
      let (_, target', count') = same_projection-parts row.request request same in
      let number : request.pic ≡ suc (a.pic - 1) = check-at k (a.pic - 1) request checked there in
      record {
        association = a;
        row = row;
        request = request;
        delivered = delivered;
        picture = (picture, poc);
        queued = at;
        requested = there;
        same_request = (
          ground arith,
          sym target' ∙ target ∙ ap (λ x. x.capture_index) (sym client),
          sym count' ∙ count,
        );
        same_client = (
          writer ∙ ap (λ x. from_hex x.writer) (sym client),
          alloc ∙ ap (λ x. from_hex x.allocation_generation) (sym client),
          context ∙ ap (λ x. from_hex x.context_generation) (sym client),
        );
        lifetime =
            subst (λ c. Lifetime k a.pic c s.bridge.kernel_allocation)
              (ap (λ x. x.capture_index) (sym client))
              (subst (λ n. Lifetime k a.pic o.capture_index n) (sym allocation)
                (reference_pair-Lifetime k a.pic o.capture_index start done pair));
      }

  pub select_all-IsBound :
      (os : List Output) (ss : List Selected)
      → select_all (select_va k queue (index_outputs outputs)) os ≡ ok ss
      → All (IsBound k queue outputs) ss
  unfolding select_all
  select_all-IsBound os ss ran =
      read_each-All (IsBound k queue outputs) (λ i o. select_va k queue (index_outputs outputs) o)
        (λ i. select_va-IsBound) 0 os ss ran
