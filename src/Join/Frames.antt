-- ===== src/Join/Frames.antt =====
-- What `join_gst` of experiments/hevc-reference-content/same-run/join.py binds a selected frame to.
use omarchy_m1_video.Prelude.{
  ℕ, ◌≡◌, inl, inr, refl, sym, ◌∙◌, ap, subst, ℤ, Bool, true, some, List, [], ◌∷◌, String, length,
  All, arith, Bool-cases, Option-cases, text_eq,
}
use omarchy_m1_video.Exec.{Result-cases, ok}
use omarchy_m1_video.Checked.{read_each-All}
use omarchy_m1_video.Dict.{Dict, lookup, put, lookup-All, put-All, index_by-All, IsIn, IsIn-self}
use omarchy_m1_video.Hevc.Record.{Request}
use omarchy_m1_video.Hevc.Trace.Emit.{Association}
use omarchy_m1_video.Hevc.Trace.Associate.{frame_number}
use omarchy_m1_video.Join.Text.{from_hex}
use omarchy_m1_video.Join.Evidence.{KernelEvidence, RefRow, reference_pair}
use omarchy_m1_video.Join.Queues.{GstLine, GstRow, OutputRow, parse_gst_queue, parse_associations}
use omarchy_m1_video.Join.Report.{Output, Document, gst, validate_report, two_texts}
use omarchy_m1_video.Join.Select.{
  Selected, Joined, FrameRow, index_frames, index_requests, picture_number, is_delivered,
  bridge_row, bridge_rows, gst_frame, is_gst_match, select_gst, select_all, join_gst, result_of,
}
use omarchy_m1_video.Join.Indexed.{Lifetime, reference_pair-Lifetime}

-- The raw record of a frame and the kernel's request for its picture, in the buffer of a queue row,
-- whose picture the process delivered.
pub record IsBridged (k : KernelEvidence) (outputs : List OutputRow) (frame capture picture : ℕ)
    (poc : ℤ) : Type 0 where
  pub association : Association
  pub request : Request
  pub known : IsIn k.associations association
  pub same_frame : association.system_frame_number ≡ frame
  pub same_picture : (association.pic ≡ picture) × (association.poc ≡ poc)
  pub requested : IsIn k.requests request
  pub same_request : (request.pic ≡ picture) × (request.target ≡ capture)
  pub delivered : is_delivered picture outputs ≡ true

-- A selected frame: a row of the queue has it with the client's captured buffer, writer, allocation
-- and context, with the request and the frame of the client's coordinate, and with the client's run;
-- its picture is bridged, and the kernel saw that picture written to the captured buffer and
-- completed.
pub record IsFrameBound (k : KernelEvidence) (queue : List GstRow) (outputs : List OutputRow)
    (s : Selected) : Type 0 where
  pub row : GstRow
  pub queued : IsIn queue row
  pub same_client :
      (row.frame ≡ s.value)
      × (row.capture ≡ s.client.capture_index)
      × (row.writer ≡ from_hex s.client.writer)
      × (row.allocation ≡ from_hex s.client.allocation_generation)
      × (row.context ≡ from_hex s.client.context_generation)
  pub same_request :
      (request : String) × (gst_frame s.client.place ≡ ok (s.value, request))
      × (row.request ≡ from_hex request)
  pub same_run :
      (runs : String × String) × (two_texts s.client.run ≡ ok runs)
      × (text_eq row.run0 runs.0 ≡ true)
      × (text_eq row.run1 runs.1 ≡ true)
  pub bridged : IsBridged k outputs s.value s.client.capture_index s.bridge.picture s.bridge.poc
  pub lifetime : Lifetime k s.bridge.picture s.client.capture_index s.bridge.kernel_allocation

-- An item of `queue_by_frame`.
record IsFrameRow (k : KernelEvidence) (queue : List GstRow) (outputs : List OutputRow)
    (e : ℕ × FrameRow) : Type 0 where
  key : e.1.row.frame ≡ e.0
  queued : IsIn queue e.1.row
  bridged : IsBridged k outputs e.0 e.1.row.capture e.1.picture e.1.poc

abbrev IsNamed : List Association → ℕ × Association → Type 0
IsNamed rows (f, a) = (a.system_frame_number ≡ f) × IsIn rows a

abbrev IsPicture : List Request → ℕ × Request → Type 0
IsPicture rs (n, r) = (r.pic ≡ n) × IsIn rs r

IsNamed-each :
    (rows rest : List Association)
    → All (IsIn rows) rest
    → All (λ a. IsNamed rows (a.system_frame_number, a)) rest
IsNamed-each rows [] h = tt
IsNamed-each rows (a ∷ rest) (at, h) = ((refl, at), IsNamed-each rows rest h)

IsPicture-each :
    (rs rest : List Request) → All (IsIn rs) rest → All (λ r. IsPicture rs (r.pic, r)) rest
IsPicture-each rs [] h = tt
IsPicture-each rs (r ∷ rest) (at, h) = ((refl, at), IsPicture-each rs rest h)

module _ (k : KernelEvidence) (queue : List GstRow) (outputs : List OutputRow) where
  bridge_row-IsFrameRow :
      (row : GstRow) (x : FrameRow)
      → IsIn queue row
      → bridge_row (index_frames k.associations) (index_requests k.requests) outputs row ≡ ok x
      → IsFrameRow k queue outputs (row.frame, x)
  unfolding bridge_row
  bridge_row-IsFrameRow row x at ran =
      elim (Option-cases (lookup row.frame (index_frames k.associations))) [
        | inl bad ↦ ground arith
        | inr (a, found) ↦ elim (Option-cases (lookup a.pic (index_requests k.requests))) [
          | inl bad ↦ ground arith
          | inr (r, there) ↦
              let (number, known) =
                lookup-All (IsNamed k.associations) row.frame (index_frames k.associations) a found
                  (index_by-All (IsNamed k.associations) frame_number [] k.associations tt
                    (IsNamed-each k.associations k.associations (IsIn-self k.associations))) in
              let (picture, asked) =
                lookup-All (IsPicture k.requests) a.pic (index_requests k.requests) r there (
                  index_by-All (IsPicture k.requests) picture_number [] k.requests tt
                    (IsPicture-each k.requests k.requests (IsIn-self k.requests))) in
              record {
                key = ground arith;
                queued = subst (IsIn queue) (ground arith) at;
                bridged = record {
                  association = a;
                  request = r;
                  known = known;
                  same_frame = number;
                  same_picture = (ground arith, ground arith);
                  requested = asked;
                  same_request = (ground arith, ground arith);
                  delivered = ground arith;
                };
              }
        ]
      ]

  bridge_rows-IsFrameRow :
      (d d' : Dict FrameRow) (rows : List GstRow)
      → All (IsIn queue) rows
      → All (IsFrameRow k queue outputs) d
      → bridge_rows (index_frames k.associations) (index_requests k.requests) outputs d rows ≡ ok d'
      → All (IsFrameRow k queue outputs) d'
  unfolding bridge_rows
  bridge_rows-IsFrameRow d d' [] at h ran =
      subst (All (IsFrameRow k queue outputs)) {x = d} (ground arith) h
  bridge_rows-IsFrameRow d d' (row ∷ rows) (here, at) h ran =
      elim (Result-cases
        (bridge_row (index_frames k.associations) (index_requests k.requests) outputs row)) [
          | inr (x, bad) ↦ ground arith
          | inl (x, a) ↦
              bridge_rows-IsFrameRow (put row.frame x d) d' rows at
                (put-All (IsFrameRow k queue outputs) row.frame x d
                  (bridge_row-IsFrameRow row x here a) h)
                (ground arith)
        ]

-- What `select_gst` has read when it returns.
select_gst-parts :
    (k : KernelEvidence) (d : Dict FrameRow) (o : Output) (s : Selected)
    → select_gst k d o ≡ ok s
    → (x : FrameRow) × (request : String) × (runs : String × String) × (start : RefRow)
      × (done : RefRow) × (lookup s.value d ≡ some x)
      × (is_gst_match o s.value request x.row runs ≡ true)
      × (reference_pair k x.picture o.capture_index ≡ ok (start, done))
      × (gst_frame o.place ≡ ok (s.value, request))
      × (two_texts o.run ≡ ok runs)
      × (s.client ≡ o)
      × (s.bridge.picture ≡ x.picture)
      × (s.bridge.poc ≡ x.poc)
      × (s.bridge.kernel_allocation ≡ start.allocation)
unfolding select_gst
select_gst-parts k d o s ran = elim (Result-cases (gst_frame o.place)) [
  | inr (e, bad) ↦ ground arith
  | inl ((frame, request), p) ↦ elim (Option-cases (lookup frame d)) [
    | inl bad ↦ ground arith
    | inr (x, found) ↦ elim (Result-cases (two_texts o.run)) [
      | inr (e, bad) ↦ ground arith
      | inl (runs, t) ↦ elim (Bool-cases (is_gst_match o frame request x.row runs)) [
        | inr bad ↦ ground arith
        | inl match ↦ elim (Result-cases (reference_pair k x.picture o.capture_index)) [
          | inr (e, bad) ↦ ground arith
          | inl ((start, done), r) ↦ (
            x,
            request,
            runs,
            start,
            done,
            ground arith,
            ground arith,
            r,
            ground arith,
            t,
            ground arith,
            ground arith,
            ground arith,
            ground arith,
          )
        ]
      ]
    ]
  ]
]

is_gst_match-parts :
    (o : Output) (frame : ℕ) (request : String) (row : GstRow) (runs : String × String)
    → is_gst_match o frame request row runs ≡ true
    → (row.frame ≡ frame)
      × (row.capture ≡ o.capture_index)
      × (row.writer ≡ from_hex o.writer)
      × (row.allocation ≡ from_hex o.allocation_generation)
      × (row.context ≡ from_hex o.context_generation)
      × (row.request ≡ from_hex request)
      × (text_eq row.run0 runs.0 ≡ true)
      × (text_eq row.run1 runs.1 ≡ true)
is_gst_match-parts o frame request row runs h = (
  ground arith,
  ground arith,
  ground arith,
  ground arith,
  ground arith,
  ground arith,
  ground arith,
  ground arith,
)

select_gst-IsFrameBound :
    (k : KernelEvidence) (queue : List GstRow) (outputs : List OutputRow) (d : Dict FrameRow)
    → All (IsFrameRow k queue outputs) d
    → (o : Output) (s : Selected) → select_gst k d o ≡ ok s
    → IsFrameBound k queue outputs s
select_gst-IsFrameBound k queue outputs d rows o s ran =
    let (
      x, request, runs, start, done, found, match, pair, place, texts, client, picture, poc,
      allocation,
    ) =
      select_gst-parts k d o s ran in
    let at = lookup-All (IsFrameRow k queue outputs) s.value d x found rows in
    let (frame, capture, writer, alloc, context, requested, first, second) =
      is_gst_match-parts o s.value request x.row runs match in
    let same_capture : x.row.capture ≡ s.client.capture_index =
      capture ∙ ap (λ c. c.capture_index) (sym client) in
    record {
      row = x.row;
      queued = at.queued;
      same_client = (
        frame,
        same_capture,
        writer ∙ ap (λ c. from_hex c.writer) (sym client),
        alloc ∙ ap (λ c. from_hex c.allocation_generation) (sym client),
        context ∙ ap (λ c. from_hex c.context_generation) (sym client),
      );
      same_request = (request, ap (λ c. gst_frame c.place) client ∙ place, requested);
      same_run = (runs, ap (λ c. two_texts c.run) client ∙ texts, first, second);
      bridged =
          subst (λ c. IsBridged k outputs s.value c s.bridge.picture s.bridge.poc) same_capture
            (subst (λ n. IsBridged k outputs s.value x.row.capture n s.bridge.poc) (sym picture)
              (subst (λ z. IsBridged k outputs s.value x.row.capture x.picture z) (sym poc)
                at.bridged));
      lifetime =
          subst (λ n. Lifetime k n s.client.capture_index s.bridge.kernel_allocation) (sym picture)
            (subst (λ c. Lifetime k x.picture c s.bridge.kernel_allocation)
              (ap (λ c. c.capture_index) (sym client))
              (subst (λ n. Lifetime k x.picture o.capture_index n) (sym allocation)
                (reference_pair-Lifetime k x.picture o.capture_index start done pair)));
    }

-- The stages of `join_gst`.
join_gst-parts :
    (f : Joined → ℕ) (k : KernelEvidence) (report : Document) (lines : List GstLine)
    (associations : List OutputRow) (selectors : List ℕ) (copy : Bool) (sha : String) (j : Joined)
    → join_gst f k report lines associations selectors copy sha ≡ ok j
    → (os : List Output) × (queue : List GstRow) × (outputs : List OutputRow) × (d : Dict FrameRow)
      × (parse_gst_queue lines (length k.requests) ≡ ok queue)
      × (parse_associations associations (length k.requests) ≡ ok outputs)
      × (bridge_rows (index_frames k.associations) (index_requests k.requests) outputs [] queue
          ≡ ok d)
      × (select_all (select_gst k d) os ≡ ok j.selected)
unfolding join_gst result_of
join_gst-parts f k report lines associations selectors copy sha j ran =
    elim (Result-cases (validate_report report gst selectors copy)) [
      | inr (x, bad) ↦ ground arith
      | inl (os, a) ↦ elim (Result-cases (parse_gst_queue lines (length k.requests))) [
        | inr (x, bad) ↦ ground arith
        | inl (queue, b) ↦
            elim (Result-cases (parse_associations associations (length k.requests))) [
              | inr (x, bad) ↦ ground arith
              | inl (outputs, c) ↦
                  elim (Result-cases (
                    bridge_rows (index_frames k.associations) (index_requests k.requests) outputs []
                      queue)) [
                        | inr (x, bad) ↦ ground arith
                        | inl (d, e) ↦ elim (Result-cases (select_all (select_gst k d) os)) [
                          | inr (x, bad) ↦ ground arith
                          | inl (ss, g) ↦ (os, queue, outputs, d, b, c, e, ground arith)
                        ]
                      ]
            ]
      ]
    ]

-- In a Gst join that returns the queue is parsed, and each selected entry is bound: a row of the
-- queue has its frame, the captured buffer and the client's writer, allocation, context, run and
-- request identity; a raw record of the trace has that frame, and its picture is a request of the kernel in that buffer,
-- which the process delivered; and the kernel's snapshot has that picture written to that buffer and
-- completed, in one allocation.
pub join_gst-IsFrameBound :
    (f : Joined → ℕ) (k : KernelEvidence) (report : Document) (lines : List GstLine)
    (associations : List OutputRow) (selectors : List ℕ) (copy : Bool) (sha : String) (j : Joined)
    → join_gst f k report lines associations selectors copy sha ≡ ok j
    → (queue : List GstRow) × (outputs : List OutputRow) × (parse_gst_queue lines
          (length k.requests)
        ≡ ok queue)
      × (parse_associations associations (length k.requests) ≡ ok outputs)
      × All (IsFrameBound k queue outputs) j.selected
unfolding select_all
join_gst-IsFrameBound f k report lines associations selectors copy sha j ran =
    let (os, queue, outputs, d, queued, parsed, bridged, selected) =
      join_gst-parts f k report lines associations selectors copy sha j ran in
    let rows = bridge_rows-IsFrameRow k queue outputs [] d queue (IsIn-self queue) tt bridged in
    (
      queue,
      outputs,
      queued,
      parsed,
      read_each-All (IsFrameBound k queue outputs) (λ i o. select_gst k d o)
          (λ i. select_gst-IsFrameBound k queue outputs d rows) 0 os j.selected selected,
    )
