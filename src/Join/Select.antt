-- ===== src/Join/Select.antt =====
-- `join_va`, `join_gst` and `_result` of experiments/hevc-reference-content/same-run/join.py. The
-- length of a result's JSON is a parameter.
use omarchy_m1_video.Prelude.{text_eq}
use omarchy_m1_video.Prelude.{
  ℕ, ◌-◌, ◌*◌, ◌==◌, ℤ, eq_ℤ, Bool, true, not, ◌&&◌, Option, none, some, List, [], ◌∷◌, String, any,
  leb, length, get_elem?, if◌then◌else◌,
}
use omarchy_m1_video.Exec.{Result, ok, err}
use omarchy_m1_video.Checked.{◌>>=◌, ◌>>◌, need, present, read_each}
use omarchy_m1_video.Dict.{Dict, lookup, put, index_by}
use omarchy_m1_video.Hevc.Record.{Request}
use omarchy_m1_video.Hevc.Trace.Event.{key_error}
use omarchy_m1_video.Hevc.Trace.Emit.{Association}
use omarchy_m1_video.Hevc.Trace.Associate.{frame_number}
use omarchy_m1_video.Join.Text.{hex, from_hex, is_forbidden, read_number, has_word}
use omarchy_m1_video.Join.Evidence.{KernelEvidence, RefRow, check, reference_pair}
use omarchy_m1_video.Join.Queues.{
  VaRow, GstLine, GstRow, OutputRow, parse_va_queue, parse_gst_queue, parse_associations,
  same_projection,
}
use omarchy_m1_video.Join.Report.{
  Client, Place, Output, Document, va, gst, va_place, gst_place, validate_report, two_texts,
}

-- `bridge`; a Gst output has no surface.
pub record Bridge : Type 0 where
  pub picture : ℕ
  pub poc : ℤ
  pub capture_index : ℕ
  pub client_surface_generation : Option ℕ
  pub kernel_allocation : ℕ
  pub kernel_writer : ℕ
  pub kernel_completed : Bool

-- `selector` and `client`; the client's part has every field of the output but its coordinate.
pub record Selected : Type 0 where
  pub value : ℕ
  pub client : Output
  pub bridge : Bridge

pub record Joined : Type 0 where
  pub client : Client
  pub copy : Bool
  pub run : ℕ
  pub context : ℕ
  pub selected : List Selected
  pub inputs : List (String × String)

abbrev pub bridge_of : ℕ → ℤ → ℕ → Option ℕ → RefRow → Bridge
bridge_of picture poc capture surface start = record {
  picture = picture;
  poc = poc;
  capture_index = capture;
  client_surface_generation = surface;
  kernel_allocation = start.allocation;
  kernel_writer = picture;
  kernel_completed = true;
}

-- `by_output`
abbrev pub output_number : OutputRow → ℕ
output_number row = row.output_index

abbrev pub index_outputs : List OutputRow → Dict OutputRow
index_outputs rows = index_by output_number [] rows

-- `zip(queue, evidence.requests)`
unfoldable pub check_projections : List VaRow → List Request → Result String Unit
unfolding same_projection
check_projections (row ∷ rows) (r ∷ rs) = do
  need (same_projection row.request r) "VA queue row is not the raw V4L2 request from this process"
  check_projections rows rs
check_projections _ _ = ok tt

-- The checks of a VA output against the row of its picture.
unfoldable pub check_va_match : Output → VaRow → OutputRow → Result String Unit
unfolding read_number
check_va_match o row association = do
  (run0, run1) ← two_texts o.run
  need (text_eq row.observer.run (Prim.Native.String.◌++◌ run0 run1)) "VA report/queue run mismatch"
  need (row.observer.context == from_hex o.context_generation) "VA report/queue context mismatch"
  need (row.observer.allocation == from_hex o.allocation_generation)
      "VA report/queue allocation mismatch"
  need (row.observer.writer == from_hex o.writer) "VA report/queue writer mismatch"
  need (row.request.target == o.capture_index) "VA report/queue capture mismatch"
  need (eq_ℤ row.request.poc association.poc) "VA queue/output POC mismatch"

abbrev pub va_ordinal : Place → Result String ℕ
va_ordinal (va_place ordinal surface) = ok ordinal
va_ordinal (gst_place frame request) = err key_error

unfoldable pub select_va :
    KernelEvidence → List VaRow → Dict OutputRow → Output → Result String Selected
unfolding check_va_match reference_pair
select_va k queue by_output o = do
  ordinal ← va_ordinal o.place
  association ← present (lookup ordinal by_output) "VA output ordinal is not associated"
  row ← present (get_elem? queue (association.pic - 1)) "IndexError"
  check_va_match o row association
  (start, _) ← reference_pair k association.pic o.capture_index
  ok (record {
    value = ordinal;
    client = o;
    bridge =
        bridge_of association.pic association.poc o.capture_index (some row.observer.surface) start;
  })

abbrev pub gst_frame : Place → Result String (ℕ × String)
gst_frame (gst_place frame request) = ok (frame, request)
gst_frame (va_place ordinal surface) = err key_error

-- A row of `queue_by_frame`
pub record FrameRow : Type 0 where
  pub row : GstRow
  pub picture : ℕ
  pub poc : ℤ

-- `raw_by_frame`, `requests_by_picture` and the pictures of `outputs_by_picture`
abbrev pub index_frames : List Association → Dict Association
index_frames rows = index_by frame_number [] rows

abbrev pub picture_number : Request → ℕ
picture_number r = r.pic

abbrev pub index_requests : List Request → Dict Request
index_requests rs = index_by picture_number [] rs

abbrev pub is_delivered : ℕ → List OutputRow → Bool
is_delivered picture rows = any (λ (r : OutputRow). r.pic == picture) rows

-- The body of the loop over the queue.
unfoldable pub bridge_row :
    Dict Association → Dict Request → List OutputRow → GstRow → Result String FrameRow
bridge_row frames requests outputs row = do
  raw ← present (lookup row.frame frames) "Gst queue frame has no raw V4L2 timestamp bridge"
  request ← present (lookup raw.pic requests) key_error
  need (request.target == row.capture) "Gst queue frame has the wrong raw V4L2 capture lifetime"
  need (is_delivered raw.pic outputs) "Gst queue frame was not delivered by the same process"
  ok (record { row = row; picture = raw.pic; poc = raw.poc })

-- `queue_by_frame`
unfoldable pub bridge_rows :
    Dict Association
    → Dict Request
    → List OutputRow
    → Dict FrameRow
    → List GstRow
    → Result String (Dict FrameRow)
unfolding bridge_row
bridge_rows frames requests outputs d [] = ok d
bridge_rows frames requests outputs d (row ∷ rows) = do
  x ← bridge_row frames requests outputs row
  bridge_rows frames requests outputs (put row.frame x d) rows

-- `expected` against the row
abbrev pub is_gst_match : Output → ℕ → String → GstRow → String × String → Bool
is_gst_match o frame request row (run0, run1) =
    text_eq row.run0 run0
    && text_eq row.run1 run1
    && row.context == from_hex o.context_generation
    && row.allocation == from_hex o.allocation_generation
    && row.request == from_hex request
    && row.writer == from_hex o.writer
    && row.frame == frame
    && row.capture == o.capture_index

unfoldable pub select_gst : KernelEvidence → Dict FrameRow → Output → Result String Selected
unfolding read_number reference_pair
select_gst k queue_by_frame o = do
  (frame, request) ← gst_frame o.place
  x ← present (lookup frame queue_by_frame) "Gst selected frame has no same-process queue record"
  runs ← two_texts o.run
  need (is_gst_match o frame request x.row runs) "Gst report/queue identity mismatch"
  (start, _) ← reference_pair k x.picture o.capture_index
  ok (record {
    value = frame;
    client = o;
    bridge = bridge_of x.picture x.poc o.capture_index none start;
  })

abbrev pub max_output_bytes : ℕ
max_output_bytes = 32 * 1024

-- The loop over the outputs; the position is not used.
unfoldable pub select_all :
    (Output → Result String Selected) → List Output → Result String (List Selected)
unfolding read_each
select_all select outputs = read_each (λ i o. select o) 0 outputs

-- `hashes + [("client_queue", digest)]` as a dict: a key that is there keeps its place.
unfoldable pub set_hash : String → String → List (String × String) → List (String × String)
set_hash name value [] = (name, value) ∷ []
set_hash name value ((other, old) ∷ hashes) =
    let rest = set_hash name value hashes in
    if text_eq other name then (name, value) ∷ hashes else (other, old) ∷ rest

module _ (encoded_length : Joined → ℕ) where
  -- `_result`; of the keys only the names of the hashes come from outside.
  unfoldable pub result_of :
      KernelEvidence → Client → Bool → List Selected → String → Result String Joined
  unfolding hex has_word set_hash
  result_of k client copy selected queue_sha256 = do
    hex queue_sha256 64
    let result : Joined = record {
      client = client;
      copy = copy;
      run = k.run;
      context = k.context;
      selected = selected;
      inputs = set_hash "client_queue" queue_sha256 k.hashes;
    }
    need (leb (encoded_length result) max_output_bytes) "normalized join result exceeds its bound"
    need (not (any (λ (h : String × String). is_forbidden h.0) k.hashes))
        "normalized join result contains a forbidden raw field"
    ok result

  unfoldable pub join_va :
      KernelEvidence
      → Document
      → List VaRow
      → List OutputRow
      → List ℕ
      → Bool
      → String
      → Result String Joined
  unfolding check validate_report parse_va_queue parse_associations check_projections index_by
      select_va select_all result_of
  join_va k report queue_raw associations selectors copy queue_sha256 = do
    check k
    outputs ← validate_report report va selectors copy
    queue ← parse_va_queue queue_raw (length k.requests)
    output_rows ← parse_associations associations (length k.requests)
    check_projections queue k.requests
    selected ← select_all (select_va k queue (index_outputs output_rows)) outputs
    result_of k va copy selected queue_sha256

  unfoldable pub join_gst :
      KernelEvidence
      → Document
      → List GstLine
      → List OutputRow
      → List ℕ
      → Bool
      → String
      → Result String Joined
  unfolding check validate_report parse_gst_queue parse_associations index_by bridge_rows select_gst
      select_all result_of
  join_gst k report queue_raw associations selectors copy queue_sha256 = do
    check k
    outputs ← validate_report report gst selectors copy
    queue ← parse_gst_queue queue_raw (length k.requests)
    output_rows ← parse_associations associations (length k.requests)
    queue_by_frame ←
        bridge_rows (index_frames k.associations) (index_requests k.requests) output_rows [] queue
    need (length queue_by_frame == length k.requests) "Gst queue/raw V4L2 bridge is incomplete"
    selected ← select_all (select_gst k queue_by_frame) outputs
    result_of k gst copy selected queue_sha256
