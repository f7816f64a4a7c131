-- ===== src/Join/Report.antt =====
-- `validate_report` of experiments/hevc-reference-content/same-run/join.py. The keys of an output are
-- the ones that both clients have and those of its client.
use omarchy_m1_video.Prelude.{text_eq}
use omarchy_m1_video.Prelude.{
  ℕ, ◌==◌, Bool, true, false, not, ◌&&◌, Option, none, some, List, [], ◌∷◌, String, is_some,
  or_default, all, leb, length,
}
use omarchy_m1_video.Exec.{Result, ok, err}
use omarchy_m1_video.Checked.{◌>>=◌, ◌>>◌, need, present}
use omarchy_m1_video.Hevc.Trace.Requests.{mem}
use omarchy_m1_video.Hevc.Trace.Associate.{no_repeats}
use omarchy_m1_video.Join.Text.{uint, hex, hex_nonzero, from_hex}
use omarchy_m1_video.Join.Queues.{same_flag, same_numbers}

pub data Client : Type 0 where
  va gst : Client

-- The output ordinal and the surface, or the frame number and the request.
pub data Place : Type 0 where
  va_place : ℕ → ℕ → Place
  gst_place : ℕ → String → Place

pub record Output : Type 0 where
  pub run : List String
  pub context_generation : String
  pub session : String
  pub allocation_generation : String
  pub writer : String
  pub submitted : String
  pub completed : String
  pub capture_index : ℕ
  pub copied : Bool
  pub sha256 : Option String
  pub place : Place

pub record Document : Type 0 where
  pub schema : String
  pub count : ℕ
  pub outputs : List Output

pub record Identity : Type 0 where
  pub run0 : String
  pub run1 : String
  pub context : String
  pub session : String

abbrev pub two_texts : List String → Result String (String × String)
two_texts (a ∷ (b ∷ [])) = ok (a, b)
two_texts _ = err "run has wrong shape"

-- `_report_identity`
unfoldable pub report_identity : Output → Result String Identity
unfolding hex_nonzero
report_identity o = do
  (run0, run1) ← two_texts o.run
  hex_nonzero run0 16
  hex_nonzero run1 16
  hex_nonzero o.context_generation 16
  hex_nonzero o.session 16
  ok (record { run0 = run0; run1 = run1; context = o.context_generation; session = o.session })

abbrev pub same_identity : Identity → Identity → Bool
same_identity a b =
    text_eq a.run0 b.run0
    && text_eq a.run1 b.run1
    && text_eq a.context b.context
    && text_eq a.session b.session

-- The coordinate of an output that has the keys of its client.
abbrev pub coordinate : Client → Place → Result String ℕ
coordinate va (va_place ordinal surface) = uint ordinal 64
coordinate gst (gst_place frame request) = uint frame 32
coordinate _ _ = err "observer output has unexpected fields"

abbrev pub check_place : Place → Result String Unit
check_place (va_place ordinal surface) = uint surface 32 >> ok tt
check_place (gst_place frame request) = hex_nonzero request 16 >> ok tt

abbrev pub check_digest : Bool → Option String → Result String Unit
check_digest true digest = do
  d ← present digest "sha256 is not 64 lowercase hexadecimal digits"
  hex d 64
  ok tt
check_digest false digest = need (not (is_some digest)) "output exposes a copy-off digest"

-- The fields of one output, once its identity is checked.
unfoldable pub check_output : Bool → Output → Result String Unit
unfolding hex_nonzero hex
check_output copy o = do
  hex_nonzero o.allocation_generation 16
  hex_nonzero o.writer 16
  hex_nonzero o.submitted 16
  hex_nonzero o.completed 16
  need (from_hex o.completed == from_hex o.submitted)
      "output is not at a drained completion frontier"
  uint o.capture_index 32
  need (same_flag o.copied copy) "output has the wrong copy mode"
  check_digest copy o.sha256
  check_place o.place

-- The loop over the outputs: their coordinates.
unfoldable pub read_outputs : Client → Bool → Option Identity → List Output → Result String (List ℕ)
unfolding report_identity check_output
read_outputs client copy common [] = ok []
read_outputs client copy common (o ∷ os) = do
  c ← coordinate client o.place
  i ← report_identity o
  let first = or_default common i
  need (same_identity i first) "observer report mixes run/context/session identity"
  check_output copy o
  cs ← read_outputs client copy (some first) os
  ok (c ∷ cs)

abbrev pub va_schema : String
va_schema = "omarchy.hevc.va-observer-result/v1"

abbrev pub gst_schema : String
gst_schema = "omarchy.hevc.gst-observer-result/v1"

abbrev pub schema_of : Client → String
schema_of va = va_schema
schema_of gst = gst_schema

abbrev pub same_set : List ℕ → List ℕ → Bool
same_set a b = all (λ x. mem x b) a && all (λ x. mem x a) b

-- VA outputs come in the order that was asked for, Gst frames in any order.
abbrev pub selects : Client → List ℕ → List ℕ → Bool
selects va observed selectors = same_numbers observed selectors
selects gst observed selectors = same_set observed selectors

unfoldable pub validate_report : Document → Client → List ℕ → Bool → Result String (List Output)
unfolding read_outputs no_repeats
validate_report document client selectors copy = do
  need (text_eq document.schema (schema_of client)) "observer report has wrong client schema"
  let n = length document.outputs
  need (document.count == n && n == length selectors)
      "observer report count differs from the requested selection"
  need (leb 1 n && leb n 8 && no_repeats selectors) "selectors are not one to eight unique values"
  observed ← read_outputs client copy none document.outputs
  need (selects client observed selectors) "observer outputs differ from the requested ones"
  ok document.outputs
