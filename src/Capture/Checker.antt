-- ===== src/Capture/Checker.antt =====
-- The state of `validate` of experiments/hevc-avd-trace/check.py, and its `buffer`.
use omarchy_m1_video.Prelude.{
  ℕ, ◌+◌, ◌-◌, ◌*◌, ◌/◌, ◌^◌, ◌==◌, Bool, not, ◌&&◌, ◌||◌, Option, none, some, List, [], ◌∷◌,
  String, if◌then◌else◌, opt_eq, all, leb, ltb, or_default,
}
use omarchy_m1_video.Exec.{Exec, pure, gets, modify, raise_if, when, ◌>>=◌, ◌>>◌}
use omarchy_m1_video.Dict.{Dict, lookup, put, contains}
use omarchy_m1_video.Hevc.Map.Motion.{bit}
use omarchy_m1_video.Capture.Rows.{Held, Start}

pub record Finding : Type 0 where
  pub picture : ℕ
  pub kind : ℕ
  pub code : String

-- `histories` is keyed by the buffer and the allocation; the newest item of a key counts.
pub record Checker : Type 0 where
  pub findings : List Finding
  pub starts : Dict Start
  pub histories : List ((ℕ × ℕ) × ℕ)
  pub allocations : Dict ℕ
  pub current_writers : Dict Start
  pub current_allocations : Dict ℕ

abbrev pub new_checker : Checker
new_checker = record {
  findings = [];
  starts = [];
  histories = [];
  allocations = [];
  current_writers = [];
  current_allocations = [];
}

abbrev pub same_key : ℕ × ℕ → ℕ × ℕ → Bool
same_key (a, b) (c, d) = a == c && b == d

unfoldable pub find_history : ℕ × ℕ → List ((ℕ × ℕ) × ℕ) → Option ℕ
find_history k [] = none
find_history k ((j, w) ∷ hs) = let rest = find_history k hs in if same_key j k then some w else rest

-- A call on the state that may raise.
abbrev pub Check : Type 0
Check = Exec Checker String Unit

-- The picture and the kind of the row that a finding is about.
abbrev pub Who : Type 0
Who = ℕ × ℕ

abbrev pub demand : Bool → String → Check
demand condition message = raise_if (not condition) message

abbrev pub finding : Who → String → Check
finding (picture, kind) code = modify (λ (c : Checker). record c {
  findings = record { picture = picture; kind = kind; code = code } ∷ c.findings;
})

abbrev pub check_value : Who → Bool → String → Check
check_value who condition code = when (not condition) (finding who code)

abbrev pub is_bit : ℕ → Bool
is_bit n = n == 0 || n == 1

-- The size of the motion vectors of a picture.
abbrev pub mv_bytes : Start → ℕ
mv_bytes s = (s.width + 63) / 64 * ((s.height + 63) / 64) * 256

-- `valid`: the compressed planes and the motion vectors fit in the allocation.
abbrev pub in_range : Held → ℕ → Bool
in_range h mv =
    leb mv h.length
    && leb (h.comp_start + h.comp_size) (h.length - mv)
    && all (λ x. ltb x h.comp_size) h.offsets

-- The layout of a buffer row, up to the first comparison with the state.
unfoldable pub check_layout : Who → Held → Start → Check
check_layout who h start = do
  demand (is_bit h.copied && is_bit h.intra && is_bit h.completed && is_bit h.bounds)
      "invalid buffer boolean"
  demand (ltb h.buffer (2 ^ 32) && ltb 0 h.allocation && (h.memory == 1 || h.memory == 4))
      "invalid buffer/allocation/memory identity"
  demand
      (ltb 0 h.length
        && ltb h.length (2 ^ 32)
        && ltb h.comp_start (2 ^ 32)
        && ltb h.comp_size (2 ^ 32))
      "layout outside plane domain"
  demand (all (λ x. ltb x (2 ^ 32)) h.offsets) "invalid compressed offset"
  let mv = mv_bytes start
  let valid = in_range h mv
  demand (h.mv_size == mv && h.mv_offset == h.length - mv && h.bounds == bit valid)
      "inconsistent layout snapshot"
  check_value who valid "allocation-range-out-of-bounds"
  check_value who (h.copied == 1) "copied-timestamp-invalid"

-- An allocation stays with one buffer index.
unfoldable pub check_allocation : Held → Check
check_allocation h = do
  c ← gets (λ (c : Checker). c)
  demand (or_default (lookup h.allocation c.allocations) h.buffer == h.buffer)
      "allocation identity aliases buffer indices"
  modify (λ (c : Checker). record c { allocations = put h.allocation h.buffer c.allocations })

-- The comparison with the start of the writer, when that is known.
unfoldable pub check_writer : Who → Held → Option Start → Check
check_writer who h none = pure tt
check_writer who h (some known) = do
  check_value who (h.timestamp == known.held.timestamp) "writer-timestamp-mismatch"
  check_value who (h.intra == bit (known.slice_type == 2)) "writer-intra-mismatch"

-- What a row that reads a buffer says of its writer.
unfoldable pub check_reference : Who → Held → Check
unfolding check_writer find_history
check_reference who h = do
  c ← gets (λ (c : Checker). c)
  check_value who (opt_eq (lookup h.buffer c.current_allocations) (some h.allocation))
      "stale-or-unwritten-allocation"
  check_value who
      (opt_eq (find_history (h.buffer, h.allocation) c.histories) (some h.writer)
        && contains h.writer c.starts)
      "stale-or-unknown-writer"
  check_writer who h (lookup h.writer c.starts)
  check_value who (h.completed == 1) "reference-writer-not-completed"

-- `buffer(row, start)` and `buffer(row, start, True)`
unfoldable pub check_source : Who → Held → Start → Check
unfolding check_layout check_allocation check_reference
check_source who h start = do check_layout who h start; check_allocation h; check_reference who h

unfoldable pub check_destination : Who → Held → Start → Check
unfolding check_layout check_allocation
check_destination who h start = do check_layout who h start; check_allocation h
