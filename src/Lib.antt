-- ===== src/Lib.antt =====
-- Models of the decision code of omarchy-m1-video: the offline prototypes and scanners by which the
-- repository decides what the Apple M1 video decoder may be asked to do, with theorems on them.
--
-- The programs are separate and talk through files, so each has a tree of modules of its own:
--
--   Queue   experiments/hevc-reference-content/synthetic_queue.py: FakeQueue, the queue that keeps
--           a decoded picture's bytes for a reader. Queue.Defs has the object and its methods under
--           their names, Queue.Schedule the calls of several threads as sequences and `drain`, whose
--           wait takes the calls of the other threads, and the deadline, from a list of turns.
--   Vp9     experiments/vp9-state/model.py: the session of a VP9 decoder over a resize. Vp9.Layout
--           has the sizes, Vp9.State the objects, Vp9.Ops the handlers `op_*` and the reference
--           checks `_resolve_*`, and Vp9.Ops.Apply `apply`, `snapshot` and `run_events`.
--   Nal     experiments/hevc-parameter-sets/hevcnal.py: Annex B streams and emulation prevention
--           (Nal.Stream), the class Bits (Nal.Reader), and the readers and setters of parameter
--           sets (Nal.Sets), which are calls on the bits between `_payload` and `_rebuild`.
--   H264    experiments/h264-profile-selection/selection.py: the inventory of a stream and its
--           validation (H264.Inventory), the tests of one picture (H264.Checks), the current and
--           proposed selections of a VA profile (H264.Select), and `run_fixture` (H264.Fixture).
--   Scan    tests/vp9-sub64-scan.py: the frame header and the tile geometry (Scan.Header), the
--           verdict and the cross-check (Scan.Verdict), and the containers (Scan.Container).
--   Interlace  tests/h264-interlace-scan.py: the bit reader and the units (Interlace.Reader), the
--           parameter sets (Interlace.Params), and `classify_data` (Interlace.Classify).
--   Hevc    experiments/hevc-controls/normalize.py (Hevc.Trace): a trace of ioctls becomes records
--           of pictures with their references. Trace.State has the variables of `normalize`,
--           Trace.Requests, Trace.Buffers and Trace.Steps its loop over the events, Trace.Slices and
--           Trace.Emit its loop over the pictures, and Trace.Associate `associate`.
--           experiments/hevc-avd-map/model.py (Hevc.Map) reads those records (Hevc.Record) and
--           predicts the hardware's words: Map.Words, Map.Lookup for `kernel_lookup`, Map.Motion, and
--           Map.Steps for `map_records`. Both keep who wrote a buffer last; Map.History says what
--           that is in terms of the records alone, and Hevc.Agree puts the two together.
--   Join    experiments/hevc-reference-content/same-run/join.py: an observer's outputs joined to
--           kernel evidence. Join.Evidence has `KernelEvidence` and the lifetimes, Join.Queues the
--           parsers, Join.Report `validate_report`, and Join.Select `join_va` and `join_gst`.
--   Capture experiments/hevc-avd-trace/check.py: the snapshot of a kernel, row by row (Capture.Rows),
--           `read_capture` on the tokens of its lines (Capture.Read), the checks of a buffer with the
--           state they read (Capture.Checker), of the commands (Capture.Groups), and `check_group`
--           and the loop of `validate` (Capture.Validate). What it compares with is the `Mapped` of
--           Hevc.Map. Capture.Writers says who wrote a buffer in terms of the recorded starts alone.
--
-- Prelude, Dict, Bits, Exec and Checked are shared: Boolean tests, dicts as association lists, bit
-- lengths, and calls that change a state and may raise. What was written before an exception stays
-- written, as in Python, so the state comes back beside the exception; code that only reads uses
-- Checked. Tests runs the models.
--
-- Python's ints are natural numbers where the code admits no others; a picture order count is an
-- integer. Names that are only compared are numbers. A missing key and a read of None are the errors
-- `key_error` and `crash`. JSON is a record or a list of records, a key that an object may lack an
-- option, and a set of keys is the record's type; a hexadecimal word that is printed is its number.
-- In `normalize` a queued request and its picture are one object, so the dict of requests holds the
-- picture's number and the pictures are a store of their own.
--
-- Loops that are no recursion on a list have a number of rounds. `Bits.ue` gives up after 31 zeros,
-- so 32 rounds are all that it can take; the interlace scanner's reader gives up after 32, in 33
-- rounds. `_alloc_index` looks at one index a round. The two loops of `_tile_geometry` get as many
-- rounds as there are superblock columns, and the loop over a WebM file twice the file's length and
-- three, since each round reads a byte or drops a range. A bit length is found in as many rounds as
-- the number itself.
--
-- Not modelled: the JSON of a VP9 fixture (`validate_event`, `_check_expect` and `run_fixture` of
-- experiments/vp9-state/model.py), the decoding of JSON, the matching of log lines by patterns and
-- the splitting of a text into lines and tokens, whose results the models take, file and
-- process I/O, command lines and reports' texts; the campaign controllers, builds, captures and
-- tools that drive a device or compile external code; the installer, the package, and the patches
-- of a kernel that the repository does not hold.
pub mod Prelude
pub mod Dict
pub mod Bits
pub mod Exec
pub mod Queue
pub mod Vp9
pub mod Nal
pub mod H264
pub mod Scan
pub mod Interlace
pub mod Checked
pub mod Hevc
pub mod Join
pub mod Capture
pub mod Tests
