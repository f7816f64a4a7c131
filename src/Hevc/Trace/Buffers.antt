-- ===== src/Hevc/Trace/Buffers.antt =====
-- The buffers in the loop over the events of experiments/hevc-controls/normalize.py.
use omarchy_m1_video.Prelude.{
  ℕ, ◌==◌, Bool, true, false, not, ◌&&◌, Option, some, List, [], ◌∷◌, String, ltb, if◌then◌else◌,
  is_some, opt_eq,
}
use omarchy_m1_video.Exec.{Result, ok, err}
use omarchy_m1_video.Checked.{◌>>=◌, ◌>>◌, need, present}
use omarchy_m1_video.Dict.{lookup, put, remove, contains}
use omarchy_m1_video.Hevc.Trace.Event.{
  Event, Buffer, BufferType, capture, other_buffer, key_error, integer, max_u32, mem_text,
  buffer_flags, timestamp,
}
use omarchy_m1_video.Hevc.Trace.State.{Handle, Trace, draft, queued, is_complete}
use omarchy_m1_video.Hevc.Trace.Requests.{mem, handle_of}

-- `capture_buffers.remove(index)`
unfoldable pub discard : ℕ → List ℕ → List ℕ
discard x [] = []
discard x (y ∷ ys) = let rest = discard x ys in if x == y then rest else y ∷ rest

unfoldable pub queue_capture : Trace → ℕ → Result String Trace
queue_capture t index = do
  need (not (mem index t.capture_buffers)) "capture buffer queued twice"
  ok (record t { capture_buffers = index ∷ t.capture_buffers })

-- A request that is queued has a timestamp.
unfoldable pub stamp_request : Trace → Buffer → ℕ → Handle → Result String Trace
unfolding timestamp
stamp_request t b fd (queued n) = err "OUTPUT/request reused before completion"
stamp_request t b fd (draft d) = do
  need (not (is_some d.timestamp) && not (contains b.index t.output_buffers))
      "OUTPUT/request reused before completion"
  ts ← timestamp b
  ok (record t {
    requests = put fd (draft (record d { timestamp = some ts })) t.requests;
    output_buffers = put b.index ts t.output_buffers;
  })

unfoldable pub queue_output : Trace → Buffer → List String → Result String Trace
unfolding stamp_request
queue_output t b names = do
  need (mem_text "V4L2_BUF_FLAG_REQUEST_FD" names) "non-request OUTPUT"
  fd ← present b.request_fd key_error
  integer fd max_u32
  need (mem fd t.allocations) "unallocated OUTPUT request"
  stamp_request t b fd (handle_of t fd)

abbrev pub is_supported : BufferType → Bool
is_supported other_buffer = false
is_supported _ = true

abbrev pub is_capture : BufferType → Bool
is_capture capture = true
is_capture _ = false

-- The checks that both directions share.
abbrev pub read_buffer : Option Buffer → Result String (Buffer × List String)
read_buffer found = do
  b ← present found key_error
  need (is_supported b.buffer_type) "unsupported buffer type"
  integer b.index max_u32
  names ← buffer_flags b.flags
  ok (b, names)

-- `VIDIOC_QBUF`
unfoldable pub queue_buffer : Trace → Event → Result String Trace
unfolding queue_capture queue_output
queue_buffer t e = do
  (b, names) ← read_buffer e.user_buffer
  need (not t.stopped) "buffer queued after stream stop"
  if is_capture b.buffer_type then queue_capture t b.index else queue_output t b names

unfoldable pub finish_output : Trace → ℕ → ℕ → Result String Trace
finish_output t index ts = do
  need (opt_eq (lookup index t.output_buffers) (some ts)) "OUTPUT completion mismatch"
  ok (record t { output_buffers = remove index t.output_buffers })

abbrev pub empty_capture : String
empty_capture = "empty/unsupported capture"

-- One plane, with some bytes used.
abbrev pub one_filled_plane : List ℕ → Result String Unit
one_filled_plane (n ∷ []) = do used ← integer n max_u32; need (ltb 0 used) empty_capture
one_filled_plane _ = err empty_capture

unfoldable pub finish_capture : Trace → Buffer → List String → ℕ → Result String Trace
unfolding discard
finish_capture t b names n = do
  need (mem b.index t.capture_buffers) "CAPTURE completion without QBUF"
  need (mem_text "V4L2_BUF_FLAG_TIMESTAMP_COPY" names) "CAPTURE timestamp is not copied from OUTPUT"
  p ← present (lookup n t.pictures) key_error
  need (not (is_complete p)) "duplicate CAPTURE timestamp"
  count ← integer b.length max_u32
  need (count == 1) empty_capture
  one_filled_plane b.planes
  ok (record t {
    capture_buffers = discard b.index t.capture_buffers;
    pictures = put n (record p { target = some b.index }) t.pictures;
  })

-- `VIDIOC_DQBUF`
unfoldable pub dequeue_buffer : Trace → Event → Result String Trace
unfolding finish_output finish_capture timestamp
dequeue_buffer t e = do
  (b, names) ← read_buffer e.driver_buffer
  ts ← timestamp b
  n ← present (lookup ts t.by_timestamp) "completion without queued picture"
  if is_capture b.buffer_type then finish_capture t b names n else finish_output t b.index ts
