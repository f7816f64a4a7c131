-- ===== src/Hevc/Trace/Steps.antt =====
-- The loop over the events in `normalize` of experiments/hevc-controls/normalize.py.
use omarchy_m1_video.Prelude.{
  ℕ, suc, ◌==◌, Bool, true, false, not, ◌&&◌, ◌||◌, Option, none, some, List, [], ◌∷◌, ◌++◌, String,
  ltb, leb, if◌then◌else◌, is_some, opt_eq, all, length,
}
use omarchy_m1_video.Exec.{Result, ok, err}
use omarchy_m1_video.Checked.{◌>>=◌, ◌>>◌, need, present}
use omarchy_m1_video.Hevc.Trace.Event.{
  Event, Ioctl, Errno, request_alloc, request_queue, request_reinit, s_ext_ctrls, qbuf, dqbuf,
  streamoff, streamon, s_fmt, reqbufs, eagain, decode_params_id, key_error, integer, max_u32,
  has_control, controls,
}
use omarchy_m1_video.Hevc.Trace.State.{Trace, empty_trace, all_complete, is_queued}
use omarchy_m1_video.Hevc.Trace.Requests.{
  succeeded, allocate_request, request_operation, no_pictures, write_controls,
}
use omarchy_m1_video.Hevc.Trace.Buffers.{queue_buffer, dequeue_buffer}

unfoldable pub stop_stream : ℕ → Trace → Result String Trace
stop_stream expected t = do
  need (not (no_pictures t) && length t.pictures == expected && all_complete t)
      "stream stopped before expected captures completed"
  ok (record t { stopped = true })

abbrev pub reconfigure : Bool → Trace → Result String Trace
reconfigure is_reqbufs t = do
  need (no_pictures t || t.stopped && is_reqbufs) "stream reconfiguration after submission"
  ok t

-- A nonblocking DQBUF without a buffer.
abbrev pub is_empty_dequeue : Ioctl → Option Errno → Bool
is_empty_dequeue dqbuf (some eagain) = true
is_empty_dequeue _ _ = false

abbrev pub is_selected : Ioctl → Bool
is_selected s_ext_ctrls = true
is_selected qbuf = true
is_selected dqbuf = true
is_selected streamoff = true
is_selected streamon = true
is_selected s_fmt = true
is_selected reqbufs = true
is_selected _ = false

unfoldable pub selected_ioctl : ℕ → Trace → Ioctl → Event → Result String Trace
unfolding stop_stream write_controls queue_buffer dequeue_buffer
selected_ioctl expected t streamoff e = stop_stream expected t
selected_ioctl expected t streamon e = reconfigure false t
selected_ioctl expected t s_fmt e = reconfigure false t
selected_ioctl expected t reqbufs e = reconfigure true t
selected_ioctl expected t s_ext_ctrls e = write_controls t e
selected_ioctl expected t qbuf e = queue_buffer t e
selected_ioctl expected t dqbuf e = dequeue_buffer t e
selected_ioctl expected t _ e = ok t

-- An ioctl on the video device.
unfoldable pub video_ioctl : ℕ → Trace → Ioctl → Event → Result String Trace
unfolding selected_ioctl
video_ioctl expected t op e = do
  need (not t.closed) "ioctl after video close"
  if not (is_selected op) || is_empty_dequeue op e.errno
      then ok t
      else (do need (succeeded e) "selected ioctl failed"; selected_ioctl expected t op e)

abbrev pub is_request_operation : Option Ioctl → Bool
is_request_operation (some request_queue) = true
is_request_operation (some request_reinit) = true
is_request_operation _ = false

abbrev pub on_device : ℕ → Event → Bool
on_device fd e = opt_eq e.fd (some fd)

unfoldable pub close_device : ℕ → Trace → Event → Result String Trace
close_device fd t e =
    if on_device fd e && e.closing
    then (do need (not t.closed) "duplicate video close"; ok (record t { closed = true }))
    else ok t

unfoldable pub device_event : ℕ → ℕ → Trace → Event → Result String Trace
unfolding video_ioctl
device_event fd expected t e = elim e.ioctl [
  | none ↦ ok t
  | some op ↦ if on_device fd e then video_ioctl expected t op e else ok t
]

-- The rest of the loop's body, for an event after the device was opened.
unfoldable pub later_event : ℕ → ℕ → Trace → Event → Result String Trace
unfolding close_device request_operation device_event
later_event fd expected t e = do
  need (not (on_device fd e && e.opened)) "video fd reused / multiple contexts"
  t1 ← close_device fd t e
  if is_request_operation e.ioctl
      then request_operation expected t1 e
      else device_event fd expected t1 e

abbrev pub is_request_alloc : Option Ioctl → Bool
is_request_alloc (some request_alloc) = true
is_request_alloc _ = false

-- The loop's body.
unfoldable pub read_event : ℕ → ℕ → ℕ → ℕ → Trace → Event → Result String Trace
unfolding allocate_request later_event
read_event fd start expected index t e = do
  t1 ← if is_request_alloc e.ioctl then allocate_request t e else ok t
  if leb index start then ok t1 else later_event fd expected t1 e

unfoldable pub read_events : ℕ → ℕ → ℕ → ℕ → Trace → List Event → Result String Trace
unfolding read_event
read_events fd start expected index t [] = ok t
read_events fd start expected index t (e ∷ es) = do
  t1 ← read_event fd start expected index t e
  read_events fd start expected (suc index) t1 es

-- The checks after the loop.
unfoldable pub finish_trace : ℕ → Trace → Result String Trace
finish_trace expected t = do
  need (t.closed && t.stopped) "missing clean context teardown"
  need (length t.pictures == expected && all_complete t && length t.output_buffers == 0)
      "incomplete expected capture"
  need (all (λ e. is_queued e.1) t.requests) "orphaned pending request"
  ok t

abbrev is_s_ext_ctrls : Option Ioctl → Bool
is_s_ext_ctrls (some s_ext_ctrls) = true
is_s_ext_ctrls _ = false

-- `candidates`: the index and the device of each event that sets decode parameters.
unfoldable pub candidate : ℕ → Event → Result String (List (ℕ × ℕ))
candidate index e =
    if is_s_ext_ctrls e.ioctl
    then (do
      ext ← controls e
      if has_control decode_params_id ext.controls
          then (do fd ← present e.fd key_error; integer fd max_u32; ok ((index, fd) ∷ []))
          else ok [])
    else ok []

unfoldable pub candidates : ℕ → List Event → Result String (List (ℕ × ℕ))
unfolding candidate
candidates index [] = ok []
candidates index (e ∷ es) = do
  here ← candidate index e
  rest ← candidates (suc index) es
  ok (here ++ rest)

-- `opens[-1]`: the last time that the device is opened before an index.
unfoldable pub last_open : ℕ → ℕ → ℕ → List Event → Option ℕ
last_open fd before index [] = none
last_open fd before index (e ∷ es) =
    let rest = last_open fd before (suc index) es in
    if is_some rest
    then rest
    else if ltb index before && on_device fd e && e.opened
    then some index
    else none

-- The device and the event that opens it.
unfoldable pub video_context : List Event → Result String (ℕ × ℕ)
unfolding candidates last_open
video_context events = do
  cs ← candidates 0 events
  elim cs [
    | [] ↦ err "expected exactly one HEVC video context"
    | ((first, fd) ∷ others) ↦ do
      need (all (λ c. c.1 == fd) others) "expected exactly one HEVC video context"
      start ← present (last_open fd first 0 events) "missing video open / truncated context"
      ok (fd, start)
  ]

-- `normalize` up to the records: the pictures of a complete trace.
unfoldable pub read_trace : List Event → ℕ → Result String Trace
unfolding video_context read_events finish_trace
read_trace events expected = do
  need (leb 1 expected && leb expected 10000) "invalid integer"
  (fd, start) ← video_context events
  t ← read_events fd start expected 0 empty_trace events
  finish_trace expected t
