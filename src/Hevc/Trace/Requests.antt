-- ===== src/Hevc/Trace/Requests.antt =====
-- The requests in the loop over the events of experiments/hevc-controls/normalize.py:
-- their allocation, their controls, and their being queued and reinitialised.
use omarchy_m1_video.Prelude.{
  ℕ, ◌+◌, ◌==◌, Bool, true, false, not, ◌&&◌, ◌||◌, Option, none, some, List, [], ◌∷◌, ◌++◌, String,
  ltb, if◌then◌else◌, is_some, any, length,
}
use omarchy_m1_video.Exec.{Result, ok, err}
use omarchy_m1_video.Checked.{◌>>=◌, ◌>>◌, need, present}
use omarchy_m1_video.Dict.{lookup, put, remove, contains}
use omarchy_m1_video.Hevc.Trace.Event.{
  Event, Control, ExtControls, Ioctl, Which, SpsParams, request_reinit, request_val, cur_val,
  sps_id, decode_params_id, slice_params_id, key_error, integer, max_u32, has_control, controls,
  sps_payload, decode_payload, slice_payload,
}
use omarchy_m1_video.Hevc.Trace.State.{
  Draft, Handle, Picture, Trace, new_draft, draft, queued, handle_complete,
}

abbrev pub mem : ℕ → List ℕ → Bool
mem x xs = any (λ y. x == y) xs

abbrev pub is_reinit : Option Ioctl → Bool
is_reinit (some request_reinit) = true
is_reinit _ = false

-- `"errno" not in e`
abbrev pub succeeded : Event → Bool
succeeded e = not (is_some e.errno)

-- `not old or old.get("complete")`: an empty dict is false too.
abbrev pub is_spent : Trace → Option Handle → Bool
is_spent t none = true
is_spent t (some (draft d)) = not (is_some d.controls) && not (is_some d.timestamp)
is_spent t (some (queued n)) = handle_complete t (queued n)

-- `MEDIA_IOC_REQUEST_ALLOC`
unfoldable pub allocate_request : Trace → Event → Result String Trace
allocate_request t e = do
  need (succeeded e) "request allocation failed"
  fd ← present e.driver_fd key_error
  integer fd max_u32
  need (is_spent t (lookup fd t.requests)) "request fd reused while pending"
  ok (record t { allocations = fd ∷ t.allocations; requests = remove fd t.requests })

-- The SPS after a request: its own, or the one before.
abbrev pub next_sps : Option SpsParams → List Control → Result String SpsParams
next_sps old cs =
    if has_control sps_id cs then sps_payload cs else present old "missing initial SPS"

-- The picture that a queued request becomes.
unfoldable pub new_picture : Trace → Draft → Result String Picture
new_picture t d = do
  cs ← present d.controls key_error
  dp ← decode_payload cs
  sl ← slice_payload cs
  sps ← next_sps t.sps cs
  ts ← present d.timestamp key_error
  ok (record {
    pic = length t.pictures + 1;
    timestamp = ts;
    decode = dp;
    slice = sl;
    sps = sps;
    target = none;
  })

-- What a queued request adds to the state.
unfoldable pub add_picture : ℕ → Picture → Trace → Trace
add_picture fd p t = record t {
  requests = put fd (queued p.pic) t.requests;
  pictures = t.pictures ++ (p.pic, p) ∷ [];
  by_timestamp = put p.timestamp p.pic t.by_timestamp;
  sps = some p.sps;
}

-- `MEDIA_REQUEST_IOC_QUEUE`
unfoldable pub queue_request : ℕ → Trace → ℕ → Handle → Result String Trace
unfolding new_picture add_picture
queue_request expected t fd (queued n) = err "duplicate/late request queue"
queue_request expected t fd (draft d) = do
  need (not t.closed && not t.stopped) "duplicate/late request queue"
  p ← new_picture t d
  need (not (contains p.timestamp t.by_timestamp)) "duplicate picture timestamp"
  need (ltb (length t.pictures) expected) "more requests than expected"
  ok (add_picture fd p t)

-- `MEDIA_REQUEST_IOC_REINIT` of a request that is there
unfoldable pub reinit_request : Trace → ℕ → Handle → Result String Trace
reinit_request t fd h = do
  need (handle_complete t h) "reinitialization before capture completion"
  ok (record t { requests = remove fd t.requests })

unfoldable pub request_operation : ℕ → Trace → Event → Result String Trace
unfolding queue_request reinit_request
request_operation expected t e = do
  fd ← present e.fd key_error
  integer fd max_u32
  elim (lookup fd t.requests) [
    | none ↦ do
      need (is_reinit e.ioctl && mem fd t.allocations && succeeded e) "orphaned request operation"
      ok t
    | some h ↦ do
      need (succeeded e) "request operation failed"
      if is_reinit e.ioctl then reinit_request t fd h else queue_request expected t fd h
  ]

abbrev pub no_pictures : Trace → Bool
no_pictures t = length t.pictures == 0

abbrev pub is_cur_val : Which → Bool
is_cur_val cur_val = true
is_cur_val _ = false

-- Controls that are not of a request: the SPS is negotiated, nothing is kept.
unfoldable pub negotiate : Trace → ExtControls → Result String Trace
negotiate t ext = do
  need
      (is_cur_val ext.which
        && no_pictures t
        && not
            (has_control decode_params_id ext.controls || has_control slice_params_id ext.controls))
      "non-request HEVC payload"
  if has_control sps_id ext.controls then (do sps_payload ext.controls; ok t) else ok t

-- `requests.setdefault(fd, {})`
abbrev pub handle_of : Trace → ℕ → Handle
handle_of t fd = elim (lookup fd t.requests) [ none ↦ draft new_draft | some h ↦ h ]

abbrev pub old_controls : Draft → List Control
old_controls d = elim d.controls [ none ↦ [] | some cs ↦ cs ]

unfoldable pub set_controls : Trace → ℕ → List Control → Handle → Result String Trace
set_controls t fd cs (queued n) = err "controls changed after queue"
set_controls t fd cs (draft d) = do
  need (not (any (λ (c : Control). has_control c.id (old_controls d)) cs))
      "controls set twice in request"
  ok (record t {
    requests = put fd (draft (record d { controls = some (old_controls d ++ cs) })) t.requests;
  })

unfoldable pub request_controls : Trace → ExtControls → Result String Trace
unfolding set_controls
request_controls t ext = do
  need (not t.stopped) "controls after stream stop"
  fd ← present ext.request_fd key_error
  integer fd max_u32
  need (mem fd t.allocations) "missing request allocation"
  set_controls t fd ext.controls (handle_of t fd)

-- `VIDIOC_S_EXT_CTRLS`
unfoldable pub write_controls : Trace → Event → Result String Trace
unfolding negotiate request_controls
write_controls t e = do
  ext ← controls e
  elim ext.which [ request_val ↦ request_controls t ext | _ ↦ negotiate t ext ]
