-- ===== src/Hevc/Trace/Changes.antt =====
-- What one event changes in the pictures that `normalize` of experiments/hevc-controls/normalize.py
-- keeps, and what stays true of them.
use omarchy_m1_video.Prelude.{
  ℕ, ◌+◌, ◌≡◌, inl, inr, subst, Bool, true, false, not, ◌||◌, none, some, List, [], ◌∷◌, ◌++◌,
  String, leb, if◌then◌else◌, length, arith, Bool-cases, Option-cases,
}
use omarchy_m1_video.Exec.{Result-cases, ok}
use omarchy_m1_video.Dict.{lookup, put}
use omarchy_m1_video.Hevc.Trace.Event.{
  Event, Buffer, Ioctl, ExtControls, Control, request_alloc, request_queue, request_reinit,
  s_ext_ctrls, qbuf, dqbuf, streamoff, streamon, s_fmt, reqbufs, other_ioctl, Which, request_val,
  cur_val, other_which, controls, timestamp,
}
use omarchy_m1_video.Hevc.Trace.State.{Draft, Handle, Picture, Trace, draft, queued}
use omarchy_m1_video.Hevc.Trace.Requests.{
  allocate_request, new_picture, add_picture, queue_request, reinit_request, request_operation,
  negotiate, set_controls, request_controls, write_controls, handle_of, is_reinit,
}
use omarchy_m1_video.Hevc.Trace.Buffers.{
  queue_capture, queue_output, queue_buffer, finish_output, finish_capture, dequeue_buffer,
  is_capture, read_buffer,
}
use omarchy_m1_video.Hevc.Trace.Steps.{
  stop_stream, is_selected, is_empty_dequeue, on_device, is_request_operation, is_request_alloc,
  selected_ioctl, video_ioctl, close_device, device_event, later_event, read_event,
}

-- Nothing, a picture that joins, or a picture that gets the buffer it was written to.
pub data Change (t t' : Trace) : Type 0 where
  same : t'.pictures ≡ t.pictures → t'.by_timestamp ≡ t.by_timestamp → Change t t'
  joined :
      (p : Picture)
      → p.pic ≡ length t.pictures + 1
      → lookup p.timestamp t.by_timestamp ≡ none
      → t'.pictures ≡ t.pictures ++ (p.pic, p) ∷ []
      → t'.by_timestamp ≡ put p.timestamp p.pic t.by_timestamp
      → Change t t'
  filled :
      (n b : ℕ) (p : Picture)
      → lookup n t.pictures ≡ some p
      → p.target ≡ none
      → t'.pictures ≡ put n (record p { target = some b }) t.pictures
      → t'.by_timestamp ≡ t.by_timestamp
      → Change t t'

allocate_request-Change : (t t' : Trace) (e : Event) → allocate_request t e ≡ ok t' → Change t t'
unfolding allocate_request
allocate_request-Change t t' e ran = same (ground arith) (ground arith)

new_picture-pic :
    (t : Trace) (d : Draft) (p : Picture) → new_picture t d ≡ ok p → p.pic ≡ length t.pictures + 1
unfolding new_picture
new_picture-pic t d p ran = ground arith

queue_request-Change :
    (expected : ℕ) (t t' : Trace) (fd : ℕ) (h : Handle)
    → queue_request expected t fd h ≡ ok t'
    → Change t t'
unfolding queue_request add_picture
queue_request-Change expected t t' fd (queued n) ran = ground arith
queue_request-Change expected t t' fd (draft d) ran = elim (Result-cases (new_picture t d)) [
  | inr (x, bad) ↦ ground arith
  | inl (p, a) ↦ joined p (new_picture-pic t d p a) (ground arith) (ground arith) (ground arith)
]

reinit_request-Change :
    (t t' : Trace) (fd : ℕ) (h : Handle) → reinit_request t fd h ≡ ok t' → Change t t'
unfolding reinit_request
reinit_request-Change t t' fd h ran = same (ground arith) (ground arith)

request_operation-Change :
    (expected : ℕ) (t t' : Trace) (e : Event) → request_operation expected t e ≡ ok t' → Change t t'
unfolding request_operation
request_operation-Change expected t t' e ran = elim (Option-cases e.fd) [
  | inl bad ↦ ground arith
  | inr (fd, f) ↦ elim (Option-cases (lookup fd t.requests)) [
    | inl missing ↦ same (ground arith) (ground arith)
    | inr (h, found) ↦ elim (Bool-cases (is_reinit e.ioctl)) [
      | inl again ↦ reinit_request-Change t t' fd h (ground arith)
      | inr first ↦ queue_request-Change expected t t' fd h (ground arith)
    ]
  ]
]

finish_capture-Change :
    (t t' : Trace) (b : Buffer) (names : List String) (n : ℕ)
    → finish_capture t b names n ≡ ok t'
    → Change t t'
unfolding finish_capture
finish_capture-Change t t' b names n ran = elim (Option-cases (lookup n t.pictures)) [
  | inl bad ↦ ground arith
  | inr (p, found) ↦ filled n b.index p found (ground arith) (ground arith) (ground arith)
]

negotiate-Change : (t t' : Trace) (ext : ExtControls) → negotiate t ext ≡ ok t' → Change t t'
unfolding negotiate
negotiate-Change t t' ext ran = same (ground arith) (ground arith)

set_controls-Change :
    (t t' : Trace) (fd : ℕ) (cs : List Control) (h : Handle)
    → set_controls t fd cs h ≡ ok t'
    → Change t t'
unfolding set_controls
set_controls-Change t t' fd cs (queued n) ran = ground arith
set_controls-Change t t' fd cs (draft d) ran = same (ground arith) (ground arith)

request_controls-Change :
    (t t' : Trace) (ext : ExtControls) → request_controls t ext ≡ ok t' → Change t t'
unfolding request_controls
request_controls-Change t t' ext ran = elim (Option-cases ext.request_fd) [
  | inl bad ↦ ground arith
  | inr (fd, f) ↦ set_controls-Change t t' fd ext.controls (handle_of t fd) (ground arith)
]

controls_kind-Change :
    (t t' : Trace) (ext : ExtControls) (w : Which)
    → elim w [ request_val ↦ request_controls t ext | _ ↦ negotiate t ext ] ≡ ok t'
    → Change t t'
controls_kind-Change t t' ext request_val ran = request_controls-Change t t' ext ran
controls_kind-Change t t' ext cur_val ran = negotiate-Change t t' ext ran
controls_kind-Change t t' ext other_which ran = negotiate-Change t t' ext ran

write_controls-Change : (t t' : Trace) (e : Event) → write_controls t e ≡ ok t' → Change t t'
unfolding write_controls
write_controls-Change t t' e ran = elim (Result-cases (controls e)) [
  | inr (x, bad) ↦ ground arith
  | inl (ext, a) ↦ controls_kind-Change t t' ext ext.which (ground arith)
]

queue_buffer-Change : (t t' : Trace) (e : Event) → queue_buffer t e ≡ ok t' → Change t t'
unfolding queue_buffer queue_capture queue_output
queue_buffer-Change t t' e ran = same (ground arith) (ground arith)

dequeue_buffer-Change : (t t' : Trace) (e : Event) → dequeue_buffer t e ≡ ok t' → Change t t'
unfolding dequeue_buffer finish_output
dequeue_buffer-Change t t' e ran = elim (Result-cases (read_buffer e.driver_buffer)) [
  | inr (x, bad) ↦ ground arith
  | inl ((b, names), a) ↦ elim (Result-cases (timestamp b)) [
    | inr (x, bad) ↦ ground arith
    | inl (ts, c) ↦ elim (Option-cases (lookup ts t.by_timestamp)) [
      | inl bad ↦ ground arith
      | inr (n, found) ↦ elim (Bool-cases (is_capture b.buffer_type)) [
        | inl it ↦ finish_capture-Change t t' b names n (ground arith)
        | inr other ↦ same (ground arith) (ground arith)
      ]
    ]
  ]
]

stop_stream-Change : (expected : ℕ) (t t' : Trace) → stop_stream expected t ≡ ok t' → Change t t'
unfolding stop_stream
stop_stream-Change expected t t' ran = same (ground arith) (ground arith)

selected_ioctl-Change :
    (expected : ℕ) (t t' : Trace) (op : Ioctl) (e : Event)
    → selected_ioctl expected t op e ≡ ok t'
    → Change t t'
unfolding selected_ioctl
selected_ioctl-Change expected t t' streamoff e ran = stop_stream-Change expected t t' ran
selected_ioctl-Change expected t t' streamon e ran = same (ground arith) (ground arith)
selected_ioctl-Change expected t t' s_fmt e ran = same (ground arith) (ground arith)
selected_ioctl-Change expected t t' reqbufs e ran = same (ground arith) (ground arith)
selected_ioctl-Change expected t t' s_ext_ctrls e ran = write_controls-Change t t' e ran
selected_ioctl-Change expected t t' qbuf e ran = queue_buffer-Change t t' e ran
selected_ioctl-Change expected t t' dqbuf e ran = dequeue_buffer-Change t t' e ran
selected_ioctl-Change expected t t' request_alloc e ran = same (ground arith) (ground arith)
selected_ioctl-Change expected t t' request_queue e ran = same (ground arith) (ground arith)
selected_ioctl-Change expected t t' request_reinit e ran = same (ground arith) (ground arith)
selected_ioctl-Change expected t t' other_ioctl e ran = same (ground arith) (ground arith)

video_ioctl-Change :
    (expected : ℕ) (t t' : Trace) (op : Ioctl) (e : Event)
    → video_ioctl expected t op e ≡ ok t'
    → Change t t'
unfolding video_ioctl
video_ioctl-Change expected t t' op e ran =
    elim (Bool-cases (not (is_selected op) || is_empty_dequeue op e.errno)) [
      | inl skip ↦ same (ground arith) (ground arith)
      | inr handled ↦ selected_ioctl-Change expected t t' op e (ground arith)
    ]

device_event-Change :
    (fd expected : ℕ) (t t' : Trace) (e : Event)
    → device_event fd expected t e ≡ ok t'
    → Change t t'
unfolding device_event
device_event-Change fd expected t t' e ran = elim (Option-cases e.ioctl) [
  | inl other ↦ same (ground arith) (ground arith)
  | inr (op, a) ↦ elim (Bool-cases (on_device fd e)) [
    | inl on ↦ video_ioctl-Change expected t t' op e (ground arith)
    | inr off ↦ same (ground arith) (ground arith)
  ]
]

close_device-Change :
    (fd : ℕ) (t t' : Trace) (e : Event) → close_device fd t e ≡ ok t' → Change t t'
unfolding close_device
close_device-Change fd t t' e ran = same (ground arith) (ground arith)

-- What one event changes, in up to two steps each.
pub data Changes : Trace → Trace → Type 0 where
  done : {t : Trace} → Changes t t
  step : {t t1 t2 : Trace} → Change t t1 → Changes t1 t2 → Changes t t2

later_event-Changes :
    (fd expected : ℕ) (t t' : Trace) (e : Event)
    → later_event fd expected t e ≡ ok t'
    → Changes t t'
unfolding later_event
later_event-Changes fd expected t t' e ran = elim (Result-cases (close_device fd t e)) [
  | inr (x, bad) ↦ ground arith
  | inl (t1, a) ↦
      step (close_device-Change fd t t1 e a) (elim (Bool-cases (is_request_operation e.ioctl)) [
        | inl it ↦ step (request_operation-Change expected t1 t' e (ground arith)) done
        | inr other ↦ step (device_event-Change fd expected t1 t' e (ground arith)) done
      ])
]

later_or_skip :
    (skip : Bool) (fd expected : ℕ) (t t' : Trace) (e : Event)
    → (if skip then ok t else later_event fd expected t e) ≡ ok t'
    → Changes t t'
later_or_skip true fd expected t t' e ran = subst (Changes t) (ground arith) done
later_or_skip false fd expected t t' e ran = later_event-Changes fd expected t t' e ran

pub read_event-Changes :
    (fd start expected index : ℕ) (t t' : Trace) (e : Event)
    → read_event fd start expected index t e ≡ ok t'
    → Changes t t'
unfolding read_event
read_event-Changes fd start expected index t t' e ran =
    elim (Bool-cases (is_request_alloc e.ioctl)) [
      | inl it ↦ elim (Result-cases (allocate_request t e)) [
        | inr (x, bad) ↦ ground arith
        | inl (t1, a) ↦
            step (allocate_request-Change t t1 e a)
              (later_or_skip (leb index start) fd expected t1 t' e (ground arith))
      ]
      | inr other ↦ later_or_skip (leb index start) fd expected t t' e (ground arith)
    ]
