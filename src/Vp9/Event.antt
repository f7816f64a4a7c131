-- ===== src/Vp9/Event.antt =====
-- The events of a fixture, as EVENT_FIELDS of experiments/vp9-state/model.py lists their fields.
use omarchy_m1_video.Prelude.{ℕ, Bool, Option, List, String}

-- The fields of a `decode` event.
pub record Decode : Type 0 where
  pub dst : ℕ
  pub width : ℕ
  pub height : ℕ
  pub bit_depth : Option ℕ
  pub key : Option Bool
  pub refs : Option (List ℕ)
  pub backing_bytes : Option ℕ
  pub force_kernel_lookup : Option Bool

pub data Phase : Type 0 where
  preflight after_destructive other_phase : Phase

-- The events that `validate_event` admits, each with its required and optional fields.
pub data Event : Type 0 where
  open_session : Option ℕ → Event
  output_s_fmt : ℕ → ℕ → Event
  capture_s_fmt proposed_reconfigure : ℕ → ℕ → Option ℕ → Event
  capture_reqbufs : ℕ → Event
  queue_dst : ℕ → Option ℕ → Event
  decode submit : Decode → Event
  export : ℕ → Option ℕ → Event
  register : ℕ → Option ℕ → Option ℕ → Event
  inject_failure : Option Phase → Event
  ask_firmware : Option String → Event
  output_streamon output_streamoff capture_streamon capture_streamoff snapshot : Event
