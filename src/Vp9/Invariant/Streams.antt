-- ===== src/Vp9/Invariant/Streams.antt =====
-- The handlers of formats and streams keep the invariant.
use omarchy_m1_video.Prelude.{ℕ, ◌≡◌, Option, some, arith, String, true, or_default}
use omarchy_m1_video.Dict.{Dict, put, contains, lookup-put}
use omarchy_m1_video.Vp9.Event.{Phase}
use omarchy_m1_video.Vp9.State.{Session, Era, new_era, next_era_id}
use omarchy_m1_video.Vp9.Ops.Streams.{
  op_open, op_output_s_fmt, op_capture_s_fmt, op_output_streamon, op_output_streamoff,
  op_capture_streamon, op_capture_streamoff, op_proposed_reconfigure, op_inject_failure,
  op_ask_firmware,
}
use omarchy_m1_video.Vp9.Invariant.Defs.{IsValid, HasQueues, Queues, same_queues, one_write}

-- One more era under a new id, which becomes the current one or not.
contains-put :
    {V : Type 0} (k j : ℕ) (v : V) (d : Dict V)
    → contains j d ≡ true
    → contains j (put k v d) ≡ true
contains-put k j v d h = ground (arith, lookup-put k j v d)

contains-put_self : {V : Type 0} (k : ℕ) (v : V) (d : Dict V) → contains k (put k v d) ≡ true
contains-put_self k v d = ground (arith, lookup-put k k v d)

module _ {q : Queues} (v : HasQueues q) (k : ℕ) (era : Era) where
  add_era : HasQueues (record q { eras = put k era q.eras })
  add_era = record {
    capture_slotted = v.capture_slotted;
    era_known = λ e p. contains-put k e.id era q.eras (v.era_known e p);
    buffers_in_era =
        λ n b p. ground (arith, v.buffers_in_era n b p, contains-put k b.era_id era q.eras);
    queued_slot = v.queued_slot;
    slots_in_range = v.slots_in_range;
    registered = v.registered;
  }

set_era :
    {q : Queues} (v : HasQueues q) (era : Era)
    → HasQueues (record q { eras = put era.id era q.eras; current_era = some era })
set_era {q} v era = record {
  capture_slotted = v.capture_slotted;
  era_known = λ e p. ground (arith, contains-put_self era.id era q.eras);
  buffers_in_era =
      λ n b p. ground (arith, v.buffers_in_era n b p, contains-put era.id b.era_id era q.eras);
  queued_slot = v.queued_slot;
  slots_in_range = v.slots_in_range;
  registered = v.registered;
}

module _ {s : Session} (v : IsValid s) where
  pub op_open-IsValid : (session : Option ℕ) → IsValid (op_open session s).1
  unfolding op_open
  op_open-IsValid session = record {
    codec = ground (arith, v.codec);
    queue = same_queues v.queue (ground arith);
  }

  pub op_output_s_fmt-IsValid : (w h : ℕ) → IsValid (op_output_s_fmt w h s).1
  unfolding op_output_s_fmt
  op_output_s_fmt-IsValid w h = record {
    codec = ground (arith, v.codec);
    queue = same_queues v.queue (ground arith);
  }

  pub op_output_streamon-IsValid : IsValid (op_output_streamon s).1
  unfolding op_output_streamon
  op_output_streamon-IsValid = record {
    codec = ground (arith, v.codec);
    queue = same_queues v.queue (ground arith);
  }

  pub op_output_streamoff-IsValid : IsValid (op_output_streamoff s).1
  unfolding op_output_streamoff
  op_output_streamoff-IsValid = record {
    codec = ground (arith, v.codec);
    queue = same_queues v.queue (ground arith);
  }

  pub op_inject_failure-IsValid : (phase : Option Phase) → IsValid (op_inject_failure phase s).1
  unfolding op_inject_failure
  op_inject_failure-IsValid phase = record {
    codec = ground (arith, v.codec);
    queue = same_queues v.queue (ground arith);
  }

  pub op_ask_firmware-IsValid : (question : Option String) → IsValid (op_ask_firmware question s).1
  unfolding op_ask_firmware
  op_ask_firmware-IsValid question = record {
    codec = ground (arith, v.codec);
    queue = same_queues v.queue (ground arith);
  }

  pub op_capture_s_fmt-IsValid :
      (w h : ℕ) (depth : Option ℕ) → IsValid (op_capture_s_fmt w h depth s).1
  unfolding op_capture_s_fmt new_era
  op_capture_s_fmt-IsValid w h depth = record {
    codec = ground (arith, v.codec);
    queue =
        one_write v.queue
          (set_era v.queue (new_era (next_era_id s.eras) w h (or_default depth s.bit_depth)))
          (ground arith);
  }

  pub op_proposed_reconfigure-IsValid :
      (w h : ℕ) (depth : Option ℕ) → IsValid (op_proposed_reconfigure w h depth s).1
  unfolding op_proposed_reconfigure new_era
  op_proposed_reconfigure-IsValid w h depth = record {
    codec = ground (arith, v.codec);
    queue =
        one_write v.queue
          (set_era v.queue (new_era (next_era_id s.eras) w h (or_default depth s.bit_depth)))
          (ground arith);
  }

  pub op_capture_streamon-IsValid : IsValid (op_capture_streamon s).1
  unfolding op_capture_streamon
  op_capture_streamon-IsValid = record {
    codec = ground (arith, v.codec);
    queue = record {
      capture_slotted = ground (arith, v.queue.capture_slotted);
      era_known = λ e p. ground (arith, v.queue.era_known e);
      buffers_in_era = λ n b p. ground (arith, v.queue.buffers_in_era n b);
      queued_slot = λ n b p q. ground (arith, v.queue.queued_slot n b);
      slots_in_range = λ i n p. ground (arith, v.queue.slots_in_range i n);
      registered = λ n r p. ground (arith, v.queue.registered n r);
    };
  }

  pub op_capture_streamoff-IsValid : IsValid (op_capture_streamoff s).1
  unfolding op_capture_streamoff
  op_capture_streamoff-IsValid = record {
    codec = ground (arith, v.codec);
    queue = record {
      capture_slotted = λ p. cc;
      era_known = v.queue.era_known;
      buffers_in_era = v.queue.buffers_in_era;
      queued_slot = v.queue.queued_slot;
      slots_in_range = v.queue.slots_in_range;
      registered = v.queue.registered;
    };
  }
