-- ===== src/Vp9/Invariant/Register.antt =====
-- `op_register` keeps the invariant: what it registers is not queued, and is of this generation.
use omarchy_m1_video.Prelude.{
  ℕ, ◌≡◌, refl, sym, ap, Option, some, arith, false, inl, inr, Option-cases, or_default,
}
use omarchy_m1_video.Dict.{lookup, put, lookup-put}
use omarchy_m1_video.Exec.{ok}
use omarchy_m1_video.Vp9.State.{Session, Buffer, Registration}
use omarchy_m1_video.Vp9.Ops.Frames.{op_register, register_buffer, check_register, check_exported}
use omarchy_m1_video.Vp9.Invariant.Defs.{IsValid, HasQueues, Queues, same_context, one_write}
use omarchy_m1_video.Vp9.Invariant.Safe.{IsSafe, bind-IsSafe}
use omarchy_m1_video.Vp9.Invariant.References.{check_register-IsSafe}
use omarchy_m1_video.Vp9.Invariant.Frames.{rewrite_buffer}

abbrev stamped : Option ℕ → Buffer → Buffer
stamped ts buf = record buf { timestamp = ts; queued_as_dst = false }

add_registration :
    {q : Queues} (v : HasQueues q) (name : ℕ) (buf : Buffer) (ts : Option ℕ) (r : Registration)
    → lookup name q.buffers ≡ some buf
    → buf.queued_as_dst ≡ false
    → r.generation ≡ q.capture_generation
    → HasQueues (record q {
      buffers = put name (stamped ts buf) q.buffers;
      registrations = put name r q.registrations;
    })
add_registration {q} v name buf ts r here free current =
    let w =
      rewrite_buffer v name buf (stamped ts buf) here ((v.buffers_in_era name buf here).1)
        (sym free) refl refl in
    record {
      capture_slotted = w.capture_slotted;
      era_known = w.era_known;
      buffers_in_era = w.buffers_in_era;
      queued_slot = w.queued_slot;
      slots_in_range = w.slots_in_range;
      registered = λ n x p. ground (
        arith,
        lookup-put name n (stamped ts buf) q.buffers,
        lookup-put name n r q.registrations,
        w.registered n x,
      );
    }

register_buffer-IsSafe :
    (name : ℕ) (ts idx : Option ℕ) (buf : Buffer) (s : Session)
    → IsValid s
    → lookup name s.buffers ≡ some buf
    → buf.queued_as_dst ≡ false
    → IsSafe (register_buffer name ts idx buf s)
unfolding register_buffer
register_buffer-IsSafe name ts idx buf s v here free = record {
  no_crash = ground arith;
  valid = record {
    codec = same_context v.codec (ground arith);
    queue =
        one_write v.queue
          (add_registration v.queue name buf (some (or_default ts s.next_reg_ts))
            (record {
              generation = s.capture_generation;
              timestamp = or_default ts s.next_reg_ts;
              era_id = buf.era_id;
              index = idx;
            })
            here free refl)
          (ground arith);
  };
}

check_exported_lem :
    (buf : Buffer) (s : Session)
    → ((check_exported buf s).1 ≡ s)
      × ((check_exported buf s).0 ≡ ok tt → buf.queued_as_dst ≡ false)
unfolding check_exported
check_exported_lem buf s = ground arith

-- What `check_register` has found when it returns.
check_register_lem :
    (name : ℕ) (s : Session) (buf : Buffer)
    → (check_register name s).0 ≡ ok buf
    → ((check_register name s).1 ≡ s)
      × (lookup name s.buffers ≡ some buf)
      × (buf.queued_as_dst ≡ false)
unfolding check_register
check_register_lem name s buf h = elim (Option-cases (lookup name s.buffers)) [
  | inl missing ↦ ground arith
  | inr (b, here) ↦ ground (arith, check_exported_lem b s)
]

pub op_register-IsSafe :
    (name : ℕ) (ts idx : Option ℕ) (s : Session) → IsValid s → IsSafe (op_register name ts idx s)
unfolding op_register
op_register-IsSafe name ts idx s v =
    bind-IsSafe (register_buffer name ts idx) (check_register name) s
      (check_register-IsSafe name s v)
      (λ buf t p w.
        let found = check_register_lem name s buf (ap (λ r. r.0) p) in
        let same : t ≡ s = cc (found.0, ap (λ r. r.1) p) in
        rw same (register_buffer-IsSafe name ts idx buf s v found.1 found.2))
