-- ===== src/Vp9/Invariant/Defs.antt =====
-- The invariant of a session, in two parts: the codec context, and the CAPTURE queue with its
-- buffers and references.
use omarchy_m1_video.Prelude.{
  ℕ, ◌<◌, ◌≡◌, ◌⊎◌, inl, inr, Bool, true, false, Option, none, some, is_some, subst, sym, arith,
}
use omarchy_m1_video.Dict.{Dict, lookup, contains}
use omarchy_m1_video.Vp9.State.{Session, Era, Buffer, Registration, new_session, ModelPath}
use omarchy_m1_video.Vp9.Ops.Frames.{is_queued}
use omarchy_m1_video.Exec.{ok}

-- The name that the slot of an index holds.
abbrev pub slot_of : Option ℕ → Dict ℕ → Option ℕ
slot_of none slot = none
slot_of (some i) slot = lookup i slot

-- The fields of a session that the queue and the reference checks read.
pub record Queues : Type 0 where
  pub capture_streaming : Bool
  pub capture_slots : ℕ
  pub capture_generation : ℕ
  pub current_era : Option Era
  pub eras : Dict Era
  pub buffers : Dict Buffer
  pub slot : Dict ℕ
  pub registrations : Dict Registration

abbrev pub queues : Session → Queues
queues s = record {
  capture_streaming = s.capture_streaming;
  capture_slots = s.capture_slots;
  capture_generation = s.capture_generation;
  current_era = s.current_era;
  eras = s.eras;
  buffers = s.buffers;
  slot = s.slot;
  registrations = s.registrations;
}

pub record HasQueues (q : Queues) : Type 0 where
  pub capture_slotted : q.capture_streaming ≡ true → 0 < q.capture_slots
  pub era_known : (e : Era) → q.current_era ≡ some e → contains e.id q.eras ≡ true
  -- A buffer is of an era that the session has, and there is a current era.
  pub buffers_in_era :
      (n : ℕ) (b : Buffer)
      → lookup n q.buffers ≡ some b
      → (is_some q.current_era ≡ true) × (contains b.era_id q.eras ≡ true)
  -- A queued buffer owns the slot of its index, in the current generation.
  pub queued_slot :
      (n : ℕ) (b : Buffer)
      → lookup n q.buffers ≡ some b
      → b.queued_as_dst ≡ true
      → (b.generation ≡ some q.capture_generation) × (slot_of b.index q.slot ≡ some n)
  pub slots_in_range : (i n : ℕ) → lookup i q.slot ≡ some n → i < q.capture_slots
  -- A registration is of the current generation, and its buffer is not queued.
  pub registered :
      (n : ℕ) (r : Registration)
      → lookup n q.registrations ≡ some r
      → (r.generation ≡ q.capture_generation) × (is_queued (lookup n q.buffers) ≡ false)

-- The fields of a session that the codec context has.
pub record Context : Type 0 where
  pub output_streaming : Bool
  pub probabilities : Bool
  pub coded_w : Option ℕ
  pub coded_h : Option ℕ
  pub scratch_present : Bool
  pub scratch_w : Option ℕ
  pub scratch_h : Option ℕ

abbrev pub context : Session → Context
context s = record {
  output_streaming = s.output_streaming;
  probabilities = s.probabilities;
  coded_w = s.coded_w;
  coded_h = s.coded_h;
  scratch_present = s.scratch_present;
  scratch_w = s.scratch_w;
  scratch_h = s.scratch_h;
}

-- The codec context lives exactly while OUTPUT streams, and scratch memory has a size.
pub record HasContext (c : Context) : Type 0 where
  pub context_alive : c.probabilities ≡ c.output_streaming
  pub scratch_sized :
      c.scratch_present ≡ true → (is_some c.scratch_w ≡ true) × (is_some c.scratch_h ≡ true)
  pub coded_pair : is_some c.coded_w ≡ is_some c.coded_h

pub record IsValid (s : Session) : Type 0 where
  pub codec : HasContext (context s)
  pub queue : HasQueues (queues s)

-- A handler that leaves the queues alone keeps their half of the invariant.
pub same_queues : {q q' : Queues} → HasQueues q → q' ≡ q → HasQueues q'
same_queues h e = subst HasQueues (sym e) h

pub same_context : {c c' : Context} → HasContext c → c' ≡ c → HasContext c'
same_context h e = subst HasContext (sym e) h

-- A handler that raises before it writes, or makes one write that keeps it.
pub one_write : {q q' w : Queues} → HasQueues q → HasQueues w → (q' ≡ q) ⊎ (q' ≡ w) → HasQueues q'
one_write h k (inl e) = same_queues h e
one_write h k (inr e) = same_queues k e

pub new_session-IsValid :
    (path : ModelPath) (id profile depth : ℕ) (s : Session)
    → new_session path id profile depth ≡ ok s
    → IsValid s
unfolding new_session lookup
new_session-IsValid path id profile depth s h = record {
  codec = ground arith;
  queue = record {
    capture_slotted = ground arith;
    era_known = λ e p. ground arith;
    buffers_in_era = λ n b p. ground arith;
    queued_slot = λ n b p q. ground arith;
    slots_in_range = λ i n p. ground arith;
    registered = λ n r p. ground arith;
  };
}
