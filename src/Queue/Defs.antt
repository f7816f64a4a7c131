-- ===== src/Queue/Defs.antt =====
-- The records and methods of FakeQueue.
use text.Mathlib.Text.{◌==◌ as text_eq}
use omarchy_m1_video.Prelude.{
  ℕ, ◌+◌, String, Bool, true, false, not, ◌&&◌, ◌||◌, Option, none, some, List, [], ltb, leb, ◌==◌,
  ◌!=◌, is_some, length, ℤ, eq_ℤ,
}
use omarchy_m1_video.Dict.{Dict, lookup, put, remove, contains, any_value}
use omarchy_m1_video.Exec.{Exec, pure, gets, or_raise, modify, raise_if, ◌>>=◌, ◌>>◌}

-- The record that `complete` writes, which is also the identity that a caller hands to `pin`.
pub record Writer : Type 0 where
  pub run : ℕ
  pub context : ℕ
  pub allocation : ℕ
  pub generation : ℕ
  pub writer_job : ℕ
  pub picture : ℕ
  pub poc : ℤ

-- `==` of two such dicts
abbrev pub writer_eq : Writer → Writer → Bool
writer_eq a b =
    a.run == b.run
    && (a.context == b.context
        && (a.allocation == b.allocation
            && (a.generation == b.generation
                && (a.writer_job == b.writer_job && (a.picture == b.picture && eq_ℤ a.poc b.poc)))))

abbrev pub opt_writer_eq : Option Writer → Writer → Bool
opt_writer_eq none w = false
opt_writer_eq (some v) w = writer_eq v w

pub record Allocation : Type 0 where
  pub generation : ℕ
  pub bytes : List ℕ
  pub policy : String
  pub writer : Option Writer

-- `writer` is `(picture, POC)`, or `none` for a reference reader.
pub record Job : Type 0 where
  pub allocation : ℕ
  pub generation : ℕ
  pub writer : Option (ℕ × ℤ)

pub record Queue : Type 0 where
  pub run : ℕ
  pub context : ℕ
  pub client : String
  pub paused : Bool
  pub closed : Bool
  pub allocations : Dict Allocation
  pub inflight : Dict Job
  pub completed : Dict Job
  pub pins : Dict Writer
  pub next_job : ℕ
  pub next_pin : ℕ

-- The QueueErrors, by their messages; `key_error` is a failed subscript or `pop`.
pub data Error : Type 0 where
  closed_or_foreign bad_allocation retained_or_inflight is_paused stale_allocation : Error
  retained_writer job_budget writer_changed writer_incomplete stale_identity : Error
  unsupported_pin already_paused not_paused deadline lost_retention key_error : Error

abbrev pub Action : Type 0 → Type 0
Action A = Exec Queue Error A

abbrev pub max_allocations : ℕ
max_allocations = 8

abbrev pub max_pins : ℕ
max_pins = 8

abbrev pub max_jobs : ℕ
max_jobs = 128

-- FakeQueue(run, context, client=client)
unfoldable pub new : ℕ → ℕ → String → Queue
new run context client = record {
  run = run;
  context = context;
  client = client;
  paused = false;
  closed = false;
  allocations = [];
  inflight = [];
  completed = [];
  pins = [];
  next_job = 1;
  next_pin = 1;
}

unfoldable pub is_live : Queue → Bool
is_live q = not q.closed && text_eq q.client "self"

abbrev pub live : Action Unit
live q = raise_if (not (is_live q)) closed_or_foreign q

-- any(p['allocation'] == allocation for p in self.pins.values())
abbrev pub is_pinned : Queue → ℕ → Bool
is_pinned q a = any_value (λ p. p.allocation == a) q.pins

abbrev pub has_job : Queue → ℕ → Bool
has_job q a = any_value (λ j. j.allocation == a) q.inflight

abbrev pub has_writer_job : Queue → ℕ → Bool
has_writer_job q a = any_value (λ j. j.allocation == a && is_some j.writer) q.inflight

-- The two plane sizes of the experiment's streams.
abbrev pub is_plane_size : ℕ → Bool
is_plane_size n = n == 345600 || n == 368128

unfoldable pub allocate : ℕ → ℕ → List ℕ → String → Action Unit
allocate a generation bytes policy = do
  live
  q ← gets (λ q. q)
  raise_if
      (q.paused
        || (contains a q.allocations
            || (leb max_allocations (length q.allocations) || not (is_plane_size (length bytes)))))
      bad_allocation
  modify (λ s. record s {
    allocations =
        put a (record { generation = generation; bytes = bytes; policy = policy; writer = none })
          s.allocations;
  })

unfoldable pub release : ℕ → Action Unit
release a = do
  q ← gets (λ q. q)
  raise_if (is_pinned q a || has_job q a) retained_or_inflight
  or_raise (lookup a q.allocations) key_error
  modify (λ s. record s { allocations = remove a s.allocations })

-- `not a or a['generation'] != generation`
abbrev pub is_stale : Option Allocation → ℕ → Bool
is_stale none g = true
is_stale (some a) g = a.generation != g

unfoldable pub submit : ℕ → ℕ → Option (ℕ × ℤ) → Action ℕ
submit a generation writer = do
  live
  q ← gets (λ q. q)
  raise_if q.paused is_paused
  raise_if (is_stale (lookup a q.allocations) generation) stale_allocation
  raise_if (is_some writer && is_pinned q a) retained_writer
  raise_if (leb max_jobs (length q.inflight + length q.completed)) job_budget
  modify (λ s. record s {
    next_job = s.next_job + 1;
    inflight =
        put q.next_job (record { allocation = a; generation = generation; writer = writer })
          s.inflight;
  })
  pure q.next_job

-- The writer record of a finished write, stored with the allocation.
unfoldable pub record_writer : ℕ → Job → Option (ℕ × ℤ) → Allocation → Action Unit
record_writer job item none a = pure tt
record_writer job item (some (picture, poc)) a = do
  q ← gets (λ q. q)
  raise_if (is_pinned q item.allocation) writer_changed
  modify (λ s. record s {
    allocations =
        put item.allocation
          (record a {
            writer = some (record {
              run = s.run;
              context = s.context;
              allocation = item.allocation;
              generation = item.generation;
              writer_job = job;
              picture = picture;
              poc = poc;
            });
          })
          s.allocations;
  })

unfoldable pub complete : ℕ → Action Unit
unfolding record_writer
complete job = do
  live
  q ← gets (λ q. q)
  item ← or_raise (lookup job q.inflight) key_error
  modify (λ s. record s { inflight = remove job s.inflight })
  a ← or_raise (lookup item.allocation q.allocations) key_error
  record_writer job item item.writer a
  modify (λ s. record s { completed = put job item s.completed })

unfoldable pub writer_record : ℕ → Action Writer
writer_record a = do
  q ← gets (λ q. q)
  found ← or_raise (lookup a q.allocations) key_error
  or_raise found.writer writer_incomplete

-- The writer of an allocation that may be missing.
abbrev pub writer_of : Option Allocation → Option Writer
writer_of none = none
writer_of (some a) = a.writer

-- The token and the bytes that the read-only view shows.
unfoldable pub pin : Writer → ℕ → Action (ℕ × List ℕ)
pin identity len = do
  live
  q ← gets (λ q. q)
  raise_if
      (not (opt_writer_eq (writer_of (lookup identity.allocation q.allocations)) identity)
        || (identity.run != q.run
            || (identity.context != q.context
                || (not (contains identity.writer_job q.completed)
                    || has_writer_job q identity.allocation))))
      stale_identity
  a ← or_raise (lookup identity.allocation q.allocations) stale_identity
  raise_if
      (not (text_eq a.policy "coherent-model")
        || (length a.bytes != len || leb max_pins (length q.pins)))
      unsupported_pin
  modify (λ s. record s { next_pin = s.next_pin + 1; pins = put q.next_pin identity s.pins })
  pure (q.next_pin, a.bytes)

unfoldable pub unpin : ℕ → Action Unit
unpin token = modify (λ s. record s { pins = remove token s.pins })

unfoldable pub pause : Action Unit
pause = do
  live
  q ← gets (λ q. q)
  raise_if q.paused already_paused
  modify (λ s. record s { paused = true })

unfoldable pub validate : ℕ → Writer → Action Unit
validate token identity = do
  live
  q ← gets (λ q. q)
  raise_if
      (not q.paused
        || (ltb 0 (length q.inflight) || not (opt_writer_eq (lookup token q.pins) identity)))
      lost_retention
  a ← or_raise (lookup identity.allocation q.allocations) lost_retention
  raise_if
      (not (opt_writer_eq a.writer identity)
        || (a.generation != identity.generation
            || (identity.run != q.run
                || (identity.context != q.context
                    || (not (text_eq a.policy "coherent-model")
                        || not (contains identity.writer_job q.completed))))))
      lost_retention

unfoldable pub resume : Action Unit
resume = do live; modify (λ s. record s { paused = false })

unfoldable pub stop : Action Unit
stop = modify (λ s. record s { closed = true; paused = false })
