-- ===== src/Vp9/Contract/Slots.antt =====
-- Destination slots and registrations, on every session that events can reach.
use omarchy_m1_video.Prelude.{ℕ, ◌≡◌, List, [], ◌∷◌, true, false, some}
use omarchy_m1_video.Dict.{lookup}
use omarchy_m1_video.Exec.{ok}
use omarchy_m1_video.Vp9.Event.{Event}
use omarchy_m1_video.Vp9.State.{Session, Buffer, Registration, ModelPath, new_session}
use omarchy_m1_video.Vp9.Ops.Frames.{is_queued}
use omarchy_m1_video.Vp9.Ops.Apply.{apply}
use omarchy_m1_video.Vp9.Contract.Failure.{after}
use omarchy_m1_video.Vp9.Invariant.Defs.{IsValid, new_session-IsValid}
use omarchy_m1_video.Vp9.Invariant.Run.{apply-IsSafe}

pub after-IsValid : (events : List Event) (s : Session) → IsValid s → IsValid (after events s)
unfolding after
after-IsValid [] s v = v
after-IsValid (event ∷ events) s v =
    after-IsValid events (apply event s).1 (apply-IsSafe event s v).valid

module _ (path : ModelPath) (id profile depth : ℕ) (events : List Event) {s : Session}
    (made : new_session path id profile depth ≡ ok s) where
  reached : IsValid (after events s)
  reached = after-IsValid events s (new_session-IsValid path id profile depth s made)

-- On a session that any events have reached, two queued buffers with the same index are one buffer:
-- no two destinations share a slot.
pub slots_unique :
    (path : ModelPath) (id profile depth : ℕ) (events : List Event) (s : Session)
    → new_session path id profile depth ≡ ok s
    → (m n : ℕ) (a b : Buffer) → lookup m (after events s).buffers ≡ some a
    → lookup n (after events s).buffers ≡ some b
    → a.queued_as_dst ≡ true
    → b.queued_as_dst ≡ true
    → a.index ≡ b.index
    → m ≡ n
slots_unique path id profile depth events s made m n a b at_m at_n qa qb same =
    let v = reached path id profile depth events made in
    cc ((v.queue.queued_slot m a at_m qa).1, (v.queue.queued_slot n b at_n qb).1)

-- On a session that any events have reached, a registration is of the current CAPTURE generation and
-- its buffer is not queued as a destination.
pub registrations_current :
    (path : ModelPath) (id profile depth : ℕ) (events : List Event) (s : Session)
    → new_session path id profile depth ≡ ok s
    → (n : ℕ) (r : Registration) → lookup n (after events s).registrations ≡ some r
    → (r.generation ≡ (after events s).capture_generation)
      × (is_queued (lookup n (after events s).buffers) ≡ false)
registrations_current path id profile depth events s made n r found =
    (reached path id profile depth events made).queue.registered n r found
