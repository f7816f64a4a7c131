-- ===== src/Vp9/Contract/Reports.antt =====
-- What the report of `run_events` says of the run.
use omarchy_m1_video.Prelude.{
  ℕ, suc, ◌+◌, ◌≡◌, ◌⊎◌, inl, inr, refl, List, [], ◌∷◌, ◌++◌, none, some, length, arith, ap, subst,
  ◌∙◌,
}
use omarchy_m1_video.Exec.{Result, ok, err}
use omarchy_m1_video.Vp9.Reject.{
  Code, Invariant, Kind, kind_of, source_observed, proposed_contract, Error, crash, fixture, reject,
}
use omarchy_m1_video.Vp9.Event.{Event}
use omarchy_m1_video.Vp9.State.{ModelPath, proposed, stock, Session, new_session}
use omarchy_m1_video.Vp9.Ops.Apply.{
  Report, Status, model_accept, observe, run_events, run_from, run_session, apply, reject_status,
  completion, rejection,
}

-- The sessions that events lead to when each of them is applied without an exception.
pub data Runs : List Event → Session → Session → Type 0 where
  done : {s : Session} → Runs [] s s
  step :
      {event : Event} {events : List Event} {s s' s'' : Session}
      → apply event s ≡ (ok tt, s')
      → Runs events s' s''
      → Runs (event ∷ events) s s''

abbrev pub path_status : ModelPath → Status
path_status proposed = model_accept
path_status stock = observe

abbrev pub path_kind : ModelPath → Kind
path_kind proposed = proposed_contract
path_kind stock = source_observed

-- Every event was applied, and the report has the session after them and the label of the path.
pub record IsCompletion (path : ModelPath) (events : List Event) (s : Session) (r : Report)
    : Type 0 where
  pub applied : Runs events s r.session
  pub labelled : (r.status ≡ path_status path) × (r.kind ≡ path_kind path)
  pub names_nothing : (r.code ≡ none) × (r.invariant ≡ none) × (r.at_event ≡ none)

-- The events up to one were applied, that one was rejected, and the report has its position, with
-- `n` events before the list, the code and the invariant of the rejection, and the session that it
-- left.
pub record IsRejection (n : ℕ) (events : List Event) (s : Session) (r : Report) : Type 0 where
  pub before : List Event
  pub event : Event
  pub after : List Event
  pub reached : Session
  pub code : Code
  pub invariant : Invariant
  pub split : events ≡ before ++ event ∷ after
  pub applied : Runs before s reached
  pub rejected : apply event reached ≡ (err (reject code invariant), r.session)
  pub names_event : r.at_event ≡ some (n + length before)
  pub names_reason : (r.code ≡ some code) × (r.invariant ≡ some invariant)
  pub labelled : (r.status ≡ reject_status code) × (r.kind ≡ kind_of invariant)

abbrev pub IsReport : ModelPath → ℕ → List Event → Session → Report → Type 0
IsReport path n events s r = IsCompletion path events s r ⊎ IsRejection n events s r

after-step :
    (path : ModelPath) (n : ℕ) (event : Event) (events : List Event) (s s' : Session) (r : Report)
    → apply event s ≡ (ok tt, s')
    → IsReport path (suc n) events s' r
    → IsReport path n (event ∷ events) s r
after-step path n event events s s' r ran (inl c) = inl (record {
  applied = step ran c.applied;
  labelled = c.labelled;
  names_nothing = c.names_nothing;
})
after-step path n event events s s' r ran (inr j) = inr (record {
  before = event ∷ j.before;
  event = j.event;
  after = j.after;
  reached = j.reached;
  code = j.code;
  invariant = j.invariant;
  split = ap (λ es. event ∷ es) j.split;
  applied = step ran j.applied;
  rejected = j.rejected;
  names_event = j.names_event ∙ ap some (omega arith);
  names_reason = j.names_reason;
  labelled = j.labelled;
})

completion-IsReport :
    (path : ModelPath) (n : ℕ) (s : Session) → IsReport path n [] s (completion path s)
completion-IsReport stock n s =
    inl (record { applied = done; labelled = (refl, refl); names_nothing = (refl, refl, refl) })
completion-IsReport proposed n s =
    inl (record { applied = done; labelled = (refl, refl); names_nothing = (refl, refl, refl) })

rejection-IsReport :
    (path : ModelPath) (n : ℕ) (event : Event) (events : List Event) (s s' : Session) (c : Code)
    (v : Invariant)
    → apply event s ≡ (err (reject c v), s')
    → IsReport path n (event ∷ events) s (rejection c v n s')
rejection-IsReport path n event events s s' c v ran = inr (record {
  before = [];
  event = event;
  after = events;
  reached = s;
  code = c;
  invariant = v;
  split = refl;
  applied = done;
  rejected = ran;
  names_event = ap some (omega arith);
  names_reason = (refl, refl);
  labelled = (refl, refl);
})

run_from-IsReport :
    (path : ModelPath) (n : ℕ) (events : List Event) (s : Session) (r : Report)
    → run_from path n events s ≡ ok r
    → IsReport path n events s r
unfolding run_from
run_from-IsReport path n [] s r h = subst (IsReport path n [] s) (cc) (completion-IsReport path n s)
run_from-IsReport path n (event ∷ events) s r h =
    by_result (apply event s) refl (run_from-IsReport path (suc n) events (apply event s).1 r)
  where
    by_result :
        (q : Result Error Unit × Session)
        → apply event s ≡ q
        → (run_from path (suc n) events (apply event s).1 ≡ ok r
            → IsReport path (suc n) events (apply event s).1 r)
        → IsReport path n (event ∷ events) s r
    by_result (ok tt, s') p later = after-step path n event events s s' r p (
        subst (λ z. IsReport path (suc n) events z r) (ap (λ q. q.1) p)
          (later (rw (p, run_from) at h)))
    by_result (err (reject c v), s') p later =
        subst (IsReport path n (event ∷ events) s) (cc (rw (p, run_from) at h))
          (rejection-IsReport path n event events s s' c v p)
    by_result (err fixture, s') p later = cc (rw (p, run_from) at h)
    by_result (err crash, s') p later = cc (rw (p, run_from) at h)

-- A run that ends with a report is in one of two cases. Either every event was applied, from a new
-- session, without an exception: then the report is an acceptance on the proposed path, labelled as
-- the proposed contract, and an observation on the stock path, it names no code and no event, and it
-- has the session that the events lead to. Or a first event was rejected: then all before it were
-- applied, and the report has the position of that event, the code and the invariant of its
-- rejection with their status and kind, and the session that the rejection left.
pub run_events-IsReport :
    (path : ModelPath) (events : List Event) (session_id profile bit_depth : ℕ) (r : Report)
    → run_events path events session_id profile bit_depth ≡ ok r
    → (s : Session) × (new_session path session_id profile bit_depth ≡ ok s)
      × IsReport path 0 events s r
unfolding run_events
run_events-IsReport path events session_id profile bit_depth r h =
    by_session (new_session path session_id profile bit_depth) refl h
  where
    by_session :
        (q : Result Error Session)
        → new_session path session_id profile bit_depth ≡ q
        → run_session path events q ≡ ok r
        → (s : Session) × (new_session path session_id profile bit_depth ≡ ok s)
          × IsReport path 0 events s r
    by_session (ok s) p ran = (s, p, run_from-IsReport path 0 events s r ran)
    by_session (err e) p ran = cc
