-- ===== src/Hevc/Trace/State.antt =====
-- The variables that `normalize` of experiments/hevc-controls/normalize.py keeps while it reads.
-- A request that is queued is also a picture, one object under two names: the dict of requests
-- then holds the picture's number, and the picture itself is in `pictures` alone.
use omarchy_m1_video.Prelude.{ℕ, Bool, false, true, Option, none, some, List, [], all, is_some}
use omarchy_m1_video.Dict.{Dict, lookup}
use omarchy_m1_video.Hevc.Trace.Event.{Control, SpsParams, DecodeParams, SliceParams}

-- A request before it is queued.
pub record Draft : Type 0 where
  pub controls : Option (List Control)
  pub timestamp : Option ℕ

abbrev pub new_draft : Draft
new_draft = record { controls = none; timestamp = none }

pub data Handle : Type 0 where
  draft : Draft → Handle
  queued : ℕ → Handle

-- A picture is complete when its target is there.
pub record Picture : Type 0 where
  pub pic : ℕ
  pub timestamp : ℕ
  pub decode : DecodeParams
  pub slice : SliceParams
  pub sps : SpsParams
  pub target : Option ℕ

pub record Trace : Type 0 where
  pub allocations : List ℕ
  pub requests : Dict Handle
  pub output_buffers : Dict ℕ
  pub capture_buffers : List ℕ
  pub pictures : Dict Picture
  pub by_timestamp : Dict ℕ
  pub sps : Option SpsParams
  pub closed : Bool
  pub stopped : Bool

abbrev pub empty_trace : Trace
empty_trace = record {
  allocations = [];
  requests = [];
  output_buffers = [];
  capture_buffers = [];
  pictures = [];
  by_timestamp = [];
  sps = none;
  closed = false;
  stopped = false;
}

abbrev pub is_complete : Picture → Bool
is_complete p = is_some p.target

-- `all(p.get("complete") for p in pictures)`
abbrev pub all_complete : Trace → Bool
all_complete t = all (λ e. is_complete e.1) t.pictures

-- `requests[fd].get("complete")`
abbrev pub handle_complete : Trace → Handle → Bool
handle_complete t (draft d) = false
handle_complete t (queued n) = elim (lookup n t.pictures) [ none ↦ false | some p ↦ is_complete p ]

abbrev pub is_queued : Handle → Bool
is_queued (draft d) = false
is_queued (queued n) = true
