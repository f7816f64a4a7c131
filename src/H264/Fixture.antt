-- ===== src/H264/Fixture.antt =====
-- `run_fixture` of experiments/h264-profile-selection/selection.py. A fixture has each key as an
-- option, and what it expects as texts; its `id` and `classification` are copied and left out.
use omarchy_m1_video.Prelude.{text_eq}
use omarchy_m1_video.Prelude.{
  Bool, true, false, ◌&&◌, Option, none, some, List, String, if◌then◌else◌, or_default,
}
use omarchy_m1_video.Exec.{Result, ok, err}
use omarchy_m1_video.H264.Inventory.{
  Stream, VaProfile, FixtureError, constrained_baseline, main, high, high10,
}
use omarchy_m1_video.H264.Checks.{
  Reason, Checks, default_checks, malformed_header, data_partition, fmo, fields, unsupported_nal,
  redundant_picture, slice_order, unsupported_transform, unsupported_entropy, sp_slice, si_slice,
  baseline_with_b_slices, disallowed_slice, sps_incompatible, unmapped_profile,
  va_profile_not_advertised, exact_profile_match, baseline_constrained_subset, extended_main_subset,
  no_h264_va_profile_advertised, allow_profile_mismatch, profile_mismatch,
}
use omarchy_m1_video.H264.Select.{
  Decision, Status, select, refuse, reject, select_current, select_proposed,
}

abbrev pub schema_name : String
schema_name = "omarchy-m1-video.h264-profile-selection/2"

pub data FixturePath : Type 0 where
  current proposed other_path : FixturePath

-- The outer option is whether the key is there, the inner one whether its value is not null.
pub record Expectation : Type 0 where
  pub status : Option String
  pub va_profile : Option (Option String)
  pub reason : Option (Option String)

-- `pictures` is a list where the stream is given.
pub record Fixture : Type 0 where
  pub schema : String
  pub path : FixturePath
  pub stream : Option Stream
  pub expected : Option Expectation
  pub advertised : Option (List VaProfile)

pub data FixtureFailure : Type 0 where
  unsupported_schema bad_path bad_pictures no_expected_status : FixtureFailure
  refused : FixtureError → FixtureFailure

pub record Outcome : Type 0 where
  pub decision : Decision
  pub agrees : Bool

unfoldable pub status_text : Status → String
status_text select = "select"
status_text refuse = "refuse"
status_text reject = "reject"

unfoldable pub profile_text : VaProfile → String
profile_text constrained_baseline = "VAProfileH264ConstrainedBaseline"
profile_text main = "VAProfileH264Main"
profile_text high = "VAProfileH264High"
profile_text high10 = "VAProfileH264High10"

unfoldable pub reason_text : Reason → String
reason_text malformed_header = "malformed_header"
reason_text data_partition = "data_partition"
reason_text fmo = "fmo"
reason_text fields = "fields"
reason_text unsupported_nal = "unsupported_nal"
reason_text redundant_picture = "redundant_picture"
reason_text slice_order = "slice_order"
reason_text unsupported_transform = "unsupported_transform"
reason_text unsupported_entropy = "unsupported_entropy"
reason_text sp_slice = "sp_slice"
reason_text si_slice = "si_slice"
reason_text baseline_with_b_slices = "baseline_with_b_slices"
reason_text disallowed_slice = "disallowed_slice"
reason_text sps_incompatible = "sps_incompatible"
reason_text unmapped_profile = "unmapped_profile"
reason_text va_profile_not_advertised = "va_profile_not_advertised"
reason_text exact_profile_match = "exact_profile_match"
reason_text baseline_constrained_subset = "baseline_constrained_subset"
reason_text extended_main_subset = "extended_main_subset"
reason_text no_h264_va_profile_advertised = "no_h264_va_profile_advertised"
reason_text allow_profile_mismatch = "allow_profile_mismatch"
reason_text profile_mismatch = "profile_mismatch"

abbrev pub same_text : Option String → Option String → Bool
same_text none none = true
same_text (some a) (some b) = text_eq a b
same_text _ _ = false

abbrev pub profile_name : Option VaProfile → Option String
profile_name none = none
profile_name (some v) = some (profile_text v)

-- A key that is not expected agrees.
abbrev pub agrees_with : Option String → Option (Option String) → Bool
agrees_with got none = true
agrees_with got (some wanted) = same_text got wanted

unfoldable pub compare : Decision → String → Expectation → Outcome
unfolding status_text profile_text reason_text
compare got status e = record {
  decision = got;
  agrees =
      text_eq (status_text got.status) status
      && agrees_with (profile_name got.va_profile) e.va_profile
      && agrees_with (some (reason_text got.reason)) e.reason;
}

abbrev pub is_path : FixturePath → Bool
is_path other_path = false
is_path _ = true

-- The decision of the path that a fixture names.
unfoldable pub decide :
    FixturePath → Stream → Option (List VaProfile) → Checks → Result FixtureError Decision
unfolding select_current select_proposed
decide proposed stream advertised checks = select_proposed stream advertised checks
decide _ stream advertised checks = select_current stream advertised false

abbrev pub from_selection :
    Result FixtureError Decision → String → Expectation → Result FixtureFailure Outcome
from_selection (ok got) status e = ok (compare got status e)
from_selection (err why) status e = err (refused why)

abbrev pub run_expected :
    Fixture → Stream → Option Checks → Expectation → Option String → Result FixtureFailure Outcome
run_expected f stream checks e none = err no_expected_status
run_expected f stream checks e (some status) =
    from_selection (decide f.path stream f.advertised (or_default checks default_checks)) status e

abbrev pub run_stream :
    Fixture → Option Checks → Option Stream → Option Expectation → Result FixtureFailure Outcome
run_stream f checks none e = err bad_pictures
run_stream f checks (some stream) none = err no_expected_status
run_stream f checks (some stream) (some e) = run_expected f stream checks e e.status

unfoldable pub run_fixture : Fixture → Option Checks → Result FixtureFailure Outcome
unfolding compare decide
run_fixture f checks =
    if text_eq f.schema schema_name
    then (if is_path f.path then run_stream f checks f.stream f.expected else err bad_path)
    else err unsupported_schema
