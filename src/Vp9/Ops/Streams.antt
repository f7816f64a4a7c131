-- ===== src/Vp9/Ops/Streams.antt =====
-- The handlers that set formats and start and stop the two queues, with `_need_era`.
use text.Mathlib.Text.{◌==◌ as text_eq}
use omarchy_m1_video.Prelude.{
  ℕ, ◌+◌, Bool, true, false, not, ◌&&◌, ◌||◌, Option, none, some, [], ltb, leb, ◌==◌, ◌!=◌, is_some,
  or_default, String, if◌then◌else◌,
}
use omarchy_m1_video.Dict.{put, map_values}
use omarchy_m1_video.Exec.{pure, gets, raise, or_raise, modify, raise_if, when, ◌>>=◌, ◌>>◌}
use omarchy_m1_video.Vp9.Reject.{Code, Invariant, reject, fixture}
use omarchy_m1_video.Vp9.Event.{Phase, preflight, after_destructive, other_phase}
use omarchy_m1_video.Vp9.State.{
  Session, Action, Era, Buffer, SegPolicy, new_era, next_era_id, is_stock,
}
use omarchy_m1_video.Vp9.Layout.{min_dim}

unfoldable pub need_era : ℕ → ℕ → ℕ → Action Era
need_era width height bit_depth = do
  raise_if (ltb width min_dim || ltb height min_dim)
      (reject Code.sub64 Invariant.validate_dec_params_min64)
  s ← gets (λ s. s)
  let era = new_era (next_era_id s.eras) width height bit_depth
  modify (λ s. record s { eras = put era.id era s.eras })
  pure era

abbrev pub capture_busy : Session → Bool
capture_busy s = ltb 0 s.capture_slots

unfoldable pub op_open : Option ℕ → Action Unit
op_open none = pure tt
op_open (some session) = do
  s ← gets (λ s. s)
  raise_if (s.events_applied != 0 && session != s.session_id)
      (reject Code.session_identity_change Invariant.session_not_profile_key)
  modify (λ s. record s { session_id = session })

unfoldable pub op_output_s_fmt : ℕ → ℕ → Action Unit
op_output_s_fmt w h = do
  s ← gets (λ s. s)
  raise_if s.output_streaming (reject Code.streaming_output_s_fmt Invariant.output_s_fmt_streaming)
  raise_if (capture_busy s) (reject Code.busy_capture_s_fmt Invariant.output_s_fmt_capture_busy)
  modify (λ s. record s { coded_w = some w; coded_h = some h })

unfoldable pub op_capture_s_fmt : ℕ → ℕ → Option ℕ → Action Unit
unfolding need_era
op_capture_s_fmt w h depth = do
  s ← gets (λ s. s)
  raise_if (capture_busy s) (reject Code.busy_capture_s_fmt Invariant.capture_s_fmt_busy)
  raise_if (or_default depth s.bit_depth != s.bit_depth)
      (reject Code.mixed_depth Invariant.image_fmt_busy)
  era ← need_era w h (or_default depth s.bit_depth)
  modify (λ s. record s { current_era = some era })

-- A repeated STREAMON changes nothing.
unfoldable pub op_output_streamon : Action Unit
op_output_streamon = do
  s ← gets (λ s. s)
  when (not s.output_streaming) (do
    raise_if (not (is_some s.coded_w)) fixture
    modify (λ s. record s {
      output_streaming = true;
      probabilities = true;
      last_present = true;
      scratch_present = true;
      scratch_w = s.coded_w;
      scratch_h = s.coded_h;
      scratch_depth = some s.bit_depth;
      seg_present = true;
      seg_policy = SegPolicy.present;
    }))

unfoldable pub op_output_streamoff : Action Unit
op_output_streamoff = modify (λ s. record s {
  output_streaming = false;
  probabilities = false;
  last_present = false;
  scratch_present = false;
  scratch_w = none;
  scratch_h = none;
  scratch_depth = none;
  seg_present = false;
  seg_policy = SegPolicy.lost;
})

unfoldable pub op_capture_streamon : Action Unit
op_capture_streamon = do
  s ← gets (λ s. s)
  raise_if (leb s.capture_slots 0) fixture
  modify (λ s. record s { capture_streaming = true })

unfoldable pub op_capture_streamoff : Action Unit
op_capture_streamoff = modify (λ s. record s { capture_streaming = false })

-- A buffer whose queue slot is gone; its timestamp stays.
abbrev pub detach : Buffer → Buffer
detach b = record b {
  wrapper_alive = false;
  queued_as_dst = false;
  index = none;
  generation = none;
}

abbrev pub replace_queue : Session → Session
replace_queue s = record s {
  buffers = map_values detach s.buffers;
  slot = [];
  capture_slots = 0;
  capture_generation = s.capture_generation + 1;
  destructive_done = true;
  registrations = [];
}

unfoldable pub op_capture_reqbufs : ℕ → Action Unit
op_capture_reqbufs count = do
  s ← gets (λ s. s)
  raise_if s.capture_streaming (reject Code.streaming_reqbufs Invariant.reqbufs_replaces_queue)
  when (count == 0 || s.capture_slots != 0) (modify replace_queue)
  when (count != 0) (do
    t ← gets (λ t. t)
    raise_if (not (is_some t.current_era)) fixture
    modify (λ s. record s { capture_slots = count; slot = [] }))

unfoldable pub op_proposed_reconfigure : ℕ → ℕ → Option ℕ → Action Unit
unfolding need_era
op_proposed_reconfigure w h depth = do
  s ← gets (λ s. s)
  raise_if (is_stock s.path) (reject Code.stock_has_no_reconfigure Invariant.output_s_fmt_streaming)
  raise_if (not s.output_streaming) (reject Code.state_loss Invariant.stop_on_output_streamoff)
  raise_if (s.capture_streaming || capture_busy s)
      (reject Code.busy_capture_s_fmt Invariant.capture_s_fmt_busy)
  raise_if (or_default depth s.bit_depth != s.bit_depth)
      (reject Code.mixed_depth Invariant.image_fmt_busy)
  modify (λ s. record s { coded_w = some w; coded_h = some h })
  era ← need_era w h (or_default depth s.bit_depth)
  modify (λ s. record s {
    current_era = some era;
    scratch_w = some w;
    scratch_h = some h;
    scratch_depth = some (or_default depth s.bit_depth);
    scratch_present = true;
    probabilities = true;
    last_present = true;
    seg_policy = SegPolicy.unknown;
  })

unfoldable pub fail_phase : Phase → Action Unit
fail_phase preflight = pure tt
fail_phase after_destructive = do
  s ← gets (λ s. s)
  raise_if (not s.destructive_done) fixture
  modify (λ s. record s { failed = true })
fail_phase other_phase = raise fixture

unfoldable pub op_inject_failure : Option Phase → Action Unit
unfolding fail_phase
op_inject_failure phase = fail_phase (or_default phase after_destructive)

-- The questions of source-map.json that only firmware can answer.
unfoldable pub firmware_question_named : String → Option Invariant
firmware_question_named q =
    if text_eq q "firmware_live_resize"
    then some Invariant.firmware_live_resize
    else if text_eq q "firmware_seg_map"
    then some Invariant.firmware_seg_map
    else if text_eq q "firmware_scratch_regrow"
    then some Invariant.firmware_scratch_regrow
    else if text_eq q "firmware_mixed_era_comp"
    then some Invariant.firmware_mixed_era_comp
    else if text_eq q "firmware_rev3_vs_rev4"
    then some Invariant.firmware_rev3_vs_rev4
    else none

unfoldable pub op_ask_firmware : Option String → Action Unit
op_ask_firmware question = do
  which ← or_raise (firmware_question_named (or_default question "firmware_live_resize")) fixture
  raise (reject Code.firmware_unknown which)
