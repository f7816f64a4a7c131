-- ===== src/Vp9/Reject.antt =====
-- The exceptions of experiments/vp9-state/model.py, and the kinds that source-map.json gives to the
-- invariants that they name.
-- The `code` of a Reject.
pub data Code : Type 0 where
  sub64 session_identity_change streaming_output_s_fmt busy_capture_s_fmt mixed_depth : Code
  streaming_reqbufs no_capture_buffer reference_queued_as_destination duplicate_destination : Code
  short_backing old_generation_alias partial_failure_reuse state_loss capture_not_streaming : Code
  unexpected_resolution scratch_bounds unavailable_reference destination_fallback : Code
  orphaned_retained_buffer stale_registration stock_has_no_registration duplicate_timestamp : Code
  stock_has_no_reconfigure firmware_unknown : Code

-- The invariants of source-map.json that a Reject names.
pub data Invariant : Type 0 where
  capture_s_fmt_busy output_s_fmt_streaming output_s_fmt_capture_busy : Invariant
  validate_dec_params_min64 validate_dec_params_aligned wrapper_on_queue : Invariant
  get_ref_fallback_dst stop_on_output_streamoff queue_setup_sizeimage : Invariant
  vb2_dmabuf_min_length image_fmt_busy both_queues_streaming reqbufs_replaces_queue : Invariant
  no_destination_fallback generation_scoped_timestamps explicit_ref_registration : Invariant
  ref_not_queued_as_dst era_sizing_dst_vs_ref failed_session_no_submit : Invariant
  session_not_profile_key scratch_capacity_contract unique_destination_slot : Invariant
  firmware_live_resize firmware_seg_map firmware_scratch_regrow : Invariant
  firmware_mixed_era_comp firmware_rev3_vs_rev4 : Invariant

pub data Kind : Type 0 where
  source_observed proposed_contract firmware_question : Kind

-- A FixtureError, a Reject, or an exception that the model does not mean to raise: a missing key, or
-- a read of `None`.
pub data Error : Type 0 where
  fixture : Error
  reject : Code → Invariant → Error
  crash : Error

-- `INVARIANTS[invariant]["kind"]`
unfoldable pub kind_of : Invariant → Kind
kind_of no_destination_fallback = proposed_contract
kind_of generation_scoped_timestamps = proposed_contract
kind_of explicit_ref_registration = proposed_contract
kind_of ref_not_queued_as_dst = proposed_contract
kind_of era_sizing_dst_vs_ref = proposed_contract
kind_of failed_session_no_submit = proposed_contract
kind_of session_not_profile_key = proposed_contract
kind_of scratch_capacity_contract = proposed_contract
kind_of unique_destination_slot = proposed_contract
kind_of firmware_live_resize = firmware_question
kind_of firmware_seg_map = firmware_question
kind_of firmware_scratch_regrow = firmware_question
kind_of firmware_mixed_era_comp = firmware_question
kind_of firmware_rev3_vs_rev4 = firmware_question
kind_of _ = source_observed
