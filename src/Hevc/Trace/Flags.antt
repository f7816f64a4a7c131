-- ===== src/Hevc/Trace/Flags.antt =====
-- The flags of experiments/hevc-controls/normalize.py.
use omarchy_m1_video.Prelude.{ℕ, Bool, true, false, List, [], ◌∷◌, String}

abbrev pub sps_flags : List String
sps_flags =
    "SEPARATE_COLOUR_PLANE" ∷ "SCALING_LIST_ENABLED" ∷ "AMP_ENABLED" ∷ "SAMPLE_ADAPTIVE_OFFSET"
    ∷ "PCM_ENABLED" ∷ "PCM_LOOP_FILTER_DISABLED" ∷ "LONG_TERM_REF_PICS_PRESENT"
    ∷ "SPS_TEMPORAL_MVP_ENABLED" ∷ "STRONG_INTRA_SMOOTHING_ENABLED" ∷ []

abbrev pub slice_flags : List String
slice_flags =
    "SLICE_SAO_LUMA" ∷ "SLICE_SAO_CHROMA" ∷ "SLICE_TEMPORAL_MVP_ENABLED" ∷ "MVD_L1_ZERO"
    ∷ "CABAC_INIT" ∷ "COLLOCATED_FROM_L0" ∷ "USE_INTEGER_MV" ∷ "SLICE_DEBLOCKING_FILTER_DISABLED"
    ∷ "SLICE_LOOP_FILTER_ACROSS_SLICES_ENABLED" ∷ "DEPENDENT_SLICE_SEGMENT" ∷ []

abbrev pub decode_flags : List String
decode_flags = "IRAP_PIC" ∷ "IDR_PIC" ∷ "NO_OUTPUT_OF_PRIOR" ∷ []

abbrev pub int : Bool → ℕ
int true = 1
int false = 0

abbrev pub is_nonempty : List String → Bool
is_nonempty [] = false
is_nonempty (_ ∷ _) = true
