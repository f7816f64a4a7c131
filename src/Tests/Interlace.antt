-- ===== src/Tests/Interlace.antt =====
-- Runs of the interlace scanner.
use omarchy_m1_video.Prelude.{ℕ, ◌<◌, ◌≡◌, inr, refl, true, none, List, [], ◌∷◌}
use omarchy_m1_video.Dict as Dict
use omarchy_m1_video.Exec.{err}
use omarchy_m1_video.Interlace.Reader as Reader
use omarchy_m1_video.Interlace.Reader.{Unit_, caught, nals}
use omarchy_m1_video.Interlace.Params as Params
use omarchy_m1_video.Interlace.Params.{parse_sps, parsing}
use omarchy_m1_video.Interlace.Classify as Classify
use omarchy_m1_video.Interlace.Classify.{
  Scan, new_scan, scan_unit, scan_units, active_sps, classify_data,
}
use omarchy_m1_video.Interlace.Contract.{
  IsCounted, scan_units-IsCounted, new_scan-IsCounted, classify_data-complete, failed_sps_inactive,
}

-- An SPS, a PPS and a slice.
abbrev file : List ℕ
file =
    0 ∷ 0 ∷ 0 ∷ 1 ∷ 103 ∷ 66 ∷ 0 ∷ 30 ∷ 218 ∷ 124 ∷ 0 ∷ 0 ∷ 0 ∷ 1 ∷ 104 ∷ 204 ∷ 0 ∷ 0 ∷ 0 ∷ 1 ∷ 101
    ∷ 136 ∷ 132 ∷ []

file_complete : (classify_data file).complete ≡ true
unfolding Reader.bit Reader.bits_loop Reader.bits Reader.zeros_loop Reader.ue Reader.strip_from
    Reader.strip_epb Reader.nals_from nals Params.read_format Params.read_poc parse_sps
    Params.parse_pps parsing active_sps Classify.field_flags Classify.slice_sps Classify.read_slice
    Classify.failed Classify.add_sps Classify.add_pps Classify.count_slice Classify.add_slice
    scan_unit scan_units Classify.greatest Classify.report_of classify_data Dict.lookup Dict.put
file_complete = refl

classify_data-complete_example :
    let s = scan_units (nals file) new_scan in
    (s.parse_errors ≡ 0) × (s.parsed ≡ s.slice_nals) × (0 < s.slice_nals)
classify_data-complete_example = classify_data-complete file file_complete

abbrev scanned : Scan
scanned = scan_units (nals file) new_scan

scan_units-IsCounted_example : IsCounted scanned
scan_units-IsCounted_example = scan_units-IsCounted (nals file) new_scan new_scan-IsCounted

-- An SPS that ends after its header.
abbrev cut : Unit_
cut = record { nal_type = 7; header = 103; rbsp = 103 ∷ [] }

cut_fails : parsing parse_sps cut.rbsp ≡ err caught
unfolding Reader.bit Reader.bits_loop Reader.bits Reader.zeros_loop Reader.ue Reader.strip_from
    Reader.strip_epb Reader.nals_from nals Params.read_format Params.read_poc parse_sps
    Params.parse_pps parsing active_sps Classify.field_flags Classify.slice_sps Classify.read_slice
    Classify.failed Classify.add_sps Classify.add_pps Classify.count_slice Classify.add_slice
    scan_unit scan_units Classify.greatest Classify.report_of classify_data Dict.lookup Dict.put
cut_fails = refl

failed_sps_inactive_example : active_sps (scan_unit cut scanned) 0 ≡ none
failed_sps_inactive_example = failed_sps_inactive cut scanned 0 refl (inr cut_fails)
