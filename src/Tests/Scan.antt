-- ===== src/Tests/Scan.antt =====
-- Runs of the scanner.
use omarchy_m1_video.Prelude.{
  ℕ, suc, ◌-◌, ◌*◌, ◌/◌, ◌^◌, ◌≤◌, ◌<◌, ◌≡◌, ◌≢◌, ◌⊎◌, refl, true, false, List, [], ◌∷◌, All,
}
use omarchy_m1_video.Exec.{ok, err}
use omarchy_m1_video.Scan.Header.{tile_geometry}
use omarchy_m1_video.Scan.Verdict.{
  Scanned, below_avd_minimum, within_avd_minimum, size_verdict, ceil_to, is_consistent,
}
use omarchy_m1_video.Scan.Container as Container
use omarchy_m1_video.Scan.Container.{webm_first_frame, no_rounds}
use omarchy_m1_video.Scan.Contract.Container.{webm_first_frame-ne}
use omarchy_m1_video.Scan.Contract.Verdict.{IsAgreeing, is_consistent_lem}
use omarchy_m1_video.Scan.Contract.Geometry.{tile_geometry_range}

-- A segment with one cluster, with one block of three payload bytes.
abbrev file : List ℕ
file =
    24 ∷ 83 ∷ 128 ∷ 103 ∷ 142 ∷ 31 ∷ 67 ∷ 182 ∷ 117 ∷ 137 ∷ 163 ∷ 135 ∷ 129 ∷ 0 ∷ 0 ∷ 128 ∷ 5 ∷ 6
    ∷ 7 ∷ []

file_payload : webm_first_frame file ≡ ok (5 ∷ 6 ∷ 7 ∷ [])
unfolding webm_first_frame Container.webm_loop Container.element Container.vint Container.vint_sized
    Container.vint_length Container.vint_value Container.block_payload Container.block_at
file_payload = refl

webm_first_frame-ne_example : webm_first_frame file ≢ err no_rounds
webm_first_frame-ne_example = webm_first_frame-ne file

small_verdict : size_verdict 34 66 ≡ below_avd_minimum true false 64 80
unfolding size_verdict ceil_to
small_verdict = refl

abbrev results : List Scanned
results =
    record { vector = 1; class = below_avd_minimum true true 64 64 }
    ∷ record { vector = 2; class = within_avd_minimum }
    ∷ []

results_consistent : is_consistent (1 ∷ []) (2 ∷ []) results ≡ true
unfolding is_consistent
results_consistent = refl

is_consistent_lem_example : All (λ r. IsAgreeing (1 ∷ []) (2 ∷ []) r.vector r.class) results
is_consistent_lem_example = is_consistent_lem (1 ∷ []) (2 ∷ []) results results_consistent

tile_geometry_range_example :
    let g = tile_geometry 4096 in
    (g.sb64_cols ≤ 64 * 2 ^ g.tile_cols_log2_min)
    × ((g.tile_cols_log2_min ≡ 0) ⊎ (64 * 2 ^ (g.tile_cols_log2_min - 1) < g.sb64_cols))
    × (g.sb64_cols / 2 ^ suc g.tile_cols_log2_max < 4)
    × ((g.tile_cols_log2_max ≡ 0) ⊎ (4 ≤ g.sb64_cols / 2 ^ g.tile_cols_log2_max))
tile_geometry_range_example = tile_geometry_range 4096
