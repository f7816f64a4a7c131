-- ===== src/H264/Contract/Current.antt =====
-- The match of FFmpeg's VA-API map.
use omarchy_m1_video.Prelude.{
  ◌≡◌, ◌≢◌, ◌⊎◌, inl, inr, refl, sym, Bool, true, false, ◌&&◌, Option, none, some, List, [], ◌∷◌,
  any, arith, Bool-cases,
}
use omarchy_m1_video.H264.Inventory.{VaProfile, FfProfile, ff_eq, is_advertised, vaapi_profile_map}
use omarchy_m1_video.H264.Select.{match_rows, match_decision, vaapi_current_match, select}

-- A row of the map that is for the stream's profile and whose VA profile the driver advertises.
abbrev pub is_exact_row : Option FfProfile → List VaProfile → FfProfile × VaProfile → Bool
is_exact_row ff advertised (row_ff, row_va) = ff_eq ff row_ff && is_advertised row_va advertised

abbrev pub is_offered : List VaProfile → Option (FfProfile × VaProfile) → Bool
is_offered advertised none = true
is_offered advertised (some (_, row_va)) = is_advertised row_va advertised

module _ (ff : Option FfProfile) (advertised : List VaProfile) where
  match_rows-exact :
      (rows : List (FfProfile × VaProfile)) (m : Option (FfProfile × VaProfile))
      → (match_rows ff advertised rows m false).1 ≡ any (is_exact_row ff advertised) rows
  unfolding match_rows
  match_rows-exact [] m = refl
  match_rows-exact ((f, v) ∷ rows) m =
      ground (arith, match_rows-exact rows m, match_rows-exact rows (some (f, v)))

  match_rows-offered :
      (rows : List (FfProfile × VaProfile)) (m : Option (FfProfile × VaProfile)) (e : Bool)
      → is_offered advertised m ≡ true
      → is_offered advertised (match_rows ff advertised rows m e).0 ≡ true
  unfolding match_rows
  match_rows-offered [] m e h = h
  match_rows-offered ((f, v) ∷ rows) m e h =
      ground (arith, match_rows-offered rows m e h, match_rows-offered rows (some (f, v)) false)

  -- An exact match is some row of the map, so the loop has taken a row.
  match_rows-some :
      (rows : List (FfProfile × VaProfile)) (m : Option (FfProfile × VaProfile))
      → (match_rows ff advertised rows m false).1 ≡ true
      → (match_rows ff advertised rows m false).0 ≢ none
  unfolding match_rows
  match_rows-some [] m h = cc
  match_rows-some ((f, v) ∷ rows) m h =
      ground (arith, match_rows-some rows m, match_rows-some rows (some (f, v)))

match_decision-exact :
    (ff : Option FfProfile) (allow : Bool) (m : Option (FfProfile × VaProfile)) (e : Bool)
    → (e ≡ true → m ≢ none)
    → (match_decision ff allow m e).exact_match ≡ some e
unfolding match_decision
match_decision-exact ff allow none e h = ground (arith, Bool-cases e)
match_decision-exact ff allow (some (f, v)) e h = ground arith

-- The match is exact just when some row of the map is for the stream's profile and its VA profile is
-- advertised, whatever the rows before and after it are.
pub current_exact :
    (ff : Option FfProfile) (advertised : List VaProfile) (allow : Bool)
    → (vaapi_current_match ff advertised allow).exact_match
      ≡ some (any (is_exact_row ff advertised) vaapi_profile_map)
unfolding vaapi_current_match
current_exact ff advertised allow =
    rw (sym (match_rows-exact ff advertised vaapi_profile_map none)) (
      match_decision-exact ff allow (match_rows ff advertised vaapi_profile_map none false).0
        (match_rows ff advertised vaapi_profile_map none false).1
        (match_rows-some ff advertised vaapi_profile_map none))

match_decision-selects :
    (ff : Option FfProfile) (allow : Bool) (advertised : List VaProfile)
    (m : Option (FfProfile × VaProfile)) (e : Bool)
    → is_offered advertised m ≡ true
    → (match_decision ff allow m e).status ≡ select
    → (v : VaProfile) × ((match_decision ff allow m e).va_profile ≡ some v)
      × (is_advertised v advertised ≡ true)
      × (((match_decision ff allow m e).exact_match ≡ some true) ⊎ (allow ≡ true))
unfolding match_decision
match_decision-selects ff allow advertised none e h p = absurd (ground arith)
match_decision-selects ff allow advertised (some (f, v)) true h p = (v, refl, h, inl refl)
match_decision-selects ff true advertised (some (f, v)) false h p = (v, refl, h, inr refl)
match_decision-selects ff false advertised (some (f, v)) false h p = absurd (ground arith)

-- A selection is of a VA profile that the driver advertises, and it is an exact match unless a
-- mismatch is allowed.
pub current_selects :
    (ff : Option FfProfile) (advertised : List VaProfile) (allow : Bool)
    → (vaapi_current_match ff advertised allow).status ≡ select
    → (v : VaProfile) × ((vaapi_current_match ff advertised allow).va_profile ≡ some v)
      × (is_advertised v advertised ≡ true)
      × (((vaapi_current_match ff advertised allow).exact_match ≡ some true) ⊎ (allow ≡ true))
unfolding vaapi_current_match
current_selects ff advertised allow h =
    match_decision-selects ff allow advertised
      (match_rows ff advertised vaapi_profile_map none false).0
      (match_rows ff advertised vaapi_profile_map none false).1
      (match_rows-offered ff advertised vaapi_profile_map none false refl) h
