-- ===== src/Hevc/Agree.antt =====
-- `map_records` (experiments/hevc-avd-map/model.py) on the records that `normalize`
-- (experiments/hevc-controls/normalize.py) makes: both rebuild the writers of the buffers.
use Prim.Native.Nat.{bit_or}
use omarchy_m1_video.Prelude.{
  ℕ, suc, ◌≡◌, ◌≢◌, inl, inr, refl, ◌∙◌, ℤ, eq_ℤ-refl, Bool, Option, none, some, List, [], ◌∷◌,
  String, map, ◌!=◌, length, All, arith, Option-cases,
}
use omarchy_m1_video.Exec.{Result, Result-cases, ok, err}
use omarchy_m1_video.Checked.{read_each, check_each}
use omarchy_m1_video.Dict.{lookup}
use omarchy_m1_video.Hevc.Record.{Request, DpbEntry, Slice}
use omarchy_m1_video.Hevc.Map.Words.{
  Reason, Field, merge_fields, word, poc_delta, ref_header, ref_list_word, stale_writer,
}
use omarchy_m1_video.Hevc.Map.Motion.{
  Reference, motion, motion_word, inter_motion, intra_motion, collocated, gate,
}
use omarchy_m1_video.Hevc.Map.Steps.{
  History, no_history, resolve, read_entry, read_dpb, list_entry, read_list, check_request,
  only_slice, check_slice, check_indices, map_slice, map_dpb, map_lists, map_one, map_loop, map_all,
  map_records,
}
use omarchy_m1_video.Hevc.Map.History.{Tracks, no_history-Tracks}
use omarchy_m1_video.Hevc.Map.Refines.{map_one-Explained}
use omarchy_m1_video.Hevc.Trace.Event.{Event}
use omarchy_m1_video.Hevc.Trace.Emit.{Association, normalize}
use omarchy_m1_video.Hevc.Trace.Consistent.{Resolves, Consistent, next, normalize-Consistent}

-- Words are refused for other reasons.
merge_fields-ne : (v : ℕ) (fs : List Field) → merge_fields v fs ≢ err stale_writer
unfolding merge_fields
merge_fields-ne v [] h = ground arith
merge_fields-ne v (f ∷ fs) h = elim (Option-cases f.bits) [
  | inl unknown ↦ ground (arith, merge_fields-ne v fs)
  | inr (bits, known) ↦ ground (arith, merge_fields-ne (bit_or v bits) fs)
]

word-ne : (fs : List Field) → word fs ≢ err stale_writer
unfolding word
word-ne fs h = ground (arith, merge_fields-ne 0 fs)

poc_delta-ne : (a b : Option ℤ) → poc_delta a b ≢ err stale_writer
unfolding poc_delta
poc_delta-ne a b h = ground arith

ref_header-ne : (n l : ℕ) (a b : Option ℤ) → ref_header n l a b ≢ err stale_writer
unfolding ref_header
ref_header-ne n l a b h = grind (arith, poc_delta-ne a b, word-ne)

list_entry-ne :
    (w : ℕ) (refs : List Reference) (i slot : ℕ) → list_entry w refs i slot ≢ err stale_writer
unfolding ref_list_word
list_entry-ne w refs i slot h = ground arith

module _ {A B : Type 0} where
  read_each-ne :
      (read : ℕ → A → Result Reason B)
      → ((i : ℕ) (x : A) → read i x ≢ err stale_writer)
      → (i : ℕ) (xs : List A) → read_each read i xs ≢ err stale_writer
  unfolding read_each
  read_each-ne read ne i [] h = ground arith
  read_each-ne read ne i (x ∷ xs) h = ground (arith, ne i x, read_each-ne read ne (suc i) xs)

check_indices-ne : (n : ℕ) (slots : List ℕ) → check_indices n slots ≢ err stale_writer
unfolding check_each
check_indices-ne n [] h = ground arith
check_indices-ne n (i ∷ slots) h = ground (arith, check_indices-ne n slots)

read_list-ne :
    (w : ℕ) (refs : List Reference) (slots : List ℕ) → read_list w refs slots ≢ err stale_writer
unfolding read_list
read_list-ne w refs slots h =
    ground (arith, read_each-ne (list_entry w refs) (list_entry-ne w refs) 0 slots)

collocated-ne : (s : Slice) (refs : List Reference) → collocated s refs ≢ err stale_writer
unfolding collocated
collocated-ne s refs h = ground arith

motion_word-ne : (s : Slice) (v : Option Bool) → motion_word s v ≢ err stale_writer
unfolding motion_word
motion_word-ne s v h = grind (arith, word-ne)

intra_motion-ne : intra_motion ≢ err stale_writer
unfolding intra_motion
intra_motion-ne h = grind (arith, word-ne)

inter_motion-ne : (s : Slice) (refs : List Reference) → inter_motion s refs ≢ err stale_writer
unfolding inter_motion
inter_motion-ne s refs h = elim (Result-cases (collocated s refs)) [
  | inr (x, bad) ↦ ground (arith, collocated-ne s refs)
  | inl (col, a) ↦ ground (arith, motion_word-ne s (gate (s.tmvp != 0) col).0)
]

motion-ne : (s : Slice) (refs : List Reference) → motion s refs ≢ err stale_writer
unfolding motion
motion-ne s refs h = ground (arith, intra_motion-ne, inter_motion-ne s refs)

map_slice-ne :
    (c : ℕ) (run : String) (n : ℕ) (h : History) (r : Request)
    → map_slice c run n h r ≢ err stale_writer
unfolding map_slice check_request only_slice check_slice
map_slice-ne c run n h r e = ground arith

map_lists-ne : (s : Slice) (refs : List Reference) → map_lists s refs ≢ err stale_writer
unfolding map_lists
map_lists-ne s refs h = ground (arith, read_list-ne 0 refs s.l0, read_list-ne 1 refs s.l1)

resolve-ok :
    (done : List Request) (h : History) (r : Request) (e : DpbEntry)
    → Tracks done h
    → (known : Resolves done r e) → resolve h.writers e ≡ ok known.writer
unfolding resolve
resolve-ok done h r e t known =
    let found : lookup e.buf h.writers ≡ some known.writer = t.writers e.buf ∙ known.last_writer in
    rw (found, known.same_poc, eq_ℤ-refl e.poc) refl

read_entry-ne :
    (done : List Request) (h : History) (r : Request) (seen : List ℕ) (n : ℕ) (e : DpbEntry)
    → Tracks done h
    → Resolves done r e
    → read_entry r h.writers seen n e ≢ err stale_writer
unfolding read_entry
read_entry-ne done h r seen n e t known bad =
    elim (Result-cases (ref_header (length r.dpb) e.lt none none)) [
      | inr (x, a) ↦
          ground (arith, resolve-ok done h r e t known, ref_header-ne (length r.dpb) e.lt none none)
      | inl (w, a) ↦ ground (
        arith,
        resolve-ok done h r e t known,
        ref_header-ne (length r.dpb) e.lt (some r.poc) (some e.poc),
      )
    ]

read_dpb-ne :
    (done : List Request) (h : History) (r : Request) (seen : List ℕ) (n : ℕ) (es : List DpbEntry)
    → Tracks done h
    → All (Resolves done r) es
    → read_dpb r h.writers seen n es ≢ err stale_writer
unfolding read_dpb
read_dpb-ne done h r seen n [] t known bad = ground arith
read_dpb-ne done h r seen n (e ∷ es) t (here, known) bad = ground (
  arith,
  read_entry-ne done h r seen n e t here,
  read_dpb-ne done h r (e.buf ∷ seen) (suc n) es t known,
)

map_dpb-ne :
    (done : List Request) (h : History) (r : Request)
    → Tracks done h
    → All (Resolves done r) r.dpb
    → map_dpb h r ≢ err stale_writer
unfolding map_dpb
map_dpb-ne done h r t known bad = elim (Result-cases (read_dpb r h.writers [] 0 r.dpb)) [
  | inr (x, failed) ↦ ground (arith, read_dpb-ne done h r [] 0 r.dpb t known)
  | inl (refs, a) ↦ ground (
    arith,
    check_indices-ne (length refs) r.st_before,
    check_indices-ne (length refs) r.st_after,
    check_indices-ne (length refs) r.lt_curr,
  )
]

map_one-ne :
    (c : ℕ) (run : String) (n : ℕ) (done : List Request) (h : History) (r : Request)
    → Tracks done h
    → All (Resolves done r) r.dpb
    → map_one c run n h r ≢ err stale_writer
unfolding map_one
map_one-ne c run n done h r t known bad = elim (Result-cases (map_slice c run n h r)) [
  | inr (x, a) ↦ ground (arith, map_slice-ne c run n h r)
  | inl (s, a) ↦ elim (Result-cases (map_dpb h r)) [
    | inr (x, b) ↦ ground (arith, map_dpb-ne done h r t known)
    | inl (refs, b) ↦ ground (arith, map_lists-ne s refs, motion-ne s refs)
  ]
]

map_loop-ne :
    (c : ℕ) (run : String) (done : List Request) (h : History) (rs : List Request)
    → Tracks done h
    → Consistent done rs
    → map_loop c run (suc (length done)) h rs ≢ err stale_writer
unfolding map_loop
map_loop-ne c run done h [] t known bad = ground arith
map_loop-ne c run done h (r ∷ rs) t (next number known rest) bad =
    elim (Result-cases (map_one c run (suc (length done)) h r)) [
      | inr (x, a) ↦ ground (arith, map_one-ne c run (suc (length done)) done h r t known)
      | inl ((m, h'), a) ↦
          let t' = (map_one-Explained c run done h r m h' t a).1 in
          ground (arith, map_loop-ne c run (r ∷ done) h' rs t' rest)
    ]

map_records-ne :
    (rs : List Request) (expected : ℕ)
    → Consistent [] rs
    → map_records rs expected ≢ err stale_writer
unfolding map_records map_all
map_records-ne [] expected known bad = ground arith
map_records-ne (r ∷ rs) expected known bad =
    ground (arith, map_loop-ne r.ctx r.run [] no_history (r ∷ rs) no_history-Tracks known)

-- The records that normalize makes of a trace are never refused by map_records because a reference
-- is unresolved or stale, for any number of expected records.
pub normalize-map_records :
    (es : List Event) (n expected : ℕ) (run : String) (out : List (Request × Association))
    → normalize es n run ≡ ok out
    → map_records (map (λ x. x.0) out) expected ≢ err stale_writer
normalize-map_records es n expected run out ran =
    map_records-ne (map (λ x. x.0) out) expected (normalize-Consistent es n run out ran)
