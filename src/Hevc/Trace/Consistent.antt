-- ===== src/Hevc/Trace/Consistent.antt =====
-- The records of `normalize` (experiments/hevc-controls/normalize.py) against the history that
-- `map_records` (experiments/hevc-avd-map/model.py) rebuilds from them.
use omarchy_m1_video.Prelude.{
  ℕ, suc, ◌≡◌, ◌≢◌, ◌<◌, inl, inr, refl, sym, ◌∙◌, ap, subst, Option, none, some, List, [], ◌∷◌,
  map, String, ◌==◌, length, take, All, arith, Bool-cases, Option-cases, eq_of_eq_ℤ, ℤ, pos, negsuc,
}
use omarchy_m1_video.Exec.{Result-cases, ok}
use omarchy_m1_video.Checked.{read_each-All}
use omarchy_m1_video.Dict.{Dict, lookup, put, lookup-put}
use omarchy_m1_video.Hevc.Record.{Request, DpbEntry}
use omarchy_m1_video.Hevc.Map.Motion.{Writer}
use omarchy_m1_video.Hevc.Map.History.{writer_at, written}
use omarchy_m1_video.Hevc.Trace.Event.{Event, DpbParams, poc_integer}
use omarchy_m1_video.Hevc.Trace.State.{Picture, Trace}
use omarchy_m1_video.Hevc.Trace.Steps.{read_trace}
use omarchy_m1_video.Hevc.Trace.Emit.{
  Association, picture_at, emit_entry, emit_dpb, emit_flags, emit_lists, emit_picture,
  emit_pictures, normalize,
}
use omarchy_m1_video.Hevc.Trace.Numbered.{
  IsNumbered, IsSound, lookup-IsNumbered, read_trace-IsSound,
}

-- An entry names the last picture that was written to its buffer, by the order count, and the buffer
-- is not the one that the picture itself writes.
pub record Resolves (done : List Request) (r : Request) (e : DpbEntry) : Type 0 where
  pub writer : Writer
  pub last_writer : writer_at e.buf done ≡ some writer
  pub same_poc : writer.poc ≡ e.poc
  pub kept_apart : e.buf ≢ r.target

-- Each record has the next number and resolves its entries in the records before it.
pub data Consistent : List Request → List Request → Type 0 where
  finished : {done : List Request} → Consistent done []
  next :
      {done : List Request} {r : Request} {rs : List Request}
      → r.seq ≡ suc (length done)
      → All (Resolves done r) r.dpb
      → Consistent (r ∷ done) rs
      → Consistent done (r ∷ rs)

abbrev picture_of : Option Writer → Option ℕ
picture_of none = none
picture_of (some w) = some w.picture

-- `last_writer` and the pictures, in step with the records so far.
record Follows (t : Trace) (done : List Request) (last_writer : Dict ℕ) : Type 0 where
  numbers : (b : ℕ) → lookup b last_writer ≡ picture_of (writer_at b done)
  pictures :
      (b : ℕ) (w : Writer) (p : Picture)
      → writer_at b done ≡ some w
      → lookup w.picture t.pictures ≡ some p
      → w.poc ≡ p.decode.pic_order_cnt_val

picture_at-parts :
    (t : Trace) (ts : ℕ) (p : Picture)
    → picture_at t ts ≡ ok p
    → IsSound t
    → lookup p.pic t.pictures ≡ some p
unfolding picture_at
picture_at-parts t ts p ran s = elim (Option-cases (lookup ts t.by_timestamp)) [
  | inl bad ↦ ground arith
  | inr (n, a) ↦ ground (arith, lookup-IsNumbered 1 n p t.pictures, s.numbered)
]

poc_integer-id : (z y : ℤ) → poc_integer z ≡ ok y → y ≡ z
poc_integer-id (pos n) y ran = ground arith
poc_integer-id (negsuc n) y ran = ground arith

-- What an entry that was made comes from.
emit_entry-parts :
    (t : Trace) (last_writer : Dict ℕ) (p : Picture) (target slot : ℕ) (d : DpbParams)
    (e : DpbEntry)
    → emit_entry t last_writer p target slot d ≡ ok e
    → (ref : Picture) × (picture_at t d.timestamp ≡ ok ref)
      × (lookup e.buf last_writer ≡ some ref.pic)
      × (e.poc ≡ ref.decode.pic_order_cnt_val)
      × (e.buf ≢ target)
unfolding emit_entry
emit_entry-parts t last_writer p target slot d e ran =
    elim (Result-cases (picture_at t d.timestamp)) [
      | inr (w, bad) ↦ ground arith
      | inl (ref, a) ↦ elim (Result-cases (poc_integer d.pic_order_cnt_val)) [
        | inr (w, bad) ↦ ground arith
        | inl (rpoc, b) ↦ (
          ref,
          a,
          ground arith,
          ground (arith, eq_of_eq_ℤ rpoc ref.decode.pic_order_cnt_val),
          ground arith,
        )
      ]
    ]

-- The writer that a number stands for.
picture_of-some :
    (o : Option Writer) (n : ℕ)
    → picture_of o ≡ some n
    → (w : Writer) × (o ≡ some w) × (w.picture ≡ n)
picture_of-some none n h = ground arith
picture_of-some (some w) n h = (w, refl, ground arith)

module _ (t : Trace) (s : IsSound t) (done : List Request) (last_writer : Dict ℕ)
    (f : Follows t done last_writer) where
  emit_entry-Resolves :
      (p : Picture) (r : Request) (slot : ℕ) (d : DpbParams) (e : DpbEntry)
      → emit_entry t last_writer p r.target slot d ≡ ok e
      → Resolves done r e
  emit_entry-Resolves p r slot d e ran =
      let (ref, at, last, poc, apart) = emit_entry-parts t last_writer p r.target slot d e ran in
      let (w, written, number) =
        picture_of-some (writer_at e.buf done) ref.pic (sym (f.numbers e.buf) ∙ last) in
      record {
        writer = w;
        last_writer = written;
        same_poc =
            f.pictures e.buf w ref written
              (ap (λ n. lookup n t.pictures) number ∙ picture_at-parts t d.timestamp ref at s)
            ∙ sym poc;
        kept_apart = apart;
      }

  emit_dpb-Resolves :
      (p : Picture) (r : Request) (es : List DpbEntry)
      → emit_dpb t last_writer p r.target ≡ ok es
      → All (Resolves done r) es
  unfolding emit_dpb
  emit_dpb-Resolves p r es ran =
      read_each-All (Resolves done r) (emit_entry t last_writer p r.target)
        (emit_entry-Resolves p r) 0 (take p.decode.num_active_dpb_entries p.decode.dpb) es
        (ground arith)

-- What a record that was made comes from.
emit_picture-parts :
    (run : String) (t : Trace) (last_writer : Dict ℕ) (p : Picture) (r : Request) (a : Association)
    (last_writer' : Dict ℕ)
    → emit_picture run t last_writer p ≡ ok (r, a, last_writer')
    → (r.seq ≡ p.pic)
      × (poc_integer p.decode.pic_order_cnt_val ≡ ok r.poc)
      × (emit_dpb t last_writer p r.target ≡ ok r.dpb)
      × (last_writer' ≡ put r.target p.pic last_writer)
unfolding emit_picture
emit_picture-parts run t last_writer p r a last_writer' ran = elim (Result-cases (emit_flags p)) [
  | inr (x, bad) ↦ ground arith
  | inl (fl, b) ↦ elim (Option-cases p.target) [
    | inl bad ↦ ground arith
    | inr (target, c) ↦ elim (Result-cases (emit_lists p fl.of_slice)) [
      | inr (x, bad) ↦ ground arith
      | inl (lists, d) ↦ (ground arith, ground arith, ground arith, ground arith)
    ]
  ]
]

no_pictures-Follows : (t : Trace) → Follows t [] []
unfolding lookup writer_at
no_pictures-Follows t = record { numbers = λ b. refl; pictures = λ b w p found at. ground arith }

put-Follows :
    (t : Trace) (done : List Request) (last_writer : Dict ℕ) (r : Request) (p : Picture)
    → p.pic ≡ suc (length done)
    → lookup p.pic t.pictures ≡ some p
    → r.poc ≡ p.decode.pic_order_cnt_val
    → Follows t done last_writer
    → Follows t (r ∷ done) (put r.target p.pic last_writer)
unfolding writer_at
put-Follows t done last_writer r p number at poc f = record {
  numbers = λ b. ground (arith, f.numbers b, lookup-put r.target b p.pic last_writer);
  pictures = λ b w q found there. elim (Bool-cases (r.target == b)) [
    | inl here ↦ ground arith
    | inr else_ ↦ f.pictures b w q (ground arith) there
  ];
}

abbrev IsStored : Dict Picture → ℕ × Picture → Type 0
IsStored ps e = (lookup e.0 ps ≡ some e.1)

IsStored-cons :
    (k m : ℕ) (p : Picture) (ps qs : Dict Picture)
    → k < m
    → IsNumbered m qs
    → All (IsStored ps) qs
    → All (IsStored ((k, p) ∷ ps)) qs
unfolding lookup
IsStored-cons k m p ps [] below n h = tt
IsStored-cons k m p ps ((j, q) ∷ qs) below (a, b, n) (there, h) =
    (ground arith, IsStored-cons k (suc m) p ps qs (omega (arith, below)) n h)

IsStored-self : (n : ℕ) (ps : Dict Picture) → IsNumbered n ps → All (IsStored ps) ps
unfolding lookup
IsStored-self n [] h = tt
IsStored-self n ((k, p) ∷ ps) (a, b, h) = (
  ground arith,
  IsStored-cons k (suc n) p ps ps (omega (arith, a)) h (IsStored-self (suc n) ps h),
)

emit_pictures-Consistent :
    (run : String) (t : Trace) (done : List Request) (last_writer : Dict ℕ) (ps : Dict Picture)
    (out : List (Request × Association))
    → IsSound t
    → Follows t done last_writer
    → IsNumbered (suc (length done)) ps
    → All (IsStored t.pictures) ps
    → emit_pictures run t last_writer ps ≡ ok out
    → Consistent done (map (λ x. x.0) out)
unfolding emit_pictures
emit_pictures-Consistent run t done last_writer [] out s f n at ran =
    subst (λ o. Consistent done (map (λ x. x.0) o)) {x = []} (ground arith) finished
emit_pictures-Consistent run t done last_writer ((k, p) ∷ ps) out s f (key, number, n) (here, at)
      ran =
    elim (Result-cases (emit_picture run t last_writer p)) [
      | inr (x, bad) ↦ ground arith
      | inl ((r, a, last_writer'), e) ↦ elim (Result-cases (emit_pictures run t last_writer' ps)) [
        | inr (x, bad) ↦ ground arith
        | inl (rest, e') ↦
            let (seq, poc, dpb, lw) = emit_picture-parts run t last_writer p r a last_writer' e in
            let stored : lookup p.pic t.pictures ≡ some p =
              ap (λ i. lookup i t.pictures) (number ∙ sym key) ∙ here in
            let f' : Follows t (r ∷ done) last_writer' = subst (Follows t (r ∷ done)) (sym lw) (
              put-Follows t done last_writer r p number stored
                (poc_integer-id p.decode.pic_order_cnt_val r.poc poc) f) in
            subst (λ o. Consistent done (map (λ x. x.0) o)) {x = (r, a) ∷ rest} (ground arith)
              (next (seq ∙ number) (emit_dpb-Resolves t s done last_writer f p r r.dpb dpb)
                (emit_pictures-Consistent run t (r ∷ done) last_writer' ps rest s f' n at e'))
      ]
    ]

-- The records are numbered from 1, and each DPB entry of each record names the last earlier record
-- that wrote the entry's buffer, which has the entry's order count; the buffer is never the one that
-- the record itself writes.
pub normalize-Consistent :
    (es : List Event) (expected : ℕ) (run : String) (out : List (Request × Association))
    → normalize es expected run ≡ ok out
    → Consistent [] (map (λ x. x.0) out)
unfolding normalize
normalize-Consistent es expected run out ran = elim (Result-cases (read_trace es expected)) [
  | inr (x, bad) ↦ ground arith
  | inl (t, e) ↦
      let s = (read_trace-IsSound es expected t e).0 in
      emit_pictures-Consistent run t [] [] t.pictures out s (no_pictures-Follows t) s.numbered
        (IsStored-self 1 t.pictures s.numbered) (ground arith)
]
