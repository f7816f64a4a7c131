-- ===== src/Interlace/Contract.antt =====
-- What a scan counts, and what a complete one has read: tests/h264-interlace-scan.py.
use omarchy_m1_video.Prelude.{
  ℕ, ◌+◌, ◌≤◌, ◌<◌, ◌≡◌, ◌⊎◌, inl, inr, refl, true, none, List, [], ◌∷◌, arith, length,
  length-append, drop, leb, ◌==◌, Bool-cases,
}
use omarchy_m1_video.Exec.{Result, ok, err, bind-ok, ◌>>=◌}
use omarchy_m1_video.Dict.{lookup}
use omarchy_m1_video.Interlace.Reader.{Caught, caught, Reader, Read, Unit_, bit, nals}
use omarchy_m1_video.Interlace.Params.{Sps, Pps, parse_sps, parse_pps, parsing}
use omarchy_m1_video.Interlace.Classify.{
  Scan, new_scan, is_slice, is_nil, active_sps, slice_sps, field_flags, read_slice, failed, add_sps,
  add_pps, count_slice, add_slice, scan_unit, scan_units, report_of, classify_data,
}

-- Flags of a slice: each is a bit, and only a field can be a bottom field.
abbrev pub AreFlags : ℕ × ℕ → Type 0
AreFlags (field, bottom) = (field ≤ 1) × (bottom ≤ field)

bit-le : (r : Reader) (b : ℕ) → (bit r).0 ≡ ok b → b ≤ 1
unfolding bit
bit-le r b h = ground arith

-- What every result of a read satisfies, its last step ensures.
module _ {A B : Type 0} (P : B → Type 0) (m : Read A) (f : A → Read B) where
  bind-ensures :
      ((a : A) (r : Reader) (b : B) → (f a r).0 ≡ ok b → P b)
      → (r : Reader) (b : B) → ((m >>= f) r).0 ≡ ok b
      → P b
  bind-ensures h r b e = let (a, _, last) = bind-ok f m r b e in h a (m r).1 b last

field_flags-AreFlags :
    (sps : Sps) (r : Reader) (p : ℕ × ℕ) → (field_flags sps r).0 ≡ ok p → AreFlags p
unfolding field_flags bit
field_flags-AreFlags sps r (field, bottom) h = (ground arith, ground arith)

parsed-AreFlags :
    (s : Scan) (rbsp : List ℕ) (p : ℕ × ℕ) → parsing (read_slice s) rbsp ≡ ok p → AreFlags p
unfolding parsing read_slice
parsed-AreFlags s rbsp p h =
    bind-ensures AreFlags (slice_sps s) field_flags field_flags-AreFlags
      (record { data_ = drop 1 rbsp; pos = 0 }) p h

-- A slice is counted before it is parsed, and then is parsed or noted; a field is a parsed slice and
-- a bottom field is a field; and a noted slice is an error.
pub record IsCounted (s : Scan) : Type 0 where
  pub accounted : s.slice_nals ≤ s.parsed + s.parse_errors
  pub parsed_counted : s.parsed ≤ s.slice_nals
  pub fields_parsed : s.field_slices ≤ s.parsed
  pub bottoms_fields : s.bottom_field_slices ≤ s.field_slices
  pub noted : s.parse_errors ≤ length s.errors

failed-IsCounted : (t : ℕ) (s : Scan) → IsCounted s → IsCounted (failed t s)
unfolding failed
failed-IsCounted t s v = record {
  accounted = ground (arith, v.accounted);
  parsed_counted = ground (arith, v.parsed_counted);
  fields_parsed = ground (arith, v.fields_parsed);
  bottoms_fields = ground (arith, v.bottoms_fields);
  noted = ground (arith, v.noted, length-append s.errors (t ∷ []));
}

add_sps-IsCounted : (r : Result Caught Sps) (s : Scan) → IsCounted s → IsCounted (add_sps r s)
unfolding add_sps
add_sps-IsCounted (err e) s v = failed-IsCounted 7 s v
add_sps-IsCounted (ok sps) s v = record {
  accounted = v.accounted;
  parsed_counted = v.parsed_counted;
  fields_parsed = v.fields_parsed;
  bottoms_fields = v.bottoms_fields;
  noted = v.noted;
}

add_pps-IsCounted : (r : Result Caught Pps) (s : Scan) → IsCounted s → IsCounted (add_pps r s)
unfolding add_pps
add_pps-IsCounted (err e) s v = failed-IsCounted 8 s v
add_pps-IsCounted (ok pps) s v = record {
  accounted = v.accounted;
  parsed_counted = v.parsed_counted;
  fields_parsed = v.fields_parsed;
  bottoms_fields = v.bottoms_fields;
  noted = v.noted;
}

add_slice-IsCounted :
    (t : ℕ) (r : Result Caught (ℕ × ℕ)) (s : Scan)
    → is_slice t ≡ true
    → ((p : ℕ × ℕ) → r ≡ ok p → AreFlags p)
    → IsCounted s
    → IsCounted (add_slice t r (count_slice t s))
unfolding add_slice count_slice failed
add_slice-IsCounted t (err e) s slice flags v = record {
  accounted = ground (arith, v.accounted);
  parsed_counted = ground (arith, v.parsed_counted);
  fields_parsed = ground (arith, v.fields_parsed);
  bottoms_fields = ground (arith, v.bottoms_fields);
  noted = ground (arith, v.noted, length-append s.errors (t ∷ []));
}
add_slice-IsCounted t (ok (field, bottom)) s slice flags v =
    let (one, less) = flags (field, bottom) refl in
    record {
      accounted = omega (arith, v.accounted);
      parsed_counted = omega (arith, v.parsed_counted);
      fields_parsed = omega (arith, v.fields_parsed, one);
      bottoms_fields = omega (arith, v.bottoms_fields, less);
      noted = v.noted;
    }

scan_unit-IsCounted : (n : Unit_) (s : Scan) → IsCounted s → IsCounted (scan_unit n s)
unfolding scan_unit
scan_unit-IsCounted n s v = elim (Bool-cases (leb 128 n.header)) [
  | inl bad ↦ rw bad (failed-IsCounted n.nal_type s v)
  | inr fine ↦ rw fine (elim (Bool-cases (n.nal_type == 7)) [
    | inl sps ↦ rw sps (add_sps-IsCounted (parsing parse_sps n.rbsp) s v)
    | inr other ↦ rw other (elim (Bool-cases (n.nal_type == 8)) [
      | inl pps ↦ rw pps (add_pps-IsCounted (parsing parse_pps n.rbsp) s v)
      | inr rest ↦ rw rest (elim (Bool-cases (is_slice n.nal_type)) [
        | inl slice ↦ rw slice (
            add_slice-IsCounted n.nal_type (parsing (read_slice s) n.rbsp) s slice
              (parsed-AreFlags s n.rbsp) v)
        | inr skipped ↦ rw skipped v
      ])
    ])
  ])
]

-- Scanning any units keeps the counts of a scan in step.
pub scan_units-IsCounted : (ns : List Unit_) (s : Scan) → IsCounted s → IsCounted (scan_units ns s)
unfolding scan_units
scan_units-IsCounted [] s v = v
scan_units-IsCounted (n ∷ ns) s v =
    scan_units-IsCounted ns (scan_unit n s) (scan_unit-IsCounted n s v)

pub new_scan-IsCounted : IsCounted new_scan
new_scan-IsCounted = record {
  accounted = omega arith;
  parsed_counted = omega arith;
  fields_parsed = omega arith;
  bottoms_fields = omega arith;
  noted = omega arith;
}

no_errors : (es : List ℕ) → is_nil es ≡ true → length es ≡ 0
no_errors [] h = refl
no_errors (e ∷ es) h = cc

report-complete :
    (s : Scan) (l : List Sps)
    → IsCounted s
    → (report_of s l).complete ≡ true
    → (s.parse_errors ≡ 0) × (s.parsed ≡ s.slice_nals) × (0 < s.slice_nals)
unfolding report_of
report-complete s [] v h = absurd (ground arith)
report-complete s (first ∷ rest) v h =
    let none_left : length s.errors ≡ 0 = no_errors s.errors (ground arith) in
    let some_parsed : 0 < s.parsed = ground arith in
    (
      omega (arith, v.noted, none_left),
      omega (arith, v.noted, none_left, v.accounted, v.parsed_counted),
      omega (arith, some_parsed, v.parsed_counted),
    )

-- A file that is reported as complete has a slice, and every slice of it was parsed without an error.
pub classify_data-complete :
    (data_ : List ℕ)
    → (classify_data data_).complete ≡ true
    → let s = scan_units (nals data_) new_scan in
      (s.parse_errors ≡ 0) × (s.parsed ≡ s.slice_nals) × (0 < s.slice_nals)
unfolding classify_data
classify_data-complete data_ h =
    let s = scan_units (nals data_) new_scan in
    report-complete s s.sps_list (scan_units-IsCounted (nals data_) new_scan new_scan-IsCounted) h

-- After an SPS that does not parse, or has the forbidden bit set, no SPS is active for any PPS
-- identity: no slice can be parsed against an SPS that it was to replace.
pub failed_sps_inactive :
    (n : Unit_) (s : Scan) (id : ℕ)
    → n.nal_type ≡ 7
    → (128 ≤ n.header) ⊎ (parsing parse_sps n.rbsp ≡ err caught)
    → active_sps (scan_unit n s) id ≡ none
unfolding scan_unit add_sps failed active_sps lookup
failed_sps_inactive n s id sps (inl forbidden) = ground arith
failed_sps_inactive n s id sps (inr malformed) = ground arith
