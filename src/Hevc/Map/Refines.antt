-- ===== src/Hevc/Map/Refines.antt =====
-- `map_records` of experiments/hevc-avd-map/model.py against the requests that came before.
use omarchy_m1_video.Prelude.{
  ℕ, suc, ◌+◌, ◌≡◌, ◌≢◌, refl, sym, ◌∙◌, ap, subst, String, some, List, [], ◌∷◌, length, All,
  get_elem?, arith, Option-cases, inl, inr, eq_of_eq_ℤ,
}
use omarchy_m1_video.Exec.{Result-cases, ok}
use omarchy_m1_video.Checked.{read_each-All}
use omarchy_m1_video.Dict.{lookup-put}
use omarchy_m1_video.Hevc.Record.{Slice, Request, DpbEntry}
use omarchy_m1_video.Hevc.Map.Motion.{Writer, Reference}
use omarchy_m1_video.Hevc.Map.Steps.{
  History, Mapped, ListEntry, map_one, map_loop, map_all, map_records, read_entry, read_dpb,
  read_list, list_entry, new_writer, advance, resolve, no_history,
}
use omarchy_m1_video.Hevc.Map.History.{
  Tracks, writes, writer_at, written, no_history-Tracks, map_one-parts, map_slice-parts,
  map_dpb-parts, map_lists-parts,
}

new_writer-written :
    (done : List Request) (h : History) (r : Request) (s : Slice)
    → Tracks done h
    → r.slices ≡ s ∷ []
    → new_writer (suc (length done)) r s h ≡ written r done
unfolding new_writer
new_writer-written done h r s t one = rw (one, t.generations r.target) refl

advance-Tracks :
    (done : List Request) (h : History) (r : Request)
    → Tracks done h
    → Tracks (r ∷ done) (advance r (written r done) h)
unfolding advance writer_at writes
advance-Tracks done h r t = record {
  writers = λ b. ground (arith, t.writers b, lookup-put r.target b (written r done) h.writers);
  generations = λ b.
      ground
        (arith, t.generations b, lookup-put r.target b (writes r.target done + 1) h.generations);
  pocs = ap (λ ps. r.poc ∷ ps) t.pocs;
}

-- A reference and the DPB entry that it stands for: the buffer's last writer, with the entry's
-- order count, in a buffer that the picture itself does not write.
pub record Backs (done : List Request) (r : Request) (e : DpbEntry) (x : Reference) : Type 0 where
  pub last_writer : writer_at e.buf done ≡ some x.writer
  pub same_poc : x.writer.poc ≡ e.poc
  pub kept_apart : e.buf ≢ r.target
  pub same_buffer : x.buffer ≡ e.buf

pub data Backed (done : List Request) (r : Request) : List DpbEntry → List Reference → Type 0 where
  no_entry : Backed done r [] []
  entry :
      {e : DpbEntry} {x : Reference} {es : List DpbEntry} {xs : List Reference}
      → Backs done r e x
      → Backed done r es xs
      → Backed done r (e ∷ es) (x ∷ xs)

read_entry-Backs :
    (done : List Request) (h : History) (r : Request) (seen : List ℕ) (n : ℕ) (e : DpbEntry)
    (x : Reference)
    → Tracks done h
    → read_entry r h.writers seen n e ≡ ok x
    → Backs done r e x
unfolding read_entry resolve
read_entry-Backs done h r seen n e x t ran = record {
  last_writer = ground (arith, t.writers e.buf);
  same_poc = ground (arith, λ (w : Writer). eq_of_eq_ℤ w.poc e.poc);
  kept_apart = ground arith;
  same_buffer = ground arith;
}

read_dpb-Backed :
    (done : List Request) (h : History) (r : Request) (seen : List ℕ) (n : ℕ) (es : List DpbEntry)
    (xs : List Reference)
    → Tracks done h
    → read_dpb r h.writers seen n es ≡ ok xs
    → Backed done r es xs
unfolding read_dpb
read_dpb-Backed done h r seen n [] xs t ran = subst (Backed done r []) (ground arith) no_entry
read_dpb-Backed done h r seen n (e ∷ es) xs t ran =
    elim (Result-cases (read_entry r h.writers seen n e)) [
      | inr (w, bad) ↦ ground arith
      | inl (x, a) ↦ elim (Result-cases (read_dpb r h.writers (e.buf ∷ seen) (suc n) es)) [
        | inr (w, bad) ↦ ground arith
        | inl (rest, b) ↦ subst (Backed done r (e ∷ es)) (ground arith) (
            entry (read_entry-Backs done h r seen n e x t a)
              (read_dpb-Backed done h r (e.buf ∷ seen) (suc n) es rest t b))
      ]
    ]

-- An entry of an active list carries the writer of the reference in its slot.
abbrev pub Picks : List Reference → ListEntry → Type 0
Picks refs l = (x : Reference) × (get_elem? refs l.slot ≡ some x) × (l.writer ≡ x.writer)

list_entry-Picks :
    (which : ℕ) (refs : List Reference) (n slot : ℕ) (l : ListEntry)
    → list_entry which refs n slot ≡ ok l
    → Picks refs l
list_entry-Picks which refs n slot l ran = elim (Option-cases (get_elem? refs slot)) [
  | inl missing ↦ ground arith
  | inr (x, found) ↦ (x, ground arith, ground arith)
]

read_list-Picks :
    (which : ℕ) (refs : List Reference) (slots : List ℕ) (ls : List ListEntry)
    → read_list which refs slots ≡ ok ls
    → All (Picks refs) ls
unfolding read_list
read_list-Picks which refs slots ls ran =
    read_each-All (Picks refs) (list_entry which refs) (list_entry-Picks which refs) 0 slots ls
      (ground arith)

-- What a mapped picture says of its request and of the requests before it.
pub record Explained (done : List Request) (r : Request) (m : Mapped) : Type 0 where
  pub destination : m.destination ≡ written r done
  pub previous : m.previous_destination_writer ≡ writer_at r.target done
  pub references : Backed done r r.dpb m.dpb
  pub first_list : All (Picks m.dpb) m.list0
  pub second_list : All (Picks m.dpb) m.list1

-- The pictures, one for each request, in order.
pub data Explains : List Request → List Request → List Mapped → Type 0 where
  finished : {done : List Request} → Explains done [] []
  mapped :
      {done : List Request} {r : Request} {m : Mapped} {rs : List Request} {ms : List Mapped}
      → Explained done r m
      → Explains (r ∷ done) rs ms
      → Explains done (r ∷ rs) (m ∷ ms)

pub map_one-Explained :
    (context : ℕ) (run : String) (done : List Request) (h : History) (r : Request) (m : Mapped)
    (h' : History)
    → Tracks done h
    → map_one context run (suc (length done)) h r ≡ ok (m, h')
    → Explained done r m × Tracks (r ∷ done) h'
map_one-Explained context run done h r m h' t ran =
    let (s, slice, dpb, lists, mo, dest, prev, next) =
      map_one-parts context run (suc (length done)) h r m h' ran in
    let one = (map_slice-parts context run (suc (length done)) h r s slice).0 in
    let is_written = dest ∙ new_writer-written done h r s t one in
    let (l0, l1) = map_lists-parts s m.dpb m.list0 m.list1 lists in
    (
      record {
        destination = is_written;
        previous = prev ∙ t.writers r.target;
        references = read_dpb-Backed done h r [] 0 r.dpb m.dpb t (map_dpb-parts h r m.dpb dpb);
        first_list = read_list-Picks 0 m.dpb s.l0 m.list0 l0;
        second_list = read_list-Picks 1 m.dpb s.l1 m.list1 l1;
      },
      subst (Tracks (r ∷ done)) (sym (next ∙ ap (λ w. advance r w h) is_written))
          (advance-Tracks done h r t),
    )

map_loop-Explains :
    (context : ℕ) (run : String) (done : List Request) (h : History) (rs : List Request)
    (ms : List Mapped)
    → Tracks done h
    → map_loop context run (suc (length done)) h rs ≡ ok ms
    → Explains done rs ms
unfolding map_loop
map_loop-Explains context run done h [] ms t ran = subst (Explains done []) (ground arith) finished
map_loop-Explains context run done h (r ∷ rs) ms t ran =
    elim (Result-cases (map_one context run (suc (length done)) h r)) [
      | inr (w, bad) ↦ ground arith
      | inl ((m, h'), a) ↦
          elim (Result-cases (map_loop context run (suc (suc (length done))) h' rs)) [
            | inr (w, bad) ↦ ground arith
            | inl (rest, b) ↦
                let (x, t') = map_one-Explained context run done h r m h' t a in
                subst (Explains done (r ∷ rs)) (ground arith)
                  (mapped x (map_loop-Explains context run (r ∷ done) h' rs rest t' b))
          ]
    ]

map_all-Explains : (rs : List Request) (ms : List Mapped) → map_all rs ≡ ok ms → Explains [] rs ms
unfolding map_all map_loop
map_all-Explains [] ms ran = subst (Explains [] []) (ground arith) finished
map_all-Explains (r ∷ rs) ms ran =
    map_loop-Explains r.ctx r.run [] no_history (r ∷ rs) ms no_history-Tracks ran

-- Every mapped picture is explained by the requests before it: its destination is the next picture
-- and the next generation of its buffer, and each reference is the last picture that was written to
-- the buffer of its DPB entry, has the order count of that entry and is not in the buffer that the
-- picture writes; an entry of an active list has the writer of its slot's reference.
pub map_records-Explains :
    (rs : List Request) (expected : ℕ) (ms : List Mapped)
    → map_records rs expected ≡ ok ms
    → Explains [] rs ms
unfolding map_records
map_records-Explains rs expected ms ran = map_all-Explains rs ms (ground arith)
