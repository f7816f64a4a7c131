-- ===== src/Hevc/Map/History.antt =====
-- What the dicts of `map_records` (experiments/hevc-avd-map/model.py) stand for: the requests so
-- far, and the last of them that wrote a buffer.
use omarchy_m1_video.Prelude.{
  ℕ, suc, ◌+◌, ◌≡◌, refl, String, Bool, false, Option, none, some, List, [], ◌∷◌, map, ◌==◌,
  if◌then◌else◌, length, or_default, arith, inl, inr,
}
use omarchy_m1_video.Exec.{Result-cases, ok}
use omarchy_m1_video.Dict.{lookup}
use omarchy_m1_video.Hevc.Record.{Slice, Request, is_i}
use omarchy_m1_video.Hevc.Map.Motion.{Writer, Reference, motion}
use omarchy_m1_video.Hevc.Map.Steps.{
  History, Mapped, ListEntry, map_one, map_slice, map_dpb, map_lists, mem_poc, check_request,
  read_dpb, read_list, new_writer, advance, only_slice, no_history,
}

-- The number of requests that wrote a buffer.
unfoldable pub writes : ℕ → List Request → ℕ
writes b [] = 0
writes b (r ∷ done) = let rest = writes b done in if r.target == b then suc rest else rest

abbrev pub is_intra : List Slice → Bool
is_intra [] = false
is_intra (s ∷ _) = is_i s.slice_type

-- The picture that a request writes after others, the newest of which stands first.
abbrev pub written : Request → List Request → Writer
written r done = record {
  picture = suc (length done);
  poc = r.poc;
  buffer = r.target;
  generation = writes r.target done + 1;
  is_intra = is_intra r.slices;
}

-- The last picture that was written to a buffer.
unfoldable pub writer_at : ℕ → List Request → Option Writer
writer_at b [] = none
writer_at b (r ∷ done) =
    let rest = writer_at b done in if r.target == b then some (written r done) else rest

-- The dicts of the loop hold what the earlier requests wrote.
pub record Tracks (done : List Request) (h : History) : Type 0 where
  pub writers : (b : ℕ) → lookup b h.writers ≡ writer_at b done
  pub generations : (b : ℕ) → or_default (lookup b h.generations) 0 ≡ writes b done
  pub pocs : h.pocs ≡ map (λ (r : Request). r.poc) done

pub no_history-Tracks : Tracks [] no_history
unfolding lookup writer_at writes
no_history-Tracks = record { writers = λ b. refl; generations = λ b. refl; pocs = refl }

pub map_one-parts :
    (context : ℕ) (run : String) (n : ℕ) (h : History) (r : Request) (m : Mapped) (h' : History)
    → map_one context run n h r ≡ ok (m, h')
    → (s : Slice) × (map_slice context run n h r ≡ ok s)
      × (map_dpb h r ≡ ok m.dpb)
      × (map_lists s m.dpb ≡ ok (m.list0, m.list1))
      × (motion s m.dpb ≡ ok m.motion)
      × (m.destination ≡ new_writer n r s h)
      × (m.previous_destination_writer ≡ lookup r.target h.writers)
      × (h' ≡ advance r m.destination h)
unfolding map_one
map_one-parts context run n h r m h' e = elim (Result-cases (map_slice context run n h r)) [
  | inr (x, bad) ↦ ground arith
  | inl (s, a) ↦ elim (Result-cases (map_dpb h r)) [
    | inr (x, bad) ↦ ground arith
    | inl (refs, b) ↦ elim (Result-cases (map_lists s refs)) [
      | inr (x, bad) ↦ ground arith
      | inl ((l0, l1), c) ↦ elim (Result-cases (motion s refs)) [
        | inr (x, bad) ↦ ground arith
        | inl (mo, d) ↦ (
          s,
          ground arith,
          ground arith,
          ground arith,
          ground arith,
          ground arith,
          ground arith,
          ground arith,
        )
      ]
    ]
  ]
]

pub map_slice-parts :
    (context : ℕ) (run : String) (n : ℕ) (h : History) (r : Request) (s : Slice)
    → map_slice context run n h r ≡ ok s
    → (r.slices ≡ s ∷ [])
      × (mem_poc r.poc h.pocs ≡ false)
      × (check_request context run n h r ≡ ok tt)
unfolding map_slice only_slice
map_slice-parts context run n h r s e = ground arith

pub map_dpb-parts :
    (h : History) (r : Request) (refs : List Reference)
    → map_dpb h r ≡ ok refs
    → read_dpb r h.writers [] 0 r.dpb ≡ ok refs
unfolding map_dpb
map_dpb-parts h r refs e = ground arith

pub map_lists-parts :
    (s : Slice) (refs : List Reference) (l0 l1 : List ListEntry)
    → map_lists s refs ≡ ok (l0, l1)
    → (read_list 0 refs s.l0 ≡ ok l0) × (read_list 1 refs s.l1 ≡ ok l1)
unfolding map_lists
map_lists-parts s refs l0 l1 e = ground arith
