-- ===== src/Join/Evidence.antt =====
-- `KernelEvidence` and `_reference_pair` of
-- experiments/hevc-reference-content/same-run/join.py.
use omarchy_m1_video.Prelude.{text_eq}
use omarchy_m1_video.Prelude.{
  ℕ, suc, ◌==◌, ◌!=◌, Bool, true, ◌&&◌, ◌||◌, List, [], ◌∷◌, String, map, if◌then◌else◌, any,
  length,
}
use omarchy_m1_video.Exec.{Result, ok, err}
use omarchy_m1_video.Checked.{◌>>=◌, ◌>>◌, need, check_each}
use omarchy_m1_video.Hevc.Record.{Request}
use omarchy_m1_video.Hevc.Trace.Emit.{Association}
use omarchy_m1_video.Hevc.Trace.Associate.{no_repeats}
use omarchy_m1_video.Join.Text.{uint_nonzero, hex}

-- A row of the kernel's reference snapshot, with the keys that the join reads.
pub record RefRow : Type 0 where
  pub picture : ℕ
  pub kind : ℕ
  pub buffer : ℕ
  pub writer : ℕ
  pub completed : ℕ
  pub result : ℕ
  pub allocation : ℕ
  pub length : ℕ
  pub comp_start : ℕ
  pub comp_size : ℕ
  pub mv_size : ℕ
  pub mv_offset : ℕ

pub record KernelEvidence : Type 0 where
  pub run : ℕ
  pub context : ℕ
  pub child_pid : ℕ
  pub requests : List Request
  pub associations : List Association
  pub reference_records : List RefRow
  pub hashes : List (String × String)

-- `[row["pic"] for row in rows] == [first, first + 1, ...]`
unfoldable pub counts_from : ℕ → List ℕ → Bool
counts_from first [] = true
counts_from first (n ∷ ns) = n == first && counts_from (suc first) ns

abbrev pub has_hash : List (String × String) → String → Bool
has_hash hashes name = any (λ (h : String × String). text_eq h.0 name) hashes

abbrev pub check_hash : String × String → Result String Unit
check_hash h = hex h.1 64 >> ok tt

abbrev pub pictures_of : List Request → List ℕ
pictures_of rs = map (λ (r : Request). r.pic) rs

abbrev pub frames_of : List Association → List ℕ
frames_of rows = map (λ (a : Association). a.system_frame_number) rows

-- `KernelEvidence.check`
unfoldable pub check : KernelEvidence → Result String Unit
unfolding counts_from no_repeats check_each
check k = do
  uint_nonzero k.run 64
  uint_nonzero k.context 64
  uint_nonzero k.child_pid 31
  need (length k.requests != 0) "kernel evidence has no requests"
  need (counts_from 1 (pictures_of k.requests)) "kernel request history is incomplete or reordered"
  need
      (length k.associations == length k.requests
        && counts_from 1 (map (λ (a : Association). a.pic) k.associations))
      "raw V4L2 association history is incomplete or reordered"
  need (no_repeats (frames_of k.associations)) "raw V4L2 frame timestamps are ambiguous"
  need
      (has_hash k.hashes "execution"
        && has_hash k.hashes "v4l2_trace"
        && has_hash k.hashes "command_snapshot"
        && has_hash k.hashes "reference_snapshot")
      "kernel evidence digest inventory is incomplete"
  check_each check_hash k.hashes

abbrev pub is_endpoint : ℕ → RefRow → Bool
is_endpoint picture row = row.picture == picture && (row.kind == 1 || row.kind == 2)

-- `rows` of `_reference_pair`
unfoldable pub endpoints : ℕ → List RefRow → List RefRow
endpoints picture [] = []
endpoints picture (row ∷ rows) =
    let rest = endpoints picture rows in if is_endpoint picture row then row ∷ rest else rest

abbrev pub two_rows : List RefRow → Result String (RefRow × RefRow)
two_rows (start ∷ (done ∷ [])) = ok (start, done)
two_rows _ = err "kernel picture has no complete reference lifetime"

abbrev pub same_lifetime : RefRow → RefRow → Bool
same_lifetime start done =
    start.allocation == done.allocation
    && start.length == done.length
    && start.comp_start == done.comp_start
    && start.comp_size == done.comp_size
    && start.mv_size == done.mv_size
    && start.mv_offset == done.mv_offset

unfoldable pub reference_pair : KernelEvidence → ℕ → ℕ → Result String (RefRow × RefRow)
unfolding endpoints
reference_pair k picture capture = do
  (start, done) ← two_rows (endpoints picture k.reference_records)
  need (start.kind == 1 && done.kind == 2) "kernel picture has no complete reference lifetime"
  need (start.buffer == done.buffer && done.buffer == capture)
      "kernel picture does not bind the selected capture"
  need (start.writer == picture && start.completed == 0)
      "kernel picture has the wrong writer frontier"
  need (done.writer == picture && done.completed == 1 && done.result == 5)
      "kernel picture has no successful completion"
  need (same_lifetime start done) "kernel picture changed before completion"
  uint_nonzero start.allocation 64
  ok (start, done)
