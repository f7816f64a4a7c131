-- ===== src/Hevc/Trace/Associate.antt =====
-- `associate` of experiments/hevc-controls/normalize.py. A line of the log is what its pattern makes
-- of it: none of its business, a line that mentions an output picture and does not match, or the
-- instance and the frame number of a match.
use omarchy_m1_video.Prelude.{text_eq}
use omarchy_m1_video.Prelude.{
  ℕ, ◌*◌, ◌==◌, ℤ, Bool, true, false, not, ◌&&◌, List, [], ◌∷◌, String, leb, all, length,
}
use omarchy_m1_video.Exec.{Result, ok, err}
use omarchy_m1_video.Checked.{◌>>=◌, ◌>>◌, need, present, read_each}
use omarchy_m1_video.Dict.{Dict, lookup, contains, index_by}
use omarchy_m1_video.Hevc.Trace.Event.{integer, max_u32, key_error}
use omarchy_m1_video.Hevc.Trace.Requests.{mem}
use omarchy_m1_video.Hevc.Trace.Emit.{Association}

pub data LogLine : Type 0 where
  other_line unrecognized : LogLine
  output_picture : String → ℕ → LogLine

pub record Log : Type 0 where
  pub size : ℕ
  pub lines : List LogLine

pub record Frame : Type 0 where
  pub output_index : ℕ
  pub pic : ℕ
  pub poc : ℤ
  pub system_frame_number : ℕ

-- The instances and the frame numbers of the log, in its order.
unfoldable pub read_lines : List LogLine → Result String (List String × List ℕ)
read_lines [] = ok ([], [])
read_lines (other_line ∷ lines) = read_lines lines
read_lines (unrecognized ∷ lines) = err "unrecognized output-picture event"
read_lines (output_picture name f ∷ lines) = do
  integer f max_u32
  (names, ids) ← read_lines lines
  ok (name ∷ names, f ∷ ids)

-- `len(set(names)) == 1`
abbrev pub all_same : List String → Bool
all_same [] = false
all_same (n ∷ ns) = all (text_eq n) ns

unfoldable pub no_repeats : List ℕ → Bool
no_repeats [] = true
no_repeats (x ∷ xs) = not (mem x xs) && no_repeats xs

abbrev pub frame_number : Association → ℕ
frame_number a = a.system_frame_number

-- `set(ids) == set(by_id)`
abbrev pub same_keys : List ℕ → Dict Association → Bool
same_keys ids d = all (λ i. contains i d) ids && all (λ (e : ℕ × Association). mem e.0 ids) d

abbrev pub frame_of : Dict Association → ℕ → ℕ → Result String Frame
frame_of d i f = do
  a ← present (lookup f d) key_error
  ok (record {
    output_index = i;
    pic = a.pic;
    poc = a.poc;
    system_frame_number = a.system_frame_number;
  })

unfoldable pub associate : Log → List Association → ℕ → ℕ → Result String (List Frame)
unfolding read_lines no_repeats index_by read_each
associate log pictures decoded_frames tracee_status = do
  need (leb 1 decoded_frames && leb decoded_frames 10000) "invalid integer"
  integer tracee_status 255
  need (tracee_status == 0 && decoded_frames == length pictures)
      "association requires successful pipeline and independent full frame count"
  need (leb log.size (128 * 1024 * 1024)) "log exceeds byte limit"
  (names, ids) ← read_lines log.lines
  need (all_same names && length ids == length pictures && no_repeats ids)
      "missing/duplicate/multiple-context output events"
  let by_id = index_by frame_number [] pictures
  need (same_keys ids by_id) "output/decode picture identities differ"
  read_each (frame_of by_id) 0 ids
