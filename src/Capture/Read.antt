-- ===== src/Capture/Read.antt =====
-- `unsigned`, `signed32` and `read_capture` of experiments/hevc-avd-trace/check.py, on the tokens of
-- the lines; the size of the text in bytes stands beside them.
use omarchy_m1_video.Prelude.{text_eq}
use omarchy_m1_video.Prelude.{
  ℕ, ◌+◌, ◌-◌, ◌*◌, ◌^◌, ◌==◌, ℤ, pos, negsuc, false, ◌&&◌, List, [], ◌∷◌, String, if◌then◌else◌,
  all, leb, ltb, length, take, drop,
}
use omarchy_m1_video.Exec.{Result, ok, err}
use omarchy_m1_video.Checked.{◌>>=◌, ◌>>◌, need, read_each}
use omarchy_m1_video.Join.Text.{decimal}
use omarchy_m1_video.Capture.Rows.{
  Held, Row, started, completed_row, table_row, list_row, motion_row,
}

pub record Text : Type 0 where
  pub size : ℕ
  pub lines : List (List String)

pub record Snapshot : Type 0 where
  pub run : ℕ
  pub context : ℕ
  pub rows : List Row
  pub count : ℕ

abbrev pub unsigned : String → Result String ℕ
unsigned token = decimal token false

abbrev pub each_unsigned : List String → Result String (List ℕ)
each_unsigned tokens = read_each (λ i t. unsigned t) 0 tokens

-- `signed32(value)`
abbrev pub signed32 : ℕ → Result String ℤ
signed32 value = do
  need (ltb value (2 ^ 32)) "POC outside encoded s32"
  ok (if ltb value (2 ^ 31) then pos value else negsuc (2 ^ 32 - value - 1))

abbrev pub short : String
short = "ValueError"

-- The eighteen fields of `BUFFER`, and what follows them.
abbrev pub read_held : List ℕ → Result String (Held × List ℕ)
read_held (a ∷ b ∷ c ∷ d ∷ e ∷ f ∷ g ∷ h ∷ i ∷ j ∷ k ∷ l ∷ m ∷ n ∷ o ∷ p ∷ q ∷ r ∷ rest) = ok (
  record {
    buffer = a;
    timestamp = b;
    copied = c;
    intra = d;
    writer = e;
    completed = f;
    allocation = g;
    length = h;
    comp_start = i;
    comp_size = j;
    offsets = k ∷ l ∷ m ∷ n ∷ [];
    mv_size = o;
    mv_offset = p;
    bounds = q;
    memory = r;
  },
  rest,
)
read_held _ = err short

-- What a kind does not use is 0.
abbrev pub no_more : List ℕ → Result String Unit
no_more rest = need (all (λ n. n == 0) rest) "unknown nonzero reserved inputs"

abbrev pub read_start : ℕ → List ℕ → Result String Row
read_start pic (a ∷ b ∷ c ∷ d ∷ e ∷ f ∷ g ∷ h ∷ i ∷ values) = do
  (held, more) ← read_held values
  (entries, rest) ← elim more [ [] ↦ err short | (n ∷ ns) ↦ ok (n, ns) ]
  no_more rest
  poc ← signed32 b
  slice_poc ← signed32 c
  ok (
      started (record {
        picture = pic;
        previous_writer = a;
        poc = poc;
        slice_poc = slice_poc;
        slice_type = d;
        slices = e;
        entry_capacity = f;
        dpb_count = g;
        width = h;
        height = i;
        held = held;
        slice_entries = entries;
      }))
read_start pic _ = err short

abbrev pub read_done : ℕ → List ℕ → Result String Row
read_done pic (a ∷ values) = do
  (held, rest) ← read_held values
  no_more rest
  ok (completed_row (record { picture = pic; result = a; held = held }))
read_done pic _ = err short

abbrev pub read_table : ℕ → List ℕ → Result String Row
read_table pic (a ∷ b ∷ c ∷ d ∷ e ∷ f ∷ values) = do
  (held, more) ← read_held values
  no_more (drop 4 more)
  poc ← signed32 b
  ok (
      table_row (record {
        picture = pic;
        slot = a;
        poc = poc;
        flags = c;
        requested_timestamp = d;
        word = e;
        matched = f;
        held = held;
        emitted_comp = take 4 more;
      }))
read_table pic _ = err short

abbrev pub read_listed : ℕ → List ℕ → Result String Row
read_listed pic (a ∷ b ∷ c ∷ d ∷ rest) = do
  no_more rest
  ok (list_row (record { picture = pic; list = a; position = b; slot = c; word = d }))
read_listed pic _ = err short

abbrev pub read_motion : ℕ → List ℕ → Result String Row
read_motion pic (a ∷ b ∷ c ∷ d ∷ e ∷ f ∷ g ∷ h ∷ i ∷ j ∷ k ∷ l ∷ m ∷ n ∷ values) = do
  (held, more) ← read_held values
  (mv, quirks, rest) ← elim (drop 32 more) [ (x ∷ y ∷ zs) ↦ ok (x, y, zs) | _ ↦ err short ]
  no_more rest
  ok (
      motion_row (record {
        picture = pic;
        flags = a;
        slice_type = b;
        merge = c;
        l0_minus1 = d;
        l1_minus1 = e;
        col_index = f;
        first = g;
        slot = h;
        requested_timestamp = i;
        lookup = j;
        matched = k;
        valid = l;
        word = m;
        emitted = n;
        held = held;
        l0 = take 16 more;
        l1 = take 16 (drop 16 more);
        emitted_mv = mv;
        quirks = quirks;
      }))
read_motion pic _ = err short

-- The row of a kind, with the fields of the kind.
unfoldable pub read_kind : ℕ → ℕ → List ℕ → Result String Row
read_kind kind pic values =
    if kind == 1
    then read_start pic values
    else if kind == 2
    then read_done pic values
    else if kind == 3
    then read_table pic values
    else if kind == 4
    then read_listed pic values
    else read_motion pic values

abbrev pub check_kind : ℕ → ℕ → Result String Unit
check_kind kind pic =
    need (leb 1 kind && leb kind 5 && leb 1 pic && leb pic 300) "unknown kind/picture"

abbrev pub read_numbers : ℕ → ℕ → ℕ → List ℕ → Result String Row
read_numbers run context sequence (rr ∷ rc ∷ seq ∷ kind ∷ pic ∷ values) = do
  need (rr == run && rc == context && seq == sequence)
      "wrong context/run or missing/duplicate sequence"
  check_kind kind pic
  read_kind kind pic values
read_numbers run context sequence _ = err short

-- The body of the loop over the lines after the header.
unfoldable pub read_row : ℕ → ℕ → ℕ → List String → Result String Row
unfolding read_each decimal read_kind
read_row run context sequence [] = err "missing/extra record inputs"
read_row run context sequence (tag ∷ tokens) = do
  need (length tokens == 77 && text_eq tag "R") "missing/extra record inputs"
  numbers ← each_unsigned tokens
  read_numbers run context sequence numbers

abbrev pub check_header : ℕ → ℕ → List ℕ → Result String (ℕ × ℕ × ℕ)
check_header expected_run lines
      (version ∷ run ∷ ctx ∷ phase ∷ errors ∷ count ∷ attempted ∷ pictures ∷ done ∷ cap ∷ first
        ∷ last ∷ size ∷ []) =
    do
      need (version == 2 && run == expected_run && ltb 0 run && ltb 0 ctx)
          "wrong schema/run/context"
      need (phase == 4 && errors == 0) "unsealed or kernel-invalid capture"
      need
          (pictures == 300
            && done == 300
            && cap == 2048
            && first == 24
            && last == 34
            && size == (5 + 72) * 8)
          "wrong extent/schema constants"
      need (count == attempted && attempted == lines && leb 600 count && leb count 1139)
          "loss/overflow/extent mismatch"
      ok (run, ctx, count)
check_header expected_run lines _ = err short

unfoldable pub read_header : ℕ → ℕ → List String → Result String (ℕ × ℕ × ℕ)
unfolding read_each decimal
read_header expected_run lines [] = err "missing/invalid header"
read_header expected_run lines (tag ∷ tokens) = do
  need (length tokens == 13 && text_eq tag "H") "missing/invalid header"
  numbers ← each_unsigned tokens
  check_header expected_run lines numbers

unfoldable pub read_capture : Text → ℕ → Result String Snapshot
unfolding read_header read_row read_each
read_capture text expected_run = do
  need (leb text.size (4 * 1024 * 1024)) "oversized snapshot"
  need (ltb 0 (length text.lines) && leb (length text.lines) (2048 + 1)) "empty/oversized extent"
  (header, lines) ← elim text.lines [ [] ↦ err short | (h ∷ ls) ↦ ok (h, ls) ]
  (run, ctx, count) ← read_header expected_run (length lines) header
  rows ← read_each (read_row run ctx) 1 lines
  ok (record { run = run; context = ctx; rows = rows; count = count })
