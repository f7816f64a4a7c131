-- ===== src/Capture/Rows.antt =====
-- The records of a snapshot, as `read_capture` of experiments/hevc-avd-trace/check.py gives them, and
-- its `motion_word`. A record has the fields of its kind; the sixteen `l0_i`, the sixteen `l1_i` and
-- the four `off_i` and `emitted_comp_i` are lists.
use Prim.Native.Nat.{bit_or, bit_and}
use omarchy_m1_video.Prelude.{
  ℕ, ◌-◌, ◌*◌, ◌^◌, ◌==◌, ◌!=◌, ℤ, Bool, not, ◌&&◌, List, [], ◌∷◌, String, if◌then◌else◌, leb, ltb,
}
use omarchy_m1_video.Exec.{Result, ok}
use omarchy_m1_video.Checked.{◌>>◌, need}
use omarchy_m1_video.Hevc.Map.Motion.{bit}

-- `BUFFER`
pub record Held : Type 0 where
  pub buffer : ℕ
  pub timestamp : ℕ
  pub copied : ℕ
  pub intra : ℕ
  pub writer : ℕ
  pub completed : ℕ
  pub allocation : ℕ
  pub length : ℕ
  pub comp_start : ℕ
  pub comp_size : ℕ
  pub offsets : List ℕ
  pub mv_size : ℕ
  pub mv_offset : ℕ
  pub bounds : ℕ
  pub memory : ℕ

-- `START`
pub record Start : Type 0 where
  pub picture : ℕ
  pub previous_writer : ℕ
  pub poc : ℤ
  pub slice_poc : ℤ
  pub slice_type : ℕ
  pub slices : ℕ
  pub entry_capacity : ℕ
  pub dpb_count : ℕ
  pub width : ℕ
  pub height : ℕ
  pub held : Held
  pub slice_entries : ℕ

pub record Done : Type 0 where
  pub picture : ℕ
  pub result : ℕ
  pub held : Held

-- `TABLE`
pub record Table : Type 0 where
  pub picture : ℕ
  pub slot : ℕ
  pub poc : ℤ
  pub flags : ℕ
  pub requested_timestamp : ℕ
  pub word : ℕ
  pub matched : ℕ
  pub held : Held
  pub emitted_comp : List ℕ

pub record Listed : Type 0 where
  pub picture : ℕ
  pub list : ℕ
  pub position : ℕ
  pub slot : ℕ
  pub word : ℕ

-- `MOTION`
pub record Motion : Type 0 where
  pub picture : ℕ
  pub flags : ℕ
  pub slice_type : ℕ
  pub merge : ℕ
  pub l0_minus1 : ℕ
  pub l1_minus1 : ℕ
  pub col_index : ℕ
  pub first : ℕ
  pub slot : ℕ
  pub requested_timestamp : ℕ
  pub lookup : ℕ
  pub matched : ℕ
  pub valid : ℕ
  pub word : ℕ
  pub emitted : ℕ
  pub held : Held
  pub l0 : List ℕ
  pub l1 : List ℕ
  pub emitted_mv : ℕ
  pub quirks : ℕ

-- The kinds 1 to 5.
pub data Row : Type 0 where
  started : Start → Row
  completed_row : Done → Row
  table_row : Table → Row
  list_row : Listed → Row
  motion_row : Motion → Row

abbrev pub kind_of : Row → ℕ
kind_of (started s) = 1
kind_of (completed_row d) = 2
kind_of (table_row t) = 3
kind_of (list_row l) = 4
kind_of (motion_row m) = 5

abbrev pub picture_of : Row → ℕ
picture_of (started s) = s.picture
picture_of (completed_row d) = d.picture
picture_of (table_row t) = t.picture
picture_of (list_row l) = l.picture
picture_of (motion_row m) = m.picture

-- A bit of `flags`
abbrev pub has_flag : ℕ → ℕ → Bool
has_flag f mask = bit_and f mask != 0

abbrev pub tmvp : ℕ
tmvp = 4

abbrev pub mvd_zero : ℕ
mvd_zero = 8

abbrev pub cabac : ℕ
cabac = 16

abbrev pub col_l0 : ℕ
col_l0 = 32

abbrev pub dependent : ℕ
dependent = 512

abbrev pub or_all : List ℕ → ℕ
or_all [] = 0
or_all (n ∷ ns) = bit_or n (or_all ns)

-- `motion_word(m)`
unfoldable pub motion_word : Motion → Result String ℕ
motion_word m = if m.slice_type == 2 then ok 0x2d020000 else (do
  need (leb m.merge 4 && ltb m.l0_minus1 16 && ltb m.l1_minus1 16)
      "motion controls outside experiment domain"
  ok (
      or_all (
        0x2d000000
        ∷ (5 - m.merge) * 2 ^ 1
        ∷ bit (has_flag m.flags tmvp && not (has_flag m.flags col_l0)) * 2 ^ 4
        ∷ bit (has_flag m.flags cabac) * 2 ^ 5
        ∷ bit (not (has_flag m.flags mvd_zero)) * 2 ^ 6
        ∷ m.l0_minus1 * 2 ^ 11
        ∷ m.l1_minus1 * 2 ^ 7
        ∷ bit (has_flag m.flags (bit_or tmvp dependent)) * 2 ^ 15
        ∷ bit (m.slice_type == 1) * 2 ^ 16
        ∷ m.valid * 2 ^ 18
        ∷ [])))
