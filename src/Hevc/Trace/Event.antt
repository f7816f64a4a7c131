-- ===== src/Hevc/Trace/Event.antt =====
-- The trace events that experiments/hevc-controls/normalize.py reads, and its readers `integer`,
-- `flags`, `buffer_flags`, `timestamp`, `controls` and `payload`. A text of flags is the list of its
-- stripped tokens; a key that an object may lack is an option; a reason is its message.
use omarchy_m1_video.Prelude.{text_eq}
use Prim.Native.String.{◌++◌}
use omarchy_m1_video.Prelude.{
  ℕ, ◌+◌, ◌-◌, ◌*◌, ◌/◌, ◌%◌, ◌^◌, ◌==◌, ℤ, pos, negsuc, Bool, true, false, not, ◌&&◌, Option, none,
  some, List, [], ◌∷◌, String, ltb, leb, if◌then◌else◌, any, all, length,
}
use omarchy_m1_video.Exec.{Result, ok}
use omarchy_m1_video.Checked.{◌>>=◌, ◌>>◌, need, present}

abbrev pub key_error : String
key_error = "KeyError"

pub data Ioctl : Type 0 where
  request_alloc request_queue request_reinit s_ext_ctrls qbuf dqbuf : Ioctl
  streamoff streamon s_fmt reqbufs other_ioctl : Ioctl

pub data Errno : Type 0 where
  eagain other_errno : Errno

-- The `id` of a control; the numbers tell other controls apart.
pub data ControlId : Type 0 where
  sps_id decode_params_id slice_params_id : ControlId
  other_id : ℕ → ControlId

pub record SpsParams : Type 0 where
  pub flags : List String

pub record DpbParams : Type 0 where
  pub timestamp : ℕ
  pub pic_order_cnt_val : ℤ
  pub flags : List String
  pub field_pic : ℕ

pub record DecodeParams : Type 0 where
  pub flags : List String
  pub pic_order_cnt_val : ℤ
  pub num_active_dpb_entries : ℕ
  pub dpb : List DpbParams
  pub num_poc_st_curr_before : ℕ
  pub num_poc_st_curr_after : ℕ
  pub num_poc_lt_curr : ℕ
  pub poc_st_curr_before : List ℕ
  pub poc_st_curr_after : List ℕ
  pub poc_lt_curr : List ℕ

pub record SliceParams : Type 0 where
  pub flags : List String
  pub slice_type : ℕ
  pub nal_unit_type : ℕ
  pub num_ref_idx_l0_active_minus1 : ℕ
  pub num_ref_idx_l1_active_minus1 : ℕ
  pub ref_idx_l0 : List ℕ
  pub ref_idx_l1 : List ℕ
  pub collocated_ref_idx : ℕ

pub record Control : Type 0 where
  pub id : ControlId
  pub size : ℕ
  pub sps : Option SpsParams
  pub decode_params : Option DecodeParams
  pub slice_params : Option SliceParams

pub data Which : Type 0 where
  request_val cur_val other_which : Which

pub record ExtControls : Type 0 where
  pub which : Which
  pub count : ℕ
  pub controls : List Control
  pub request_fd : Option ℕ

pub data BufferType : Type 0 where
  output capture other_buffer : BufferType

pub record Buffer : Type 0 where
  pub buffer_type : BufferType
  pub index : ℕ
  pub flags : List String
  pub request_fd : Option ℕ
  pub timestamp_ns : ℕ
  pub tv_sec : ℕ
  pub tv_usec : ℕ
  pub length : ℕ
  pub planes : List ℕ

-- `opened` for a key `open` or `open64`, `closing` for a key `close`; `driver_fd` is the driver's
-- `request_fd`, and the buffers are the ones from user space and from the driver.
pub record Event : Type 0 where
  pub ioctl : Option Ioctl
  pub fd : Option ℕ
  pub errno : Option Errno
  pub opened : Bool
  pub closing : Bool
  pub driver_fd : Option ℕ
  pub ext_controls : Option ExtControls
  pub user_buffer : Option Buffer
  pub driver_buffer : Option Buffer

-- `integer(value, high=high)`
abbrev pub integer : ℕ → ℕ → Result String ℕ
integer value high = do need (leb value high) "invalid integer"; ok value

abbrev pub max_u32 : ℕ
max_u32 = 2 ^ 32 - 1

-- `integer(value, -(2**31), 2**31 - 1)`
abbrev pub poc_integer : ℤ → Result String ℤ
poc_integer (pos n) = do need (ltb n (2 ^ 31)) "invalid integer"; ok (pos n)
poc_integer (negsuc n) = do need (ltb n (2 ^ 31)) "invalid integer"; ok (negsuc n)

abbrev pub mem_text : String → List String → Bool
mem_text t ts = any (text_eq t) ts

unfoldable pub no_repeated_text : List String → Bool
no_repeated_text [] = true
no_repeated_text (t ∷ ts) = not (mem_text t ts) && no_repeated_text ts

abbrev pub is_allowed : String → List String → String → Bool
is_allowed prefix allowed token = any (λ name. text_eq token (prefix ++ name)) allowed

unfoldable pub present_names : String → List String → List String → List String
present_names prefix tokens [] = []
present_names prefix tokens (name ∷ names) =
    let rest = present_names prefix tokens names in
    if mem_text (prefix ++ name) tokens then name ∷ rest else rest

-- `flags(value, prefix, allowed)`: the allowed names that the tokens have.
unfoldable pub flags : List String → String → List String → Result String (List String)
unfolding no_repeated_text present_names
flags tokens prefix allowed = do
  need (no_repeated_text tokens) "duplicate flag"
  need (all (is_allowed prefix allowed) tokens) "unknown flag encoding"
  ok (present_names prefix tokens allowed)

-- `buffer_flags(value)`, on the tokens that its pattern accepts.
unfoldable pub buffer_flags : List String → Result String (List String)
buffer_flags tokens = do
  need (not (mem_text "V4L2_BUF_FLAG_ERROR" tokens)) "buffer error"
  need (not (mem_text "V4L2_BUF_FLAG_M2M_HOLD_CAPTURE_BUF" tokens))
      "partial/multi-request pictures are unsupported"
  ok tokens

unfoldable pub timestamp : Buffer → Result String ℕ
timestamp b = do
  integer b.timestamp_ns (2 ^ 64 - 1)
  integer b.tv_sec (2 ^ 63 - 1)
  integer b.tv_usec 999999
  need (b.timestamp_ns == b.tv_sec * 1000000000 + b.tv_usec * 1000) "inconsistent timestamp"
  need (b.timestamp_ns % 1000 == 0 && leb (b.timestamp_ns / 1000) max_u32)
      "not a GStreamer system-frame timestamp"
  ok b.timestamp_ns

abbrev pub id_eq : ControlId → ControlId → Bool
id_eq sps_id sps_id = true
id_eq decode_params_id decode_params_id = true
id_eq slice_params_id slice_params_id = true
id_eq (other_id a) (other_id b) = a == b
id_eq _ _ = false

abbrev pub has_control : ControlId → List Control → Bool
has_control i cs = any (λ c. id_eq i c.id) cs

unfoldable pub find_control : ControlId → List Control → Option Control
find_control i [] = none
find_control i (c ∷ cs) = let rest = find_control i cs in if id_eq i c.id then some c else rest

unfoldable pub no_repeated_control : List Control → Bool
no_repeated_control [] = true
no_repeated_control (c ∷ cs) = not (has_control c.id cs) && no_repeated_control cs

unfoldable pub controls : Event → Result String ExtControls
unfolding no_repeated_control
controls e = do
  ext ← present e.ext_controls key_error
  integer ext.count 64
  need (length ext.controls == ext.count) "incomplete controls array"
  need (no_repeated_control ext.controls) "duplicate control"
  ok ext

-- `payload(ctrls, name)` up to the check on the size
unfoldable pub sized_control : ControlId → ℕ → List Control → Result String Control
unfolding find_control
sized_control i size cs = do
  c ← present (find_control i cs) key_error
  integer c.size max_u32
  need (c.size == size) "unsupported control size (multi-slice traces lose all but first slice)"
  ok c

abbrev pub sps_payload : List Control → Result String SpsParams
sps_payload cs = do c ← sized_control sps_id 40 cs; present c.sps "missing control payload"

abbrev pub decode_payload : List Control → Result String DecodeParams
decode_payload cs = do
  c ← sized_control decode_params_id 328 cs
  present c.decode_params "missing control payload"

abbrev pub slice_payload : List Control → Result String SliceParams
slice_payload cs = do
  c ← sized_control slice_params_id 280 cs
  present c.slice_params "missing control payload"
