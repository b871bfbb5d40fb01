-- ===== src/Frame.antt =====
-- src/frame.h and src/frame.c: the frame types, the header and its 14 bytes on the wire.
pub mod Codec
use reactos_luagent.Base.{
  ℕ, ◌+◌, ◌*◌, ◌/◌, ◌%◌, ◌^◌, ◌<◌, ◌≤◌, Bool, true, false, not, ◌||◌, ◌==◌, ltb, if◌then◌else◌, [],
  ◌∷◌, ◌++◌, Bytes, codes, bytes_eq, length, get_or, take, drop, Option, none, some, ◌≢◌,
}

-- `enum frame_type`
pub data FrameType : Type 0 where
  hello ack error op op_result : FrameType
  put_begin put_chunk put_end : FrameType
  get_begin get_chunk get_end : FrameType
  proc_spawn stdin stdout stderr exit kill : FrameType
  ping pong : FrameType

-- The enumerators' values.
unfoldable pub type_code : FrameType → ℕ
type_code hello = 1
type_code ack = 2
type_code error = 3
type_code op = 10
type_code op_result = 11
type_code put_begin = 20
type_code put_chunk = 21
type_code put_end = 22
type_code get_begin = 30
type_code get_chunk = 31
type_code get_end = 32
type_code proc_spawn = 40
type_code stdin = 41
type_code stdout = 42
type_code stderr = 43
type_code exit = 44
type_code kill = 45
type_code ping = 50
type_code pong = 51

pub record FrameHeader : Type 0 where
  pub type : ℕ
  pub flags : ℕ
  pub req_id : ℕ
  pub length : ℕ

-- LUAGENT_MAX_FRAME_PAYLOAD, LUAGENT_MAGIC, LUAGENT_MAGIC_SIZE
abbrev pub max_frame_payload : ℕ
max_frame_payload = 65536

abbrev pub magic : Bytes
magic = codes "RXSH"

abbrev pub magic_size : ℕ
magic_size = 4

abbrev pub frame_header_size : ℕ
frame_header_size = 14

-- The four shifted bytes have no bit in common, so `|` is their sum. A byte past the end of the
-- list is never read: `frame_decode_header` tests the size first.
unfoldable pub read_u32le : Bytes → ℕ
read_u32le src =
    get_or src 0 0 + get_or src 1 0 * 2 ^ 8 + get_or src 2 0 * 2 ^ 16 + get_or src 3 0 * 2 ^ 24

unfoldable pub write_u32le : ℕ → Bytes
write_u32le value =
    (value % 256) ∷ (value / 2 ^ 8 % 256) ∷ (value / 2 ^ 16 % 256) ∷ (value / 2 ^ 24 % 256) ∷ []

-- `true` for 0, `false` for -1.
unfoldable pub frame_validate_header : FrameHeader → Bool
frame_validate_header h =
    if ltb max_frame_payload h.length then false else if h.type == 0 then false else true

-- The bytes that are written to `dst`, or `none` for -1.
unfoldable pub frame_encode_header : ℕ → FrameHeader → Option Bytes
unfolding frame_validate_header write_u32le
frame_encode_header dst_size h =
    if ltb dst_size frame_header_size
    then none
    else if not (frame_validate_header h)
    then none
    else some (magic ++ h.type ∷ h.flags ∷ (write_u32le h.req_id ++ write_u32le h.length))

-- `enum frame_status`, with the header that FRAME_STATUS_OK fills in.
pub data FrameStatus : Type 0 where
  need_more : FrameStatus
  malformed : FrameStatus
  ok : FrameHeader → FrameStatus

-- The fields as they are read from the bytes.
unfoldable pub header_at : Bytes → FrameHeader
unfolding read_u32le
header_at src = record {
  type = get_or src 4 0;
  flags = get_or src 5 0;
  req_id = read_u32le (drop 6 src);
  length = read_u32le (drop 10 src);
}

-- `src` is the `src_size` bytes that may be read.
unfoldable pub frame_decode_header : Bytes → FrameStatus
unfolding frame_validate_header header_at
frame_decode_header src =
    if ltb (length src) frame_header_size
    then need_more
    else if not (bytes_eq (take magic_size src) magic)
    then malformed
    else if not (frame_validate_header (header_at src))
    then malformed
    else ok (header_at src)

-- The values of the C types: `uint8_t`, `uint8_t`, `uint32_t`, `uint32_t`.
pub record IsTyped (h : FrameHeader) : Type 0 where
  pub type_u8 : h.type < 256
  pub flags_u8 : h.flags < 256
  pub req_id_u32 : h.req_id < 2 ^ 32
  pub length_u32 : h.length < 2 ^ 32

-- What `frame_validate_header` lets pass.
pub record IsValid (h : FrameHeader) : Type 0 where
  pub length_bound : h.length ≤ max_frame_payload
  pub type_nonzero : h.type ≢ 0
