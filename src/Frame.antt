-- ===== src/Frame.antt =====
-- Websocket frames as bytes: librcom/include/rcom/WebSocketConstants.h, Frames.h, the FrameHeader
-- and limits of WebSocket.h, and the parts of WebSocket.cpp, ServerSideWebSocket.cpp and
-- ClientSideWebSocket.cpp that write or read a header with no access to the socket.
pub mod Mask
pub mod Header
use librcom.Base.{
  ℕ, zero, suc, ◌+◌, ◌-◌, ◌*◌, ◌/◌, ◌%◌, ◌^◌, Bool, true, false, not, List, [], ◌∷◌, ◌++◌, bit_and,
  bit_or, bit_xor, ltb, leb, ◌==◌, if◌then◌else◌, length, get_elem?, Bytes, Option, none, some,
}
use mathlib.Core.Option
use librcom.HostOrder.{HostOrder}

-- `enum Opcode`, the opcodes that the program sends.
pub data Opcode : Type 0 where
  continuation text binary close ping pong : Opcode

abbrev pub opcode_value : Opcode → ℕ
opcode_value continuation = 0
opcode_value text = 1
opcode_value binary = 2
opcode_value close = 8
opcode_value ping = 9
opcode_value pong = 10

-- The members of `enum CloseCode` that the program uses. A code is a number here, as the other end
-- may send any.
abbrev pub close_normal : ℕ
close_normal = 1000

abbrev pub close_going_away : ℕ
close_going_away = 1001

abbrev pub close_protocol_error : ℕ
close_protocol_error = 1002

abbrev pub close_missing_code : ℕ
close_missing_code = 1005

abbrev pub close_too_big : ℕ
close_too_big = 1009

abbrev pub close_internal_error : ℕ
close_internal_error = 1011

abbrev pub maximum_payload_length : ℕ
maximum_payload_length = 128 * 1024 * 1024

abbrev pub maximum_message_length : ℕ
maximum_message_length = 128 * 1024 * 1024

abbrev pub short_message_length : ℕ
short_message_length = 128 * 1024

abbrev pub payload_buffer_length : ℕ
payload_buffer_length = 1024

-- `Frames::data_length_126` and `Frames::data_length_65536`.
abbrev pub data_length_126 : ℕ
data_length_126 = 126

abbrev pub data_length_65536 : ℕ
data_length_65536 = 65536

-- `struct FrameHeader`; `payload_len` is its field `length`.
pub record FrameHeader : Type 0 where
  pub fin : Bool
  pub opcode : ℕ
  pub mask : Bool
  pub payload_len : ℕ

-- The two bytes of `input_read_frame_header`.
unfoldable pub decode_frame_header : ℕ → ℕ → FrameHeader
decode_frame_header b0 b1 = record {
  fin = not (bit_and b0 0x80 == 0);
  opcode = bit_and b0 0x0f;
  mask = not (bit_and b1 0x80 == 0);
  payload_len = bit_and b1 0x7f;
}

-- `mask[j]`, of the array of four.
abbrev pub mask_byte : Bytes → ℕ → ℕ
mask_byte mask j = Option.get_or (get_elem? mask j) 0

-- The loop of `WebSocket::apply_mask`, at `j`.
unfoldable pub mask_from : ℕ → Bytes → Bytes → Bytes
mask_from j mask [] = []
mask_from j mask (b ∷ input) =
    bit_xor b (mask_byte mask j) ∷ mask_from (if j + 1 == 4 then 0 else j + 1) mask input

unfoldable pub apply_mask : Bytes → Bytes → Bytes
unfolding mask_from
apply_mask mask input = mask_from 0 mask input

-- The bytes that both `output_append_header` write for a 16-bit length in network order.
unfoldable pub uint16_bytes : ℕ → Bytes
uint16_bytes netshort = bit_and netshort 0x00ff ∷ bit_and netshort 0xff00 / 2 ^ 8 ∷ []

-- The same for a 64-bit length.
unfoldable pub uint64_bytes : ℕ → Bytes
uint64_bytes netlong =
    bit_and netlong 0x00000000000000ff
    ∷ bit_and netlong 0x000000000000ff00 / 2 ^ 8
    ∷ bit_and netlong 0x0000000000ff0000 / 2 ^ 16
    ∷ bit_and netlong 0x00000000ff000000 / 2 ^ 24
    ∷ bit_and netlong 0x000000ff00000000 / 2 ^ 32
    ∷ bit_and netlong 0x0000ff0000000000 / 2 ^ 40
    ∷ bit_and netlong 0x00ff000000000000 / 2 ^ 48
    ∷ bit_and netlong 0xff00000000000000 / 2 ^ 56
    ∷ []

-- `ServerSideWebSocket::output_append_header`: what it appends for a message of `len` bytes.
unfoldable pub server_header : HostOrder → Opcode → ℕ → Bytes
server_header h opcode len =
    bit_or 0x80 (opcode_value opcode)
    ∷ (if ltb len data_length_126
        then bit_and len 0x7f ∷ []
        else if leb len data_length_65536
        then 126 ∷ uint16_bytes (h.htons (len % 2 ^ 16))
        else 127 ∷ uint64_bytes (h.htobe64 len))

-- `ClientSideWebSocket::output_append_header`, with the four bytes of the mask that it makes.
unfoldable pub client_header : HostOrder → Opcode → Bytes → ℕ → Bytes
client_header h opcode mask len =
    bit_or 0x80 (opcode_value opcode)
    ∷ ((if ltb len data_length_126
          then bit_or 0x80 (bit_and len 0x7f) ∷ []
          else if leb len data_length_65536
          then 254 ∷ uint16_bytes (h.htons (len % 2 ^ 16))
          else 255 ∷ uint64_bytes (h.htobe64 len))
        ++ (mask_byte mask 0 ∷ mask_byte mask 1 ∷ mask_byte mask 2 ∷ mask_byte mask 3 ∷ []))
