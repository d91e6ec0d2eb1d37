-- ===== src/WebSocket/Input.antt =====
-- Reading one frame: WebSocket.cpp from `read_message` to `socket_read`, with the methods that
-- ServerSideWebSocket.cpp and ClientSideWebSocket.cpp override.
use mathlib.Core.Option
use librcom.Base.{
  ℕ, zero, suc, ◌+◌, ◌-◌, Bool, not, ◌||◌, Option, none, some, [], ◌++◌, ltb, min, ◌==◌,
  if◌then◌else◌, get_elem?, Bytes,
}
use librcom.Env.{Env}
use librcom.Frame.{
  continuation, text, binary, close, ping, pong, opcode_value, decode_frame_header, apply_mask,
  maximum_payload_length, payload_buffer_length, close_protocol_error, close_too_big,
  close_internal_error,
}
use librcom.HostOrder.{le_value}
use librcom.WebSocket.State.{
  Side, server, client, recv_error, Outcome, ok, throws, WebSocket, M, pure, throw, diverge, ◌>>=◌,
  ◌>>◌, gets, modify,
}

abbrev pub byte_at : Bytes → ℕ → ℕ
byte_at bs i = Option.get_or (get_elem? bs i) 0

module _ {S : Type 0} (env : Env S) where
  -- How `socket_read` goes on from the answer of `ISocket::read`.
  abbrev pub socket_read_result : WebSocket S → Option Bytes × S → Outcome Bytes × WebSocket S
  socket_read_result w (some bytes, s) = (ok bytes, record w { socket = s })
  socket_read_result w (none, s) =
      (throws (recv_error close_internal_error), record w { socket = s })

  unfoldable pub socket_read : ℕ → M S Bytes
  socket_read n w = socket_read_result w (env.socket.read n w.socket)

  unfoldable pub input_read_frame_header : M S (Unit {0})
  input_read_frame_header = do
    b ← socket_read 2
    modify (λ w. record w { frame_header = decode_frame_header (byte_at b 0) (byte_at b 1) })

  unfoldable pub input_read_uint16 : M S ℕ
  input_read_uint16 = do netshort ← socket_read 2; pure (env.order.ntohs (le_value netshort))

  unfoldable pub input_read_uint64 : M S ℕ
  input_read_uint64 = do netlong ← socket_read 8; pure (env.order.be64toh (le_value netlong))

  set_input_message_length : ℕ → M S (Unit {0})
  set_input_message_length n = modify (λ w. record w { input_message_length = n })

  -- The chain of tests of `input_read_payload_length`, on the field `length` of the header.
  unfoldable pub payload_length_for : ℕ → M S (Unit {0})
  unfolding set_input_message_length
  payload_length_for n =
      if ltb n 126
      then set_input_message_length n
      else if n == 126
      then (input_read_uint16 >>= set_input_message_length)
      else if n == 127
      then (input_read_uint64 >>= set_input_message_length)
      else pure tt

  unfoldable pub input_read_payload_length : M S (Unit {0})
  input_read_payload_length = do n ← gets (λ w. w.frame_header.payload_len); payload_length_for n

  unfoldable pub input_read_payload_mask : M S (Unit {0})
  input_read_payload_mask = do mask ← socket_read 4; modify (λ w. record w { input_mask = mask })

  unfoldable pub input_read_header : Side → M S (Unit {0})
  input_read_header server = do
    input_read_frame_header
    input_read_payload_length
    input_read_payload_mask
  input_read_header client = do input_read_frame_header; input_read_payload_length

-- A client masks all its frames, a server none.
unfoldable pub input_assert_mask_flag : {S : Type 0} → Side → M S (Unit {0})
input_assert_mask_flag server w =
    if not w.frame_header.mask then throw (recv_error close_protocol_error) w else pure tt w
input_assert_mask_flag client w =
    if w.frame_header.mask then throw (recv_error close_protocol_error) w else pure tt w

unfoldable pub is_valid_opcode : ℕ → Bool
is_valid_opcode n =
    n == opcode_value continuation
    || n == opcode_value text
    || n == opcode_value binary
    || n == opcode_value close
    || n == opcode_value ping
    || n == opcode_value pong

unfoldable pub input_assert_opcode : {S : Type 0} → M S (Unit {0})
input_assert_opcode w =
    if not (is_valid_opcode w.frame_header.opcode)
    then throw (recv_error close_protocol_error) w
    else pure tt w

unfoldable pub input_assert_payload_length : {S : Type 0} → M S (Unit {0})
input_assert_payload_length w =
    if ltb maximum_payload_length w.input_message_length
    then throw (recv_error close_too_big) w
    else pure tt w

unfoldable pub input_assert_valid_message : {S : Type 0} → Side → M S (Unit {0})
input_assert_valid_message side = do
  input_assert_mask_flag side
  input_assert_opcode
  input_assert_payload_length

unfoldable pub input_append_payload : {S : Type 0} → Side → Bytes → M S (Unit {0})
input_append_payload server received = modify λ w. record w {
  input_payload_buffer = w.input_payload_buffer ++ apply_mask w.input_mask received;
}
input_append_payload client received =
    modify λ w. record w { input_payload_buffer = w.input_payload_buffer ++ received }

module _ {S : Type 0} (env : Env S) (side : Side) where
  -- The loop of `input_read_payload`. A round reads one byte or more, so that as many rounds as
  -- bytes are enough.
  unfoldable pub input_read_payload_loop : ℕ → ℕ → ℕ → M S (Unit {0})
  input_read_payload_loop zero processed total = if ltb processed total then diverge else pure tt
  input_read_payload_loop (suc fuel) processed total =
      let n = min (total - processed) payload_buffer_length in
      let round : M S (Unit {0}) = (do
        buffer ← socket_read env n
        input_append_payload side buffer
        input_read_payload_loop fuel (processed + n) total) in
      if ltb processed total then round else pure tt

  unfoldable pub input_read_payload : M S (Unit {0})
  input_read_payload = do
    modify (λ w. record w { input_payload_buffer = [] })
    n ← gets (λ w. w.input_message_length)
    input_read_payload_loop n 0 n

  unfoldable pub read_message : M S (Unit {0})
  read_message = do input_read_header env side; input_assert_valid_message side; input_read_payload
