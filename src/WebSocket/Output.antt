-- ===== src/WebSocket/Output.antt =====
-- Writing: the methods of WebSocket.cpp from `send` on, those that the derived classes override,
-- and `close_connection`, by which a failed write ends.
use librcom.Base.{
  ℕ, zero, suc, Bool, true, false, not, [], ◌++◌, ltb, leb, if◌then◌else◌, length, take, drop,
  Bytes,
}
use librcom.Env.{Env, min_double, one_tenth, one_half, rcom_time, rcom_sleep}
use librcom.Frame.{
  Opcode, text, binary, server_header, client_header, apply_mask, payload_buffer_length,
  maximum_message_length, short_message_length,
}
use librcom.WebSocket.State.{
  Side, server, client, runtime_error, M, pure, throw, diverge, ◌>>=◌, ◌>>◌, gets, modify, outside,
}

-- `enum MessageType`
pub data MessageType : Type 0 where
  text_message binary_message : MessageType

abbrev pub message_opcode : MessageType → Opcode
message_opcode text_message = text
message_opcode binary_message = binary

-- The loop of `ClientSideWebSocket::output_append_payload`, by blocks of 1024 bytes.
unfoldable pub mask_blocks : ℕ → Bytes → Bytes → Bytes
mask_blocks zero mask input = []
mask_blocks (suc fuel) mask input =
    let rest = mask_blocks fuel mask (drop 1024 input) in
    if ltb 0 (length input) then apply_mask mask (take 1024 input) ++ rest else []

module _ {S : Type 0} (env : Env S) where
  unfoldable pub socket_close : M S (Unit {0})
  socket_close w = pure tt (record w { socket = env.socket.close w.socket })

  unfoldable pub sleep : ℕ → M S (Unit {0})
  sleep duration = do
    done ← outside (rcom_sleep env duration)
    (if done then pure tt else throw runtime_error)

  -- The loop of `ClientSideWebSocket::close_connection`, with the number of rounds at most.
  unfoldable pub wait_endpoint_closed : ℕ → ℕ → M S (Unit {0})
  unfolding sleep
  wait_endpoint_closed zero start_time = diverge
  wait_endpoint_closed (suc fuel) start_time = do
    connected ← outside env.socket.is_endpoint_connected
    (if not connected then pure tt else (do
      now ← outside (rcom_time env)
      let time_passed : ℕ = env.double.minus now start_time
      (if env.double.at_most one_half time_passed
          then (do _ ← outside env.socket.is_endpoint_connected; pure tt)
          else (do
            sleep (min_double env.double one_tenth (env.double.minus one_half time_passed))
            wait_endpoint_closed fuel start_time))))

  unfoldable pub close_connection : Side → M S (Unit {0})
  unfolding socket_close
  close_connection server = socket_close
  close_connection client = do
    start_time ← outside (rcom_time env)
    wait_endpoint_closed env.rounds start_time
    socket_close

  -- `socket_send`, both versions. A failed write closes the connection.
  unfoldable pub socket_send : Side → Bytes → M S Bool
  socket_send side buffer = do
    success ← outside (env.socket.send buffer)
    (if success then pure true else (do close_connection side; pure false))

  -- `make_mask`
  make_mask : M S (Unit {0})
  make_mask = do
    mask ← outside (env.linux.getrandom 4)
    modify (λ w. record w { output_mask = mask })

  -- What `output_append_header` appends to the output for a message of `n` bytes.
  unfoldable pub output_append_header : Side → Opcode → ℕ → M S Bytes
  unfolding make_mask
  output_append_header server opcode n = pure (server_header env.order opcode n)
  output_append_header client opcode n = do
    make_mask
    gets (λ w. client_header env.order opcode w.output_mask n)

  -- What `output_append_payload` appends.
  unfoldable pub output_append_payload : Side → Bytes → M S Bytes
  output_append_payload server payload = pure payload
  output_append_payload client payload =
      gets (λ w. mask_blocks (length payload) w.output_mask payload)

  -- `make_message`, into the buffer that it is given.
  unfoldable pub make_message : Side → Opcode → Bytes → M S Bytes
  make_message side opcode payload = do
    header ← output_append_header side opcode (length payload)
    body ← output_append_payload side payload
    pure (header ++ body)

  set_output : Bytes → M S (Unit {0})
  set_output bytes = modify (λ w. record w { output_message_buffer = bytes })

  send_output_buffer : Side → M S Bool
  send_output_buffer side = do bytes ← gets (λ w. w.output_message_buffer); socket_send side bytes

  turn_buffering_off : M S (Unit {0})
  turn_buffering_off w = pure tt (record w { socket = env.socket.turn_buffering_off w.socket })

  turn_buffering_on : M S (Unit {0})
  turn_buffering_on w = pure tt (record w { socket = env.socket.turn_buffering_on w.socket })

  unfoldable pub send_short_data_message : Side → Bytes → MessageType → M S Bool
  unfolding set_output send_output_buffer turn_buffering_off
  send_short_data_message side message type = do
    bytes ← make_message side (message_opcode type) message
    set_output bytes
    turn_buffering_off
    send_output_buffer side

  unfoldable pub send_long_message_header : Side → Opcode → Bytes → M S Bool
  unfolding set_output send_output_buffer
  send_long_message_header side opcode message = do
    bytes ← output_append_header side opcode (length message)
    set_output bytes
    send_output_buffer side

  unfoldable pub output_send_payload : Side → Bytes → M S Bool
  output_send_payload server block = socket_send server block
  output_send_payload client block = do
    mask ← gets (λ w. w.output_mask)
    socket_send client (apply_mask mask block)

  -- The loop of `send_long_message_payload` on the bytes still to be sent, with the number of
  -- rounds at most.
  unfoldable pub send_payload_blocks : Side → ℕ → Bytes → M S Bool
  send_payload_blocks side zero unsent = if ltb 0 (length unsent) then diverge else pure true
  send_payload_blocks side (suc fuel) unsent =
      let round : M S Bool = (do
        success ← output_send_payload side (take payload_buffer_length unsent)
        (if success
            then send_payload_blocks side fuel (drop payload_buffer_length unsent)
            else pure false)) in
      if ltb 0 (length unsent) then round else pure true

  unfoldable pub send_long_message_payload : Side → Bytes → M S Bool
  send_long_message_payload side message = send_payload_blocks side (length message) message

  unfoldable pub send_long_data_message : Side → Bytes → MessageType → M S Bool
  unfolding turn_buffering_on
  send_long_data_message side message type = do
    turn_buffering_on
    success ← send_long_message_header side (message_opcode type) message
    (if success then send_long_message_payload side message else pure false)

  -- `WebSocket::send`
  unfoldable pub send : Side → Bytes → MessageType → M S Bool
  send side message type =
      if leb maximum_message_length (length message)
      then pure false
      else if ltb (length message) short_message_length
      then send_short_data_message side message type
      else send_long_data_message side message type
