-- ===== src/WebSocket/Recv.antt =====
-- Receiving a message: WebSocket.cpp `recv` and what it calls, up to the reading of frames.
use librcom.Base.{
  ℕ, zero, suc, ◌+◌, Bool, true, false, not, ◌&&◌, ◌||◌, Option, none, some, [], ◌++◌, ltb, ◌==◌,
  if◌then◌else◌, length,
}
use librcom.Env.{Env, wait_ok, wait_timeout, wait_error, rcom_time}
use librcom.Frame.{
  continuation, text, binary, close, ping, pong, opcode_value, close_protocol_error, close_too_big,
  close_internal_error, maximum_message_length,
}
use librcom.WebSocket.Close.{
  if_not_negative, compute_remaning_time, answer_close_handshake, close_with_handshake,
}
use librcom.WebSocket.Input.{read_message}
use librcom.WebSocket.Output.{make_message, socket_send}
use librcom.WebSocket.State.{
  Side, recv_error, runtime_error, Outcome, ok, throws, out_of_fuel, WebSocket, M, pure, throw,
  diverge, next, ◌>>=◌, ◌>>◌, gets, modify, outside,
}

-- `enum RecvStatus`
pub data RecvStatus : Type 0 where
  recv_failed recv_closed recv_timeout recv_text recv_binary : RecvStatus

unfoldable pub is_control_opcode : ℕ → Bool
is_control_opcode n = n == opcode_value close || n == opcode_value ping || n == opcode_value pong

unfoldable pub is_data_opcode : ℕ → Bool
is_data_opcode n =
    n == opcode_value text || n == opcode_value binary || n == opcode_value continuation

-- `is_data_message_complete`
unfoldable pub is_data_message_complete : ℕ → Bool → Bool
is_data_message_complete n fin =
    n == opcode_value text && fin
    || n == opcode_value binary && fin
    || n == opcode_value continuation && fin

module _ {S : Type 0} where
  -- `has_complete_data_message`
  unfoldable pub has_complete_data_message : WebSocket S → Bool
  has_complete_data_message w =
      is_data_opcode w.frame_header.opcode
      && is_data_message_complete w.frame_header.opcode w.frame_header.fin

  unfoldable pub get_message_type : WebSocket S → RecvStatus
  get_message_type w = if w.is_text then recv_text else recv_binary

  unfoldable pub assert_continuation : M S (Unit {0})
  assert_continuation w =
      let continues = w.frame_header.opcode == opcode_value continuation in
      if not (continues && w.is_continuation || not continues && not w.is_continuation)
      then throw (recv_error close_protocol_error) w
      else pure tt w

  unfoldable pub assert_message_length : M S (Unit {0})
  assert_message_length w =
      let n = length w.input_payload_buffer in
      let total =
        if w.frame_header.opcode == opcode_value continuation then n + length w.message else n in
      if ltb maximum_message_length total then throw (recv_error close_too_big) w else pure tt w

  unfoldable pub set_payload_type : M S (Unit {0})
  set_payload_type = modify λ w. record w {
    is_text =
        if w.frame_header.opcode == opcode_value text
        then true
        else if w.frame_header.opcode == opcode_value binary
        then false
        else w.is_text;
  }

  unfoldable pub copy_payload : M S (Unit {0})
  copy_payload = modify λ w. record w {
    message =
        (if w.frame_header.opcode == opcode_value text
            || w.frame_header.opcode == opcode_value binary
          then []
          else w.message)
        ++ w.input_payload_buffer;
  }

  unfoldable pub prepare_continuation : M S (Unit {0})
  prepare_continuation = modify λ w. record w { is_continuation = not w.frame_header.fin }

  unfoldable pub handle_data_payload : M S (Unit {0})
  handle_data_payload = do
    assert_continuation
    assert_message_length
    set_payload_type
    copy_payload
    prepare_continuation

module _ {S : Type 0} (env : Env S) (side : Side) where
  -- The result of the write is not looked at.
  unfoldable pub send_pong : M S (Unit {0})
  send_pong = do
    payload ← gets (λ w. w.input_payload_buffer)
    message ← make_message env side pong payload
    _ ← socket_send env side message
    pure tt

  -- The branch for a pong does nothing but log.
  unfoldable pub handle_control_message : ℕ → M S (Unit {0})
  handle_control_message opcode =
      if opcode == opcode_value close
      then answer_close_handshake env side
      else if opcode == opcode_value ping
      then send_pong
      else pure tt

  unfoldable pub process_message : M S (Unit {0})
  process_message = do
    opcode ← gets (λ w. w.frame_header.opcode)
    (if is_control_opcode opcode
        then handle_control_message opcode
        else if is_data_opcode opcode
        then handle_data_payload
        else throw (recv_error close_protocol_error))

  unfoldable pub handle_one_message : M S (Unit {0})
  handle_one_message = do read_message env side; process_message

  unfoldable pub wait_for_data : ℕ → M S Bool
  wait_for_data timeout = do
    status ← outside (env.socket.wait timeout)
    (elim status [
      | wait_ok ↦ pure true
      | wait_timeout ↦ pure false
      | wait_error ↦ throw (recv_error close_internal_error)
    ])

  unfoldable pub wait_and_handle_one_message : ℕ → M S Bool
  wait_and_handle_one_message timeout = do
    received_data ← wait_for_data timeout
    (if received_data then (do handle_one_message; pure true) else pure false)

  -- How the body of the loop of `try_recv` ends: with a status, or `none` where the loop goes on.
  unfoldable pub received_status : Bool → WebSocket S → Option RecvStatus
  received_status received_data w =
      if received_data
      then if has_complete_data_message w
        then some (get_message_type w)
        else if not (env.socket.is_connected w.socket)
        then some recv_closed
        else none
      else none

  -- That loop, with the number of rounds at most.
  unfoldable pub try_recv_loop : ℕ → ℕ → ℕ → Option ℕ → M S RecvStatus
  try_recv_loop fuel start_time timeout none = pure recv_timeout
  try_recv_loop zero start_time timeout (some remaining) = diverge
  try_recv_loop (suc fuel) start_time timeout (some remaining) = do
    received_data ← wait_and_handle_one_message remaining
    status ← gets (received_status received_data)
    (elim status [
      | some st ↦ pure st
      | none ↦ (do
        now ← outside (rcom_time env)
        try_recv_loop fuel start_time timeout
            (compute_remaning_time env.double start_time timeout now))
    ])

  unfoldable pub try_recv : ℕ → ℕ → M S RecvStatus
  try_recv fuel timeout = do
    start_time ← outside (rcom_time env)
    try_recv_loop fuel start_time timeout (if_not_negative env.double timeout)

  -- The `catch` of `recv`.
  abbrev pub recv_caught : ℕ → Outcome RecvStatus × WebSocket S → Outcome RecvStatus × WebSocket S
  recv_caught fuel (ok status, w) = (ok status, w)
  recv_caught fuel (throws (recv_error code), w) =
      next (close_with_handshake env side fuel code w) (λ _. pure recv_failed)
  recv_caught fuel (throws runtime_error, w) = (throws runtime_error, w)
  recv_caught fuel (out_of_fuel, w) = (out_of_fuel, w)

  -- `recv`, with the number of rounds at most of each loop that watches the clock.
  unfoldable pub recv : ℕ → ℕ → M S RecvStatus
  recv fuel timeout w = recv_caught fuel (try_recv fuel timeout (record w { message = [] }))
