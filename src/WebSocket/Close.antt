-- ===== src/WebSocket/Close.antt =====
-- The closing handshake: WebSocket.cpp from `answer_close_handshake` to `closing_wait_reply`, with
-- `close` and `compute_remaning_time`.
use librcom.Base.{
  ℕ, zero, suc, ◌*◌, ◌%◌, ◌^◌, Bool, false, Option, none, some, bit_or, ◌==◌, if◌then◌else◌, length,
  Bytes,
}
use librcom.Env.{
  Env, wait_ok, wait_timeout, wait_error, Double, zero_double, one_hundredth, five, rcom_time,
}
use librcom.Frame.{close, opcode_value, close_missing_code, uint16_bytes}
use librcom.WebSocket.Input.{byte_at, read_message}
use librcom.WebSocket.Output.{socket_send, make_message, close_connection}
use librcom.WebSocket.State.{
  Side, Outcome, ok, throws, out_of_fuel, WebSocket, M, pure, diverge, ◌>>=◌, ◌>>◌, gets, modify,
  outside,
}

-- The test `>= 0.0` of the loops that `compute_remaning_time` serves.
abbrev pub if_not_negative : Double → ℕ → Option ℕ
if_not_negative double remaining =
    if double.at_most zero_double remaining then some remaining else none

-- `compute_remaning_time`, with that test of its result.
unfoldable pub compute_remaning_time : Double → ℕ → ℕ → ℕ → Option ℕ
compute_remaning_time double start_time timeout now =
    if_not_negative double (double.minus timeout (double.minus now start_time))

-- `convert_to_uint16`
unfoldable pub convert_to_uint16 : Bytes → ℕ
convert_to_uint16 buffer =
    if length buffer == 2 then bit_or (byte_at buffer 0 * 2 ^ 8) (byte_at buffer 1) else 0

-- `get_close_code`
unfoldable pub get_close_code : {S : Type 0} → M S (Unit {0})
get_close_code = modify λ w. record w {
  remote_close_reason =
      if length w.input_payload_buffer == 2
      then convert_to_uint16 w.input_payload_buffer
      else close_missing_code;
}

-- What a method is worth under `catch (...)`.
abbrev pub catch_all : {S A : Type 0} → Outcome A × WebSocket S → M S A → Outcome A × WebSocket S
catch_all (ok a, w) handler = (ok a, w)
catch_all (throws e, w) handler = handler w
catch_all (out_of_fuel, w) handler = (out_of_fuel, w)

module _ {S : Type 0} (env : Env S) (side : Side) where
  unfoldable pub send_close_message : ℕ → M S Bool
  send_close_message code = do
    message ← make_message env side close (uint16_bytes (env.order.htons (code % 2 ^ 16)))
    socket_send env side message

  unfoldable pub closing_send_reply : M S (Unit {0})
  closing_send_reply = do
    code ← gets (λ w. w.remote_close_reason)
    _ ← send_close_message code
    close_connection env side

  unfoldable pub answer_close_handshake : M S (Unit {0})
  answer_close_handshake = do get_close_code; closing_send_reply

  -- A round of the loop of `closing_wait_reply`: whether the close frame has arrived.
  unfoldable pub closing_wait_round : M S Bool
  closing_wait_round = do
    status ← outside (env.socket.wait one_hundredth)
    (elim status [
      | wait_ok ↦ (do
        read_message env side
        gets (λ w. w.frame_header.opcode == opcode_value close))
      | wait_timeout ↦ pure false
      | wait_error ↦ pure false
    ])

  -- That loop, with the number of rounds at most.
  unfoldable pub closing_wait_loop : ℕ → ℕ → ℕ → Option ℕ → M S (Unit {0})
  closing_wait_loop fuel start_time timeout none = pure tt
  closing_wait_loop zero start_time timeout (some remaining) = diverge
  closing_wait_loop (suc fuel) start_time timeout (some remaining) = do
    done ← closing_wait_round
    (if done then pure tt else (do
      now ← outside (rcom_time env)
      closing_wait_loop fuel start_time timeout
          (compute_remaning_time env.double start_time timeout now)))

  -- `closing_wait_reply`
  unfoldable pub closing_wait_reply : ℕ → ℕ → M S (Unit {0})
  closing_wait_reply fuel timeout = do
    start_time ← outside (rcom_time env)
    closing_wait_loop fuel start_time timeout (if_not_negative env.double timeout)

  unfoldable pub try_close_with_handshake : ℕ → ℕ → M S (Unit {0})
  try_close_with_handshake fuel code = do
    sent ← send_close_message code
    (if sent then closing_wait_reply fuel five else pure tt)
    close_connection env side

  -- `close_with_handshake`. The handler is `close_without_handshake`.
  unfoldable pub close_with_handshake : ℕ → ℕ → M S (Unit {0})
  close_with_handshake fuel code w =
      catch_all (try_close_with_handshake fuel code w) (close_connection env side)
