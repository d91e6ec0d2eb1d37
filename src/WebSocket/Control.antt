-- ===== src/WebSocket/Control.antt =====
-- WebSocket.cpp `process_message` on a ping, and on the data frames that it refuses.
use librcom.Base.{ℕ, ◌≡◌, refl, ap, ◌∙◌, arith, true, false, not, Bool-cases, inl, inr, ◌++◌, ◌==◌}
use librcom.Env.{Env, IsSink}
use librcom.Frame.{ping, pong, continuation, opcode_value, close_protocol_error}
use librcom.WebSocket.Output.{make_message, socket_send}
use librcom.WebSocket.Recv.{
  is_control_opcode, is_data_opcode, process_message, handle_control_message, send_pong,
  handle_data_payload, assert_continuation, assert_message_length, set_payload_type, copy_payload,
  prepare_continuation,
}
use librcom.WebSocket.RoundTrip.{frame_bytes, made_state, make_message_lem}
use librcom.WebSocket.Sent.{socket_send_lem, sent-made_state}
use librcom.WebSocket.State.{
  Side, server, client, pure, WebSocket, recv_error, ok, throws, ◌>>◌, >>=-ok, >>=-throws,
}

module _ {S : Type 0} (env : Env S) (sink : IsSink env) where
  open sink use {sent, accept, sent-accept}

  send_pong_lem :
      (side : Side) (w : WebSocket S)
      → let v = made_state env side w in
        send_pong env side w ≡ (
          ok tt,
          record v {
            socket =
                accept (frame_bytes env side v.output_mask pong w.input_payload_buffer) v.socket;
          },
        )
  unfolding send_pong
  send_pong_lem side w =
      let v = made_state env side w in
      let payload = w.input_payload_buffer in
      >>=-ok (make_message env side pong payload) _ (make_message_lem env side pong payload w)
      ∙ >>=-ok (socket_send env side (frame_bytes env side v.output_mask pong payload))
          (λ _. pure tt)
          (socket_send_lem env sink side (frame_bytes env side v.output_mask pong payload) v)

  same_message : (side : Side) (w : WebSocket S) → (made_state env side w).message ≡ w.message
  same_message server w = refl
  same_message client w = refl

  same_continuation :
      (side : Side) (w : WebSocket S) → (made_state env side w).is_continuation ≡ w.is_continuation
  same_continuation server w = refl
  same_continuation client w = refl

  -- On a socket whose writes succeed, a ping is answered with one pong frame that has the payload
  -- of the ping, and the message that is being received stays as it is.
  pub process_message-ping :
      (side : Side) (w : WebSocket S)
      → w.frame_header.opcode ≡ opcode_value ping
      → (w' : WebSocket S) × (process_message env side w ≡ (ok tt, w'))
        × (sent w'.socket
            ≡ sent w.socket ++ frame_bytes env side w'.output_mask pong w.input_payload_buffer)
        × (w'.message ≡ w.message)
        × (w'.is_continuation ≡ w.is_continuation)
  unfolding process_message is_control_opcode handle_control_message
  process_message-ping side w e =
      let v = made_state env side w in
      let frame = frame_bytes env side v.output_mask pong w.input_payload_buffer in
      let handled : process_message env side w ≡ send_pong env side w = rw e refl in
      (
        record v { socket = accept frame v.socket },
        handled ∙ send_pong_lem side w,
        sent-accept frame v.socket ∙ ap (λ t. t ++ frame) (sent-made_state env sink side w),
        same_message side w,
        same_continuation side w,
      )

data_control : (opcode : ℕ) → is_data_opcode opcode ≡ true → is_control_opcode opcode ≡ false
unfolding is_data_opcode is_control_opcode
data_control opcode h = ground arith

module _ {S : Type 0} (env : Env S) where
  -- A data frame is refused as an error of the protocol, before it changes anything, where a
  -- continuation comes without a message to continue or a new message comes inside another.
  pub process_message-out_of_order :
      (side : Side) (w : WebSocket S)
      → is_data_opcode w.frame_header.opcode ≡ true
      → w.is_continuation ≡ not (w.frame_header.opcode == opcode_value continuation)
      → process_message env side w ≡ (throws (recv_error close_protocol_error), w)
  unfolding process_message handle_data_payload assert_continuation
  process_message-out_of_order side w is_data order =
      let code = recv_error close_protocol_error in
      let refused : assert_continuation w ≡ (throws code, w) =
        elim (Bool-cases (w.frame_header.opcode == opcode_value continuation)) [
          | inl continues ↦ rw (order, continues) refl
          | inr begins ↦ rw (order, begins) refl
        ] in
      rw (data_control w.frame_header.opcode is_data, is_data)
        (>>=-throws assert_continuation
          (λ _.
            assert_message_length >> (set_payload_type >> (copy_payload >> prepare_continuation)))
          {w = w} refused)
