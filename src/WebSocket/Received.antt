-- ===== src/WebSocket/Received.antt =====
-- What the handling of one frame by WebSocket.cpp `wait_and_handle_one_message` leaves behind: a
-- frame of data has set the type and the continuation, and a control frame keeps its header.
use librcom.Base.{
  ℕ, zero, suc, ◌%◌, ◌^◌, ◌≡◌, ◌∙◌, refl, ap, Bool, true, false, not, Bool-cases, inl, inr, ◌==◌,
  if◌then◌else◌, Bytes, arith,
}
use librcom.Env.{Env, min_double, one_tenth, one_half, rcom_time, rcom_sleep}
use librcom.Frame.{FrameHeader, Opcode, text, binary, close, ping, pong, opcode_value, uint16_bytes}
use librcom.WebSocket.Close.{
  answer_close_handshake, get_close_code, closing_send_reply, send_close_message,
}
use librcom.WebSocket.Ends.{Ends, Ends-next, Ends-last, Ends-if, AnyException}
use librcom.WebSocket.Input.{read_message}
use librcom.WebSocket.Output.{
  make_message, output_append_header, output_append_payload, socket_send, socket_close, sleep,
  wait_endpoint_closed, close_connection,
}
use librcom.WebSocket.Recv.{
  is_control_opcode, is_data_opcode, handle_data_payload, assert_continuation,
  assert_message_length, set_payload_type, copy_payload, prepare_continuation, send_pong,
  handle_control_message, process_message, handle_one_message, wait_for_data,
  wait_and_handle_one_message,
}
use librcom.WebSocket.State.{
  Side, server, client, WebSocket, M, Outcome, ok, throws, out_of_fuel, pure, throw, runtime_error,
  next, ◌>>=◌, ◌>>◌, outside,
}

module _ {S : Type 0} where
  -- The header of the frame that has been read is still this one.
  abbrev HasHeader : FrameHeader → {A : Type 0} → A → WebSocket S → Type 0
  HasHeader header a w = w.frame_header ≡ header

  abbrev Kept : FrameHeader → {A : Type 0} → Outcome A × WebSocket S → Type 0
  Kept header r = Ends (HasHeader header) AnyException r

  Kept-next :
      (header : FrameHeader) {A B : Type 0} (r : Outcome A × WebSocket S) (f : A → M S B)
      → Kept header r
      → ((a : A) (w : WebSocket S) → w.frame_header ≡ header → Kept header (f a w))
      → Kept header (next r f)
  Kept-next header r f h k = Ends-next (HasHeader header) (HasHeader header) AnyException r f h k

  Kept-if :
      (header : FrameHeader) {A : Type 0} (b : Bool) (m k : M S A) (w : WebSocket S)
      → Kept header (m w)
      → Kept header (k w)
      → Kept header ((if b then m else k) w)
  Kept-if header b m k w h i = Ends-if (HasHeader header) AnyException b m k w h i

module _ {S : Type 0} (env : Env S) (header : FrameHeader) where
  sleep-Kept :
      (duration : ℕ) (w : WebSocket S)
      → w.frame_header ≡ header
      → Kept header (sleep env duration w)
  unfolding sleep
  sleep-Kept duration w h =
      Kept-if header (rcom_sleep env duration w.socket).0 (pure tt) (throw runtime_error)
        (record w { socket = (rcom_sleep env duration w.socket).1 }) h tt

  wait_endpoint_closed-Kept :
      (fuel start_time : ℕ) (w : WebSocket S)
      → w.frame_header ≡ header
      → Kept header (wait_endpoint_closed env fuel start_time w)
  unfolding wait_endpoint_closed
  wait_endpoint_closed-Kept zero start_time w h = tt
  wait_endpoint_closed-Kept (suc fuel) start_time w h =
      let (connected, s) = env.socket.is_endpoint_connected w.socket in
      let (now, s') = rcom_time env s in
      let pause : ℕ =
        min_double env.double one_tenth
          (env.double.minus one_half (env.double.minus now start_time)) in
      let again = sleep env pause >> wait_endpoint_closed env fuel start_time in
      let late : M S (Unit {0}) = outside env.socket.is_endpoint_connected >>= λ _. pure tt in
      Kept-if header (not connected) (pure tt)
        (outside (rcom_time env) >>= λ now.
          if env.double.at_most one_half (env.double.minus now start_time)
          then late
          else (sleep env (
                min_double env.double one_tenth
                  (env.double.minus one_half (env.double.minus now start_time)))
              >> wait_endpoint_closed env fuel start_time))
        (record w { socket = s }) h
        (Kept-if header (env.double.at_most one_half (env.double.minus now start_time)) late again
          (record w { socket = s' }) h
          (Kept-next header (sleep env pause (record w { socket = s' }))
            (λ _. wait_endpoint_closed env fuel start_time)
            (sleep-Kept pause (record w { socket = s' }) h)
            (λ a v k. wait_endpoint_closed-Kept fuel start_time v k)))

  close_connection-Kept :
      (side : Side) (w : WebSocket S)
      → w.frame_header ≡ header
      → Kept header (close_connection env side w)
  unfolding close_connection socket_close
  close_connection-Kept server w h = h
  close_connection-Kept client w h =
      let (start_time, s) = rcom_time env w.socket in
      Kept-next header (wait_endpoint_closed env env.rounds start_time (record w { socket = s }))
        (λ _. socket_close env)
        (wait_endpoint_closed-Kept env.rounds start_time (record w { socket = s }) h) (λ a v k. k)

  socket_send-Kept :
      (side : Side) (buffer : Bytes) (w : WebSocket S)
      → w.frame_header ≡ header
      → Kept header (socket_send env side buffer w)
  unfolding socket_send
  socket_send-Kept side buffer w h =
      let (success, s) = env.socket.send buffer w.socket in
      Kept-if header success (pure true) (close_connection env side >>= λ _. pure false)
        (record w { socket = s }) h
        (Kept-next header (close_connection env side (record w { socket = s })) (λ _. pure false)
          (close_connection-Kept side (record w { socket = s }) h) (λ a v k. k))

  make_message-Kept :
      (side : Side) (opcode : Opcode) (payload : Bytes) (w : WebSocket S)
      → w.frame_header ≡ header
      → Kept header (make_message env side opcode payload w)
  unfolding make_message output_append_header output_append_payload
  make_message-Kept server opcode payload w h = h
  make_message-Kept client opcode payload w h = h

  module _ (side : Side) where
    answer_close_handshake-Kept :
        (w : WebSocket S)
        → w.frame_header ≡ header
        → Kept header (answer_close_handshake env side w)
    unfolding answer_close_handshake get_close_code closing_send_reply send_close_message
    answer_close_handshake-Kept w h =
        let v = (get_close_code w).1 in
        let payload = uint16_bytes (env.order.htons (v.remote_close_reason % 2 ^ 16)) in
        Kept-next header (send_close_message env side v.remote_close_reason v)
          (λ _. close_connection env side)
          (Kept-next header (make_message env side close payload v) (socket_send env side)
            (make_message-Kept side close payload v h) (socket_send-Kept side))
          (λ sent u k. close_connection-Kept side u k)

    send_pong-Kept :
        (w : WebSocket S) → w.frame_header ≡ header → Kept header (send_pong env side w)
    unfolding send_pong
    send_pong-Kept w h =
        Kept-next header (make_message env side pong w.input_payload_buffer w)
          (λ message. socket_send env side message >>= λ _. pure tt)
          (make_message-Kept side pong w.input_payload_buffer w h)
          (λ message v k.
            Kept-next header (socket_send env side message v) (λ _. pure tt)
              (socket_send-Kept side message v k) (λ a u l. l))

    handle_control_message-Kept :
        (opcode : ℕ) (w : WebSocket S)
        → w.frame_header ≡ header
        → Kept header (handle_control_message env side opcode w)
    unfolding handle_control_message
    handle_control_message-Kept opcode w h =
        let rest : M S (Unit {0}) =
          if opcode == opcode_value ping then send_pong env side else pure tt in
        Kept-if header (opcode == opcode_value close) (answer_close_handshake env side) rest w
          (answer_close_handshake-Kept w h)
          (Kept-if header (opcode == opcode_value ping) (send_pong env side) (pure tt) w
            (send_pong-Kept w h) h)

module _ {S : Type 0} (env : Env S) where
  -- A frame of data has set the type of the message where it begins one, and whether it goes on.
  pub record IsTyped (w : WebSocket S) : Type 0 where
    pub text_typed : w.frame_header.opcode ≡ opcode_value text → w.is_text ≡ true
    pub binary_typed : w.frame_header.opcode ≡ opcode_value binary → w.is_text ≡ false
    pub continues : w.is_continuation ≡ not w.frame_header.fin

  abbrev pub DataIsTyped : WebSocket S → Type 0
  DataIsTyped w = is_data_opcode w.frame_header.opcode ≡ true → IsTyped w

  handle_data_payload-DataIsTyped :
      (w : WebSocket S) → Ends (λ a v. DataIsTyped v) AnyException (handle_data_payload w)
  unfolding handle_data_payload set_payload_type copy_payload prepare_continuation
  handle_data_payload-DataIsTyped w =
      Ends-last (λ a v. DataIsTyped v) (assert_continuation w)
        (λ _. assert_message_length >> (set_payload_type >> (copy_payload >> prepare_continuation)))
        (λ a v.
          Ends-last (λ a v. DataIsTyped v) (assert_message_length v)
            (λ _. set_payload_type >> (copy_payload >> prepare_continuation))
            (λ b u is_data. record {
              text_typed = λ e. rw e refl;
              binary_typed = λ e. rw e refl;
              continues = refl;
            }))

  control_data : (opcode : ℕ) → is_control_opcode opcode ≡ true → is_data_opcode opcode ≡ false
  unfolding is_data_opcode is_control_opcode
  control_data opcode h = ground arith

  module _ (side : Side) where
    control-DataIsTyped :
        (w : WebSocket S) (r : Outcome (Unit {0}) × WebSocket S)
        → is_control_opcode w.frame_header.opcode ≡ true
        → Kept w.frame_header r
        → Ends (λ a v. DataIsTyped v) AnyException r
    control-DataIsTyped w (ok a, v) control same = λ is_data.
        (let no : is_data_opcode v.frame_header.opcode ≡ false =
            ap (λ h. is_data_opcode h.opcode) same ∙ control_data w.frame_header.opcode control in
          absurd (cc))
    control-DataIsTyped w (throws e, v) control h = tt
    control-DataIsTyped w (out_of_fuel, v) control h = tt

    process_message-DataIsTyped :
        (w : WebSocket S) → Ends (λ a v. DataIsTyped v) AnyException (process_message env side w)
    unfolding process_message
    process_message-DataIsTyped w =
        let opcode = w.frame_header.opcode in
        elim (Bool-cases (is_control_opcode opcode)) [
          | inl control ↦ rw control (
              control-DataIsTyped w (handle_control_message env side opcode w) control
                (handle_control_message-Kept env w.frame_header side opcode w refl))
          | inr other ↦ elim (Bool-cases (is_data_opcode opcode)) [
            | inl is_data ↦ rw (other, is_data) (handle_data_payload-DataIsTyped w)
            | inr neither ↦ rw (other, neither) tt
          ]
        ]

    -- Where a frame has been handled, it is typed.
    pub wait_and_handle_one_message-DataIsTyped :
        (timeout : ℕ) (w : WebSocket S)
        → Ends
            (λ received v. received ≡ true → DataIsTyped v)
            AnyException
            (wait_and_handle_one_message env side timeout w)
    unfolding wait_and_handle_one_message handle_one_message
    wait_and_handle_one_message-DataIsTyped timeout w =
        Ends-last (λ received v. received ≡ true → DataIsTyped v) (wait_for_data env side timeout w)
          _ handled
      where
        handled :
            (received_data : Bool) (v : WebSocket S)
            → Ends
                (λ received u. received ≡ true → DataIsTyped u)
                AnyException
                ((if received_data
                    then ((read_message env side >> process_message env side) >> pure true)
                    else pure false)
                  v)
        handled false v = λ e. absurd (cc e)
        handled true v =
            Ends-next (λ a u. DataIsTyped u) (λ received u. received ≡ true → DataIsTyped u)
              AnyException ((read_message env side >> process_message env side) v) (λ _. pure true)
              (Ends-last (λ a u. DataIsTyped u) (read_message env side v)
                (λ _. process_message env side) (λ a u. process_message-DataIsTyped u))
              (λ a u typed e. typed)
