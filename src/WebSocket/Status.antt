-- ===== src/WebSocket/Status.antt =====
-- How WebSocket.cpp `recv` ends: what its answer says of the websocket, and what it can throw.
use mathlib.Core.Path.{subst}
use librcom.Base.{
  ℕ, zero, suc, ◌≡◌, ◌≢◌, ◌∙◌, ◌⊎◌, refl, ap, arith, not, Bool, true, false, Bool-cases, inl, inr,
  Option, none, some, [], if◌then◌else◌,
}
use librcom.Env.{Env, rcom_time}
use librcom.WebSocket.Close.{close_with_handshake, if_not_negative, compute_remaning_time}
use librcom.Frame.{Opcode, text, binary, continuation, opcode_value}
use librcom.WebSocket.Received.{DataIsTyped, wait_and_handle_one_message-DataIsTyped}
use librcom.WebSocket.Recv.{
  RecvStatus, recv_failed, recv_closed, recv_timeout, recv_text, recv_binary,
  has_complete_data_message, is_data_message_complete, is_data_opcode, get_message_type,
  received_status, try_recv_loop, try_recv, recv_caught, recv, wait_and_handle_one_message,
}
use librcom.WebSocket.State.{
  Side, recv_error, runtime_error, Outcome, ok, throws, out_of_fuel, WebSocket, M, pure, ◌>>=◌,
  outside, gets,
}
use librcom.WebSocket.Ends.{
  ClosesConnection, IsRuntime, AnyException, Ends, Ends-next, IsClosed,
  close_with_handshake-IsClosed,
}

module _ {S : Type 0} (env : Env S) (closes : ClosesConnection env.socket) where
  -- The frame that was read last is the final one of a message, and begins it with this opcode or
  -- continues one of this type; the next frame has to begin another message.
  pub record IsComplete (opcode : Opcode) (is_text : Bool) (w : WebSocket S) : Type 0 where
    pub final : w.frame_header.fin ≡ true
    pub typed :
        (w.frame_header.opcode ≡ opcode_value opcode)
        ⊎ ((w.frame_header.opcode ≡ opcode_value continuation) × (w.is_text ≡ is_text))
    pub ended : w.is_continuation ≡ false

  -- What an answer of `recv` says of the websocket.
  abbrev pub StatusHolds : RecvStatus → WebSocket S → Type 0
  StatusHolds recv_failed w = env.socket.is_connected w.socket ≡ false
  StatusHolds recv_closed w = env.socket.is_connected w.socket ≡ false
  StatusHolds recv_timeout w = Unit
  StatusHolds recv_text w = IsComplete text true w
  StatusHolds recv_binary w = IsComplete binary false w

  message_status :
      (is_text : Bool) (w : WebSocket S)
      → w.is_text ≡ is_text
      → DataIsTyped env w
      → has_complete_data_message w ≡ true
      → StatusHolds (if is_text then recv_text else recv_binary) w
  unfolding has_complete_data_message is_data_message_complete is_data_opcode
  message_status true w same data_typed h =
      let is_typed = data_typed (ground arith) in
      let final : w.frame_header.fin ≡ true = ground arith in
      record {
        final = final;
        typed = ground (arith, is_typed.binary_typed);
        ended = is_typed.continues ∙ ap not final;
      }
  message_status false w same data_typed h =
      let is_typed = data_typed (ground arith) in
      let final : w.frame_header.fin ≡ true = ground arith in
      record {
        final = final;
        typed = ground (arith, is_typed.text_typed);
        ended = is_typed.continues ∙ ap not final;
      }

  received_status_lem :
      (received_data : Bool) (status : RecvStatus) (w : WebSocket S) (side : Side)
      → (received_data ≡ true → DataIsTyped env w)
      → received_status env side received_data w ≡ some status
      → StatusHolds status w
  unfolding received_status get_message_type
  received_status_lem false status w side data_typed e = absurd (cc e)
  received_status_lem true status w side data_typed e =
      elim (Bool-cases (has_complete_data_message w)) [
        | inl complete ↦
            let same : get_message_type w ≡ status = cc (rw complete at e) in
            subst (λ st. StatusHolds st w) same
              (message_status w.is_text w refl (data_typed refl) complete)
        | inr partial ↦ elim (Bool-cases (env.socket.is_connected w.socket)) [
          | inl connected ↦ absurd (cc (rw (partial, connected) at e))
          | inr closed ↦
              let same : recv_closed ≡ status = cc (rw (partial, closed) at e) in
              subst (λ st. StatusHolds st w) same closed
        ]
      ]

  -- The end of a round of the loop, with what follows it.
  round_status :
      (status : Option RecvStatus) (again : M S RecvStatus) (w : WebSocket S)
      → ((st : RecvStatus) → status ≡ some st → StatusHolds st w)
      → Ends StatusHolds AnyException (again w)
      → Ends StatusHolds AnyException
          ((elim status as (λ _. M S RecvStatus) [ some st ↦ pure st | none ↦ again ]) w)
  round_status none again w holds rest = rest
  round_status (some st) again w holds rest = holds st refl

  try_recv_loop_lem :
      (side : Side) (fuel start_time timeout : ℕ) (remaining : Option ℕ) (w : WebSocket S)
      → Ends StatusHolds AnyException (try_recv_loop env side fuel start_time timeout remaining w)
  unfolding try_recv_loop
  try_recv_loop_lem side fuel start_time timeout none w = tt
  try_recv_loop_lem side zero start_time timeout (some remaining) w = tt
  try_recv_loop_lem side (suc fuel) start_time timeout (some remaining) w =
      let again : M S RecvStatus = outside (rcom_time env) >>= λ now.
      try_recv_loop env side fuel start_time timeout
        (compute_remaning_time env.double start_time timeout now) in
      Ends-next (λ received v. received ≡ true → DataIsTyped env v) StatusHolds AnyException
        (wait_and_handle_one_message env side remaining w)
        (λ received_data. gets (received_status env side received_data) >>= λ status.
          elim status as (λ _. M S RecvStatus) [ some st ↦ pure st | none ↦ again ])
        (wait_and_handle_one_message-DataIsTyped env side remaining w)
        (λ received_data v data_typed.
          round_status (received_status env side received_data v) again v
            (λ st e. received_status_lem received_data st v side data_typed e)
            (try_recv_loop_lem side fuel start_time timeout _ _))

  recv_caught_lem :
      (side : Side) (fuel : ℕ) (r : Outcome RecvStatus × WebSocket S)
      → Ends StatusHolds AnyException r
      → Ends StatusHolds IsRuntime (recv_caught env side fuel r)
  recv_caught_lem side fuel (ok status, w) h = h
  recv_caught_lem side fuel (throws (recv_error code), w) h =
      Ends-next (IsClosed env closes) StatusHolds IsRuntime
        (close_with_handshake env side fuel code w) (λ _. pure recv_failed)
        (close_with_handshake-IsClosed env closes side fuel code w) (λ a v closed. closed)
  recv_caught_lem side fuel (throws runtime_error, w) h = refl
  recv_caught_lem side fuel (out_of_fuel, w) h = tt

  recv_lem :
      (side : Side) (fuel timeout : ℕ) (w : WebSocket S)
      → Ends StatusHolds IsRuntime (recv env side fuel timeout w)
  unfolding recv try_recv
  recv_lem side fuel timeout w =
      let w' = record w { message = [] } in
      recv_caught_lem side fuel (try_recv env side fuel timeout w')
        (try_recv_loop_lem side fuel _ timeout (if_not_negative env.double timeout) _)

  -- When `recv` answers, the websocket is as the answer says, if a socket that has been closed is
  -- not connected. After `recv_failed` and `recv_closed` there is no connection left. After
  -- `recv_text` and `recv_binary` the frame that was read last has its final bit set, and has the
  -- opcode of that type, or the one of a continuation while `is_text` tells that type; and the
  -- websocket is not in the middle of a message.
  pub recv-StatusHolds :
      (side : Side) (fuel timeout : ℕ) (status : RecvStatus) (w w' : WebSocket S)
      → recv env side fuel timeout w ≡ (ok status, w')
      → StatusHolds status w'
  recv-StatusHolds side fuel timeout status w w' e =
      subst (Ends StatusHolds IsRuntime) e (recv_lem side fuel timeout w)

  no_recv_error :
      {A : Type 0} (Q : A → WebSocket S → Type 0) (code : ℕ) (r : Outcome A × WebSocket S)
      → Ends Q IsRuntime r
      → r.0 ≢ throws (recv_error code)
  no_recv_error Q code (ok a, w) h e = cc e
  no_recv_error Q code (throws (recv_error c), w) h e = cc h
  no_recv_error Q code (throws runtime_error, w) h e = cc e
  no_recv_error Q code (out_of_fuel, w) h e = cc e

  -- The exception by which the methods of the websocket report an error of the protocol or of the
  -- socket never leaves `recv`, with whatever code and on either side, if a socket that has been
  -- closed is not connected.
  pub recv-recv_error :
      (side : Side) (fuel timeout code : ℕ) (w : WebSocket S)
      → (recv env side fuel timeout w).0 ≢ throws (recv_error code)
  recv-recv_error side fuel timeout code w =
      no_recv_error StatusHolds code (recv env side fuel timeout w) (recv_lem side fuel timeout w)
