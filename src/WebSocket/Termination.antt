-- ===== src/WebSocket/Termination.antt =====
-- The reading of a frame, WebSocket.cpp `read_message`, comes to an end.
use librcom.Base.{
  ℕ, zero, suc, ◌+◌, ◌-◌, ◌≤◌, arith, Bool, true, false, Bool-cases, inl, inr, ltb, ◌==◌, min,
  if◌then◌else◌, Option, none, some, [], Bytes,
}
use librcom.Env.{Env}
use librcom.Frame.{payload_buffer_length}
use librcom.WebSocket.Input.{
  read_message, input_read_header, input_read_frame_header, input_read_payload_length,
  payload_length_for, input_read_uint16, input_read_uint64, input_read_payload_mask, socket_read,
  socket_read_result, input_assert_valid_message, input_assert_mask_flag, input_assert_opcode,
  is_valid_opcode, input_assert_payload_length, input_append_payload, input_read_payload_loop,
  input_read_payload,
}
use librcom.WebSocket.State.{
  WebSocket, Side, server, client, Outcome, ok, throws, out_of_fuel, M, next,
}

module _ {S : Type 0} where
  -- The method has come to an end, if by an exception.
  abbrev pub Terminates : {A : Type 0} → Outcome A × WebSocket S → Type 0
  Terminates (ok a, w) = Unit
  Terminates (throws e, w) = Unit
  Terminates (out_of_fuel, w) = ⊥

  next-Terminates :
      {A B : Type 0} (r : Outcome A × WebSocket S) (f : A → M S B)
      → Terminates r
      → ((a : A) (w : WebSocket S) → Terminates (f a w))
      → Terminates (next r f)
  next-Terminates (ok a, w) f h g = g a w
  next-Terminates (throws e, w) f h g = tt
  next-Terminates (out_of_fuel, w) f h g = h

  if-Terminates :
      {A : Type 0} (b : Bool) (m k : M S A) (w : WebSocket S)
      → Terminates (m w)
      → Terminates (k w)
      → Terminates ((if b then m else k) w)
  if-Terminates true m k w h i = h
  if-Terminates false m k w h i = i

  input_append_payload-Terminates :
      (side : Side) (received : Bytes) (w : WebSocket S)
      → Terminates (input_append_payload side received w)
  unfolding input_append_payload
  input_append_payload-Terminates server received w = tt
  input_append_payload-Terminates client received w = tt

  input_assert_mask_flag-Terminates :
      (side : Side) (w : WebSocket S) → Terminates (input_assert_mask_flag side w)
  unfolding input_assert_mask_flag
  input_assert_mask_flag-Terminates server w = elim (Bool-cases w.frame_header.mask) [
    | inl masked ↦ rw masked tt
    | inr plain ↦ rw plain tt
  ]
  input_assert_mask_flag-Terminates client w = elim (Bool-cases w.frame_header.mask) [
    | inl masked ↦ rw masked tt
    | inr plain ↦ rw plain tt
  ]

  input_assert_valid_message-Terminates :
      (side : Side) (w : WebSocket S) → Terminates (input_assert_valid_message side w)
  unfolding input_assert_valid_message input_assert_opcode input_assert_payload_length
  input_assert_valid_message-Terminates side w =
      next-Terminates (input_assert_mask_flag side w)
        (λ _ v. next (input_assert_opcode v) (λ _. input_assert_payload_length))
        (input_assert_mask_flag-Terminates side w)
        (λ a v.
          next-Terminates (input_assert_opcode v) (λ _. input_assert_payload_length)
            (elim (Bool-cases (is_valid_opcode v.frame_header.opcode)) [
              | inl valid ↦ rw valid tt
              | inr invalid ↦ rw invalid tt
            ])
            (λ b u.
              elim (Bool-cases (ltb librcom.Frame.maximum_payload_length u.input_message_length)) [
                | inl long ↦ rw long tt
                | inr fits ↦ rw fits tt
              ]))

module _ {S : Type 0} (env : Env S) where
  socket_read-Terminates : (n : ℕ) (w : WebSocket S) → Terminates (socket_read env n w)
  unfolding socket_read
  socket_read-Terminates n w = answered (env.socket.read n w.socket)
    where
      answered : (r : Option Bytes × S) → Terminates (socket_read_result env w r)
      answered (some bytes, s) = tt
      answered (none, s) = tt

  payload_length_for-Terminates :
      (n : ℕ) (w : WebSocket S) → Terminates (payload_length_for env n w)
  unfolding payload_length_for input_read_uint16 input_read_uint64
  payload_length_for-Terminates n w = elim (Bool-cases (ltb n 126)) [
    | inl short ↦ rw short tt
    | inr longer ↦ elim (Bool-cases (n == 126)) [
      | inl two ↦
          rw (longer, two)
            (next-Terminates (input_read_uint16 env w) _
              (next-Terminates (socket_read env 2 w) _ (socket_read-Terminates 2 w) (λ a v. tt))
              (λ a v. tt))
      | inr not_two ↦ elim (Bool-cases (n == 127)) [
        | inl eight ↦
            rw (longer, not_two, eight)
              (next-Terminates (input_read_uint64 env w) _
                (next-Terminates (socket_read env 8 w) _ (socket_read-Terminates 8 w) (λ a v. tt))
                (λ a v. tt))
        | inr none_of_them ↦ rw (longer, not_two, none_of_them) tt
      ]
    ]
  ]

  input_read_frame_header-Terminates :
      (w : WebSocket S) → Terminates (input_read_frame_header env w)
  unfolding input_read_frame_header
  input_read_frame_header-Terminates w =
      next-Terminates (socket_read env 2 w) _ (socket_read-Terminates 2 w) (λ a v. tt)

  input_read_header-Terminates :
      (side : Side) (w : WebSocket S) → Terminates (input_read_header env side w)
  unfolding input_read_header input_read_payload_length input_read_payload_mask
  input_read_header-Terminates server w =
      next-Terminates (input_read_frame_header env w)
        (λ _ v. next (input_read_payload_length env v) (λ _. input_read_payload_mask env))
        (input_read_frame_header-Terminates w)
        (λ a v.
          next-Terminates (input_read_payload_length env v) (λ _. input_read_payload_mask env)
            (payload_length_for-Terminates v.frame_header.payload_len v)
            (λ b u.
              next-Terminates (socket_read env 4 u) _ (socket_read-Terminates 4 u) (λ c t. tt)))
  input_read_header-Terminates client w =
      next-Terminates (input_read_frame_header env w) (λ _. input_read_payload_length env)
        (input_read_frame_header-Terminates w)
        (λ a v. payload_length_for-Terminates v.frame_header.payload_len v)

  module _ (side : Side) where
    input_read_payload_loop-Terminates :
        (fuel processed total : ℕ) (w : WebSocket S)
        → total ≤ processed + fuel
        → Terminates (input_read_payload_loop env side fuel processed total w)
    unfolding input_read_payload_loop
    input_read_payload_loop-Terminates zero processed total w enough =
        elim (Bool-cases (ltb processed total)) [
          | inl less ↦ absurd (ground arith)
          | inr done ↦ rw done tt
        ]
    input_read_payload_loop-Terminates (suc fuel) processed total w enough =
        let n = min (total - processed) payload_buffer_length in
        elim (Bool-cases (ltb processed total)) [
          | inr done ↦ rw done tt
          | inl less ↦
              let nearer : total ≤ processed + n + fuel = ground arith in
              rw less (
                next-Terminates (socket_read env n w)
                  (λ buffer v.
                    next (input_append_payload side buffer v)
                      (λ _. input_read_payload_loop env side fuel (processed + n) total))
                  (socket_read-Terminates n w)
                  (λ buffer v.
                    next-Terminates (input_append_payload side buffer v)
                      (λ _. input_read_payload_loop env side fuel (processed + n) total)
                      (input_append_payload-Terminates side buffer v)
                      (λ a u.
                        input_read_payload_loop-Terminates fuel (processed + n) total u nearer)))
        ]

    -- The reading of a frame comes to an end on both sides, with a result or an exception and
    -- whatever the socket answers, however long the payload is that the header announces: as many
    -- rounds as bytes are enough for the loop of `input_read_payload`.
    pub read_message-Terminates : (w : WebSocket S) → Terminates (read_message env side w)
    unfolding read_message input_read_payload
    read_message-Terminates w =
        next-Terminates (input_read_header env side w)
          (λ _ v. next (input_assert_valid_message side v) (λ _. input_read_payload env side))
          (input_read_header-Terminates side w)
          (λ a v.
            next-Terminates (input_assert_valid_message side v) (λ _. input_read_payload env side)
              (input_assert_valid_message-Terminates side v)
              (λ b u.
                let cleared : WebSocket S = record u { input_payload_buffer = [] } in
                let n = u.input_message_length in
                input_read_payload_loop-Terminates n 0 n cleared (omega arith)))
