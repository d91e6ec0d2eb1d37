-- ===== src/WebSocket/Sent.antt =====
-- What `send` writes: for every length the same bytes as one whole frame, though a long message
-- goes out block by block.
use librcom.Base.{
  ℕ, zero, suc, ◌≤◌, ◌<◌, ◌≡◌, refl, sym, ap, ◌∙◌, arith, [], ◌∷◌, ◌++◌, append_assoc, append-nil,
  Bool, true, false, Bool-cases, inl, inr, ltb, leb, lt→ltb, length, take, drop, length-drop, Bytes,
}
use librcom.Env.{Env, IsSink}
use librcom.Frame.{
  Opcode, apply_mask, client_header, server_header, maximum_message_length, short_message_length,
}
use librcom.WebSocket.Output.{
  MessageType, message_opcode, make_message, output_append_header, output_send_payload, socket_send,
  send_payload_blocks, send_long_message_header, send_long_message_payload, send_long_data_message,
  send_short_data_message, send,
}
use librcom.WebSocket.Payload.{unmasked, unmasked-blocks, unmasked-nil, mask_blocks-apply_mask}
use librcom.WebSocket.RoundTrip.{frame_bytes, made_state, make_message_lem, other}
use librcom.WebSocket.State.{Side, server, client, WebSocket, M, ok, >>=-ok}

module _ {S : Type 0} (env : Env S) (sink : IsSink env) where
  open sink use {
    sent, accept, send_true, sent-accept, sent-turn_buffering_off, sent-turn_buffering_on,
    sent-getrandom,
  }

  pub socket_send_lem :
      (side : Side) (bytes : Bytes) (w : WebSocket S)
      → socket_send env side bytes w ≡ (ok true, record w { socket = accept bytes w.socket })
  unfolding socket_send
  socket_send_lem side bytes w = rw (send_true bytes w.socket) refl

  -- The bytes of a block as they go out.
  output_send_payload_lem :
      (side : Side) (block : Bytes) (w : WebSocket S)
      → output_send_payload env side block w ≡ (
        ok true,
        record w { socket = accept (unmasked (other side) w.output_mask block) w.socket },
      )
  unfolding output_send_payload
  output_send_payload_lem server block w = socket_send_lem server block w
  output_send_payload_lem client block w = socket_send_lem client (apply_mask w.output_mask block) w

  nothing :
      (side : Side) (w : WebSocket S)
      → sent w.socket ≡ sent w.socket ++ unmasked (other side) w.output_mask []
  nothing side w = rw (unmasked-nil (other side) w.output_mask, append-nil) refl

  send_payload_blocks_lem :
      (side : Side) (fuel : ℕ) (unsent : Bytes) (w : WebSocket S)
      → length unsent ≤ fuel
      → (s : S) × (send_payload_blocks env side fuel unsent w ≡ (ok true, record w { socket = s }))
        × (sent s ≡ sent w.socket ++ unmasked (other side) w.output_mask unsent)
  unfolding send_payload_blocks
  send_payload_blocks_lem side zero [] w h = (w.socket, refl, nothing side w)
  send_payload_blocks_lem side zero (b ∷ unsent) w h = absurd (omega arith)
  send_payload_blocks_lem side (suc fuel) [] w h = (w.socket, refl, nothing side w)
  send_payload_blocks_lem side (suc fuel) (b ∷ unsent) w h =
      let all = b ∷ unsent in
      let block = unmasked (other side) w.output_mask (take 1024 all) in
      let (s, others, out) =
        send_payload_blocks_lem side fuel (drop 1024 all)
          (record w { socket = accept block w.socket }) (omega (arith, length-drop 1023 unsent)) in
      (
        s,
        rw (lt→ltb 0 (suc (length unsent)) (omega arith)) (
            >>=-ok (output_send_payload env side (take 1024 all)) _
              (output_send_payload_lem side (take 1024 all) w)
            ∙ others),
        out
            ∙ ap (λ t. t ++ unmasked (other side) w.output_mask (drop 1024 all))
                (sent-accept block w.socket)
            ∙ append_assoc (sent w.socket) block
                (unmasked (other side) w.output_mask (drop 1024 all))
            ∙ ap (λ t. sent w.socket ++ t) (unmasked-blocks (other side) w.output_mask all),
      )

  pub sent-made_state :
      (side : Side) (w : WebSocket S) → sent (made_state env side w).socket ≡ sent w.socket
  sent-made_state server w = refl
  sent-made_state client w = sent-getrandom 4 w.socket

  -- The two parts of a frame, by the mask.
  abbrev header_bytes : Side → Bytes → Opcode → ℕ → Bytes
  header_bytes server mask opcode n = server_header env.order opcode n
  header_bytes client mask opcode n = client_header env.order opcode mask n

  output_append_header_lem :
      (side : Side) (opcode : Opcode) (n : ℕ) (w : WebSocket S)
      → output_append_header env side opcode n w ≡ (
        ok (header_bytes side (made_state env side w).output_mask opcode n),
        made_state env side w,
      )
  unfolding output_append_header
  output_append_header_lem server opcode n w = refl
  output_append_header_lem client opcode n w = refl

  frame_parts :
      (side : Side) (mask : Bytes) (opcode : Opcode) (payload : Bytes)
      → header_bytes side mask opcode (length payload) ++ unmasked (other side) mask payload
        ≡ frame_bytes env side mask opcode payload
  frame_parts server mask opcode payload = refl
  frame_parts client mask opcode payload =
      ap (λ t. client_header env.order opcode mask (length payload) ++ t)
        (sym (mask_blocks-apply_mask (length payload) mask payload (omega arith)))

  -- A message was sent whole: `send` answered true, and wrote one frame.
  abbrev pub SendsFrame : Side → Opcode → Bytes → WebSocket S → M S Bool → Type 0
  SendsFrame side opcode message w m =
      (w' : WebSocket S) × (m w ≡ (ok true, w'))
      × (sent w'.socket ≡ sent w.socket ++ frame_bytes env side w'.output_mask opcode message)

  send_short :
      (side : Side) (message : Bytes) (type : MessageType) (w : WebSocket S)
      → SendsFrame side
          (message_opcode type)
          message
          w
          (send_short_data_message env side message type)
  unfolding send_short_data_message
  send_short side message type w =
      let v = made_state env side w in
      let frame = frame_bytes env side v.output_mask (message_opcode type) message in
      let s1 = env.socket.turn_buffering_off v.socket in
      (
        record v { output_message_buffer = frame; socket = accept frame s1 },
        >>=-ok (make_message env side (message_opcode type) message) _
              (make_message_lem env side (message_opcode type) message w)
            ∙ socket_send_lem side frame (record v { output_message_buffer = frame; socket = s1 }),
        sent-accept frame s1
            ∙ ap (λ t. t ++ frame) (sent-turn_buffering_off v.socket ∙ sent-made_state side w),
      )

  send_long :
      (side : Side) (message : Bytes) (type : MessageType) (w : WebSocket S)
      → SendsFrame side
          (message_opcode type)
          message
          w
          (send_long_data_message env side message type)
  unfolding send_long_data_message send_long_message_header send_long_message_payload
  send_long side message type w =
      let w1 = record w { socket = env.socket.turn_buffering_on w.socket } in
      let v = made_state env side w1 in
      let opcode = message_opcode type in
      let header = header_bytes side v.output_mask opcode (length message) in
      let v1 = record v { output_message_buffer = header; socket = accept header v.socket } in
      let body = unmasked (other side) v.output_mask message in
      let (s, blocks, out) =
        send_payload_blocks_lem side (length message) message v1 (omega arith) in
      let head : send_long_message_header env side opcode message w1 ≡ (ok true, v1) =
        >>=-ok (output_append_header env side opcode (length message)) _
          (output_append_header_lem side opcode (length message) w1)
        ∙ socket_send_lem side header (record v { output_message_buffer = header }) in
      (
        record v1 { socket = s },
        >>=-ok (send_long_message_header env side opcode message) _ head ∙ blocks,
        out
            ∙ ap (λ t. t ++ body)
                (sent-accept header v.socket
                  ∙ ap (λ t. t ++ header)
                      (sent-made_state side w1 ∙ sent-turn_buffering_on w.socket))
            ∙ append_assoc (sent w.socket) header body
            ∙ ap (λ t. sent w.socket ++ t) (frame_parts side v.output_mask opcode message),
      )

  -- On a socket whose writes succeed, for a message of any length below 128 MB, and though a long
  -- message goes out header first and then block by block, `send` answers true and what it has
  -- written is the one frame that `make_message` makes of the message.
  pub send-frame_bytes :
      (side : Side) (message : Bytes) (type : MessageType) (w : WebSocket S)
      → length message < maximum_message_length
      → SendsFrame side (message_opcode type) message w (send env side message type)
  unfolding send
  send-frame_bytes side message type w h =
      elim (Bool-cases (ltb (length message) short_message_length)) [
        | inl short ↦ rw (fits, short) (send_short side message type w)
        | inr long ↦ rw (fits, long) (send_long side message type w)
      ]
    where
      fits : leb maximum_message_length (length message) ≡ false
      fits = ground arith
