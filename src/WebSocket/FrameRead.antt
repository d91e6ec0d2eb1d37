-- ===== src/WebSocket/FrameRead.antt =====
-- A frame that one side writes is the frame that the other side reads.
use librcom.Base.{
  ℕ, ◌+◌, ◌≤◌, ◌≡◌, refl, sym, ap, ◌∙◌, arith, [], ◌∷◌, ◌++◌, append_assoc, true, le→ltb, length,
  Bytes,
}
use librcom.Env.{Env, IsStream}
use librcom.HostOrder.{IsNetworkOrder}
use librcom.Frame.{
  Opcode, opcode_value, apply_mask, maximum_payload_length, server_header, client_header,
  continuation, text, binary, close, ping, pong,
}
use librcom.Frame.Mask.{apply_mask_twice, length-apply_mask}
use librcom.Frame.Header.{
  short_length, long_length, final_byte, decode_frame_header_plain, decode_frame_header_masked,
  server_header-bytes, client_header-bytes,
}
use librcom.WebSocket.FrameStart.{final_header, short_length-lt, IsAnnounced, input_read_start_lem}
use librcom.WebSocket.Input.{
  socket_read, input_read_frame_header, input_read_payload_length, input_read_payload_mask,
  input_read_header, input_assert_valid_message, input_assert_mask_flag, input_assert_opcode,
  is_valid_opcode, input_assert_payload_length, input_read_payload, read_message,
}
use librcom.WebSocket.Output.{mask_blocks}
use librcom.WebSocket.Payload.{
  mask_blocks-apply_mask, unmasked, socket_read_prefix, input_read_payload_loop_lem,
}
use librcom.WebSocket.State.{Side, server, client, WebSocket, ok, ◌>>◌, pure, >>=-ok, >>-pure}

pub is_valid_opcode-opcode_value : (opcode : Opcode) → is_valid_opcode (opcode_value opcode) ≡ true
unfolding is_valid_opcode
is_valid_opcode-opcode_value continuation = refl
is_valid_opcode-opcode_value text = refl
is_valid_opcode-opcode_value binary = refl
is_valid_opcode-opcode_value close = refl
is_valid_opcode-opcode_value ping = refl
is_valid_opcode-opcode_value pong = refl

mask_flag_passes :
    {S : Type 0} (reader : Side) (opcode : Opcode) (n : ℕ) (w : WebSocket S)
    → let w' = record w { frame_header = final_header opcode reader n; input_message_length = n } in
      input_assert_mask_flag reader w' ≡ (ok tt, w')
unfolding input_assert_mask_flag
mask_flag_passes server opcode n w = refl
mask_flag_passes client opcode n w = refl

module _ {S : Type 0} (opcode : Opcode) (reader : Side) (n : ℕ) (w : WebSocket S) where
  -- The state when the header of such a frame has been read.
  abbrev with_header : WebSocket S
  with_header = record w { frame_header = final_header opcode reader n; input_message_length = n }

  input_assert_valid_message_lem :
      n ≤ maximum_payload_length
      → input_assert_valid_message reader with_header ≡ (ok tt, with_header)
  unfolding input_assert_valid_message input_assert_opcode input_assert_payload_length
  input_assert_valid_message_lem fits =
      >>=-ok (input_assert_mask_flag reader) _ (mask_flag_passes reader opcode n w)
      ∙ rw (is_valid_opcode-opcode_value opcode, le→ltb maximum_payload_length n fits) refl

module _ {S : Type 0} (env : Env S) (stream : IsStream env.socket)
    (order : IsNetworkOrder env.order) where
  open stream use {pending, advance, read_enough, pending-advance}

  -- What is left to do once the header is read: the checks pass and the payload is stored.
  read_message_after_header :
      (opcode : Opcode) (reader : Side) (n : ℕ) (raw rest : Bytes) (w : WebSocket S)
      → length raw ≡ n
      → n ≤ maximum_payload_length
      → pending w.socket ≡ raw ++ rest
      → let w' = with_header opcode reader n w in
        (s : S) × ((input_assert_valid_message reader >> input_read_payload env reader) w' ≡ (
          ok tt,
          record w' { socket = s; input_payload_buffer = unmasked reader w.input_mask raw },
        ))
        × (pending s ≡ rest)
  unfolding input_read_payload
  read_message_after_header opcode reader n raw rest w e fits p =
      let w' = with_header opcode reader n w in
      let (s, loop, after) =
        input_read_payload_loop_lem env stream reader n 0 n raw rest
          (record w' { input_payload_buffer = [] }) (omega arith) (omega arith) p in
      (
        s,
        >>=-ok (input_assert_valid_message reader) _
              (input_assert_valid_message_lem opcode reader n w fits)
            ∙ loop,
        after,
      )

  -- A server reads back what a client has written.
  pub read_message-client_frame :
      (opcode : Opcode) (m0 m1 m2 m3 : ℕ) (payload rest : Bytes) (w : WebSocket S)
      → IsAnnounced (length payload)
      → let mask = m0 ∷ m1 ∷ m2 ∷ m3 ∷ [] in
        pending w.socket
          ≡ client_header env.order opcode mask (length payload)
            ++ (mask_blocks (length payload) mask payload ++ rest)
        → (s : S) × (read_message env server w ≡ (
          ok tt,
          record w {
            socket = s;
            frame_header = final_header opcode server (length payload);
            input_message_length = length payload;
            input_mask = mask;
            input_payload_buffer = payload;
          },
        ))
          × (pending s ≡ rest)
  unfolding read_message input_read_header input_read_payload_mask
  read_message-client_frame opcode m0 m1 m2 m3 payload rest w announced p =
      let n = length payload in
      let mask : Bytes = m0 ∷ m1 ∷ m2 ∷ m3 ∷ [] in
      let masked = apply_mask mask payload in
      let body : mask_blocks n mask payload ≡ masked =
        mask_blocks-apply_mask n mask payload (omega arith) in
      let same : length masked ≡ n = length-apply_mask mask payload in
      let on_wire : pending w.socket
          ≡ final_byte opcode
            ∷ (128 + short_length n)
            ∷ (long_length n ++ (mask ++ (masked ++ rest))) =
        p
        ∙ rw
            (
              client_header-bytes env.order order opcode n (omega (arith, announced.0)) m0 m1 m2 m3,
              body,
            )
            (ap (λ t. final_byte opcode ∷ (128 + short_length n) ∷ t)
              (append_assoc (long_length n) mask (masked ++ rest))) in
      let (s1, start, after) =
        input_read_start_lem env stream order (input_read_payload_mask env) opcode server
          (128 + short_length n) n (mask ++ (masked ++ rest)) w
          (decode_frame_header_masked opcode (short_length n) (short_length-lt n)) announced
          on_wire in
      let w1 = record w {
        socket = s1;
        frame_header = final_header opcode server n;
        input_message_length = n;
      } in
      let (read, behind) = socket_read_prefix env stream mask (masked ++ rest) w1 after in
      let w2 = record w1 { socket = advance 4 s1; input_mask = mask } in
      let (s3, tail, done) =
        read_message_after_header opcode server n masked rest w2 same announced.0 behind in
      (
        s3,
        >>=-ok (input_read_header env server) _ (start ∙ >>=-ok (socket_read env 4) _ read)
            ∙ tail
            ∙ ap (λ t. (ok tt, record w2 { socket = s3; input_payload_buffer = t }))
                (apply_mask_twice mask payload),
        done,
      )

  -- A client reads back what a server has written.
  pub read_message-server_frame :
      (opcode : Opcode) (payload rest : Bytes) (w : WebSocket S)
      → IsAnnounced (length payload)
      → pending w.socket ≡ server_header env.order opcode (length payload) ++ (payload ++ rest)
      → (s : S) × (read_message env client w ≡ (
        ok tt,
        record w {
          socket = s;
          frame_header = final_header opcode client (length payload);
          input_message_length = length payload;
          input_payload_buffer = payload;
        },
      ))
        × (pending s ≡ rest)
  unfolding read_message input_read_header
  read_message-server_frame opcode payload rest w announced p =
      let n = length payload in
      let on_wire : pending w.socket
          ≡ final_byte opcode ∷ short_length n ∷ (long_length n ++ (payload ++ rest)) =
        p ∙ rw (server_header-bytes env.order order opcode n (omega (arith, announced.0))) refl in
      let (s1, start, after) =
        input_read_start_lem env stream order (pure tt) opcode client (short_length n) n
          (payload ++ rest) w
          (decode_frame_header_plain opcode (short_length n) (short_length-lt n)) announced
          on_wire in
      let w1 = record w {
        socket = s1;
        frame_header = final_header opcode client n;
        input_message_length = n;
      } in
      let (s3, tail, done) =
        read_message_after_header opcode client n payload rest w1 refl announced.0 after in
      let both : (input_read_frame_header env >> input_read_payload_length env) w
          ≡ (input_read_frame_header env >> (input_read_payload_length env >> pure tt)) w =
        ap (λ k. (input_read_frame_header env >> k) w)
          (sym (>>-pure (input_read_payload_length env))) in
      (s3, >>=-ok (input_read_header env client) _ (both ∙ start) ∙ tail, done)
