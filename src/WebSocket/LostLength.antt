-- ===== src/WebSocket/LostLength.antt =====
-- The one length that the header of a frame does not say: `data_length_65536` of
-- librcom/include/rcom/Frames.h is 65536, and both `output_append_header` write lengths up to it,
-- itself included, in 16 bits.
use librcom.Base.{◌≡◌, refl, ap, ◌∙◌, arith, true, false, [], ◌∷◌, ◌++◌, Bytes, length}
use librcom.Env.{Env, IsStream}
use librcom.HostOrder.{IsNetworkOrder}
use librcom.Frame.{Opcode, opcode_value, FrameHeader, server_header}
use librcom.Frame.Header.{final_byte, server_header-bytes, decode_frame_header_plain}
use librcom.WebSocket.FrameRead.{is_valid_opcode-opcode_value}
use librcom.WebSocket.FrameStart.{input_read_frame_header_lem, input_read_uint16_lem}
use librcom.WebSocket.Input.{
  input_read_frame_header, input_read_payload_length, payload_length_for, input_read_header,
  input_assert_valid_message, input_assert_mask_flag, input_assert_opcode,
  input_assert_payload_length, input_read_payload, input_read_payload_loop, read_message,
  input_read_uint16,
}
use librcom.WebSocket.Output.{make_message}
use librcom.WebSocket.RoundTrip.{make_message_lem}
use librcom.WebSocket.State.{server, client, WebSocket, ok, >>=-ok}

module _ {S : Type 0} (env : Env S) (stream : IsStream env.socket)
    (order : IsNetworkOrder env.order) where
  open stream use {pending}

  -- A message of 65536 bytes is lost. Over a socket that delivers what was sent in order, with the
  -- conversions of byte order of a host: a client takes the frame that a server makes of a payload
  -- of exactly 65536 bytes for an empty one, without an error, and the whole payload stays behind,
  -- to be read as the next frame.
  pub make_message-lost_length :
      (opcode : Opcode) (payload frame rest : Bytes) (v v' w : WebSocket S)
      → length payload ≡ 65536
      → make_message env server opcode payload v ≡ (ok frame, v')
      → pending w.socket ≡ frame ++ rest
      → (w' : WebSocket S) × (read_message env client w ≡ (ok tt, w'))
        × (w'.frame_header.fin ≡ true)
        × (w'.frame_header.opcode ≡ opcode_value opcode)
        × (w'.input_payload_buffer ≡ [])
        × (pending w'.socket ≡ payload ++ rest)
  unfolding read_message input_read_header input_read_payload_length payload_length_for
      input_read_payload input_read_payload_loop input_assert_valid_message input_assert_mask_flag
      input_assert_opcode input_assert_payload_length
  make_message-lost_length opcode payload frame rest v v' w size made p =
      let e : frame ≡ server_header env.order opcode (length payload) ++ payload =
        cc (made, make_message_lem env server opcode payload v) in
      let header : server_header env.order opcode (length payload)
          ≡ final_byte opcode ∷ 126 ∷ 0 ∷ 0 ∷ [] =
        ap (server_header env.order opcode) size
        ∙ server_header-bytes env.order order opcode 65536 (omega arith) in
      let on_wire : pending w.socket ≡ final_byte opcode ∷ 126 ∷ 0 ∷ 0 ∷ (payload ++ rest) =
        p ∙ rw (e, header) refl in
      let (s1, start, after) =
        input_read_frame_header_lem env stream order (final_byte opcode) 126
          (0 ∷ 0 ∷ (payload ++ rest)) w on_wire in
      let plain : FrameHeader = record {
        fin = true;
        opcode = opcode_value opcode;
        mask = false;
        payload_len = 126;
      } in
      let w1 = record w { socket = s1; frame_header = plain } in
      let (s2, long, last) =
        input_read_uint16_lem env stream order 0 (payload ++ rest) w1 (omega arith) after in
      let w2 = record w1 { socket = s2; input_message_length = 0 } in
      let decoded = decode_frame_header_plain opcode 126 (omega arith) in
      let begun : input_read_frame_header env w ≡ (ok tt, w1) =
        start ∙ ap (λ d. (ok tt, record w { socket = s1; frame_header = d })) decoded in
      let read : input_read_header env client w ≡ (ok tt, w2) =
        >>=-ok (input_read_frame_header env) _ begun ∙ >>=-ok (input_read_uint16 env) _ long in
      (
        record w2 { input_payload_buffer = [] },
        >>=-ok (input_read_header env client) _ read
            ∙ rw (is_valid_opcode-opcode_value opcode) refl,
        refl,
        refl,
        refl,
        last,
      )
