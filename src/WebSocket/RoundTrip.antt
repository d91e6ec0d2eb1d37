-- ===== src/WebSocket/RoundTrip.antt =====
-- `make_message` on one side against `read_message` on the other.
use librcom.Base.{◌≡◌, refl, sym, ap, ◌∙◌, arith, [], ◌∷◌, ◌++◌, append_assoc, length, Bytes}
use librcom.Env.{Env, IsStream, FillsMask}
use librcom.HostOrder.{IsNetworkOrder}
use librcom.Frame.{Opcode, client_header, server_header}
use librcom.WebSocket.FrameRead.{read_message-client_frame, read_message-server_frame}
use librcom.WebSocket.FrameStart.{IsAnnounced, final_header}
use librcom.WebSocket.Input.{read_message}
use librcom.WebSocket.Output.{
  make_message, output_append_header, output_append_payload, mask_blocks,
}
use librcom.WebSocket.State.{Side, server, client, WebSocket, ok}

abbrev pub other : Side → Side
other server = client
other client = server

module _ {S : Type 0} (env : Env S) where
  -- The frame that `make_message` makes, by the four bytes of the mask.
  abbrev pub frame_bytes : Side → Bytes → Opcode → Bytes → Bytes
  frame_bytes server mask opcode payload =
      server_header env.order opcode (length payload) ++ payload
  frame_bytes client mask opcode payload =
      client_header env.order opcode mask (length payload)
      ++ mask_blocks (length payload) mask payload

  -- The state after it, and the mask that it has made.
  abbrev pub made_state : Side → WebSocket S → WebSocket S
  made_state server v = v
  made_state client v = record v {
    socket = (env.linux.getrandom 4 v.socket).1;
    output_mask = (env.linux.getrandom 4 v.socket).0;
  }

  pub make_message_lem :
      (writer : Side) (opcode : Opcode) (payload : Bytes) (v : WebSocket S)
      → make_message env writer opcode payload v ≡ (
        ok (frame_bytes writer (made_state writer v).output_mask opcode payload),
        made_state writer v,
      )
  unfolding make_message output_append_header output_append_payload
  make_message_lem server opcode payload v = refl
  make_message_lem client opcode payload v = refl

module _ {S : Type 0} (env : Env S) (stream : IsStream env.socket)
    (order : IsNetworkOrder env.order) (fills : FillsMask env) where
  open stream use {pending}

  frame_read :
      (writer : Side) (mask : Bytes) (opcode : Opcode) (payload rest : Bytes) (w : WebSocket S)
      → length mask ≡ 4
      → IsAnnounced (length payload)
      → pending w.socket ≡ frame_bytes env writer mask opcode payload ++ rest
      → (w' : WebSocket S) × (read_message env (other writer) w ≡ (ok tt, w'))
        × (w'.frame_header ≡ final_header opcode (other writer) (length payload))
        × (w'.input_payload_buffer ≡ payload)
        × (pending w'.socket ≡ rest)
  frame_read server mask opcode payload rest w e announced p =
      let (s, read, after) =
        read_message-server_frame env stream order opcode payload rest w announced
          (p ∙ append_assoc (server_header env.order opcode (length payload)) payload rest) in
      (_, read, refl, refl, after)
  frame_read client (m0 ∷ m1 ∷ m2 ∷ m3 ∷ []) opcode payload rest w e announced p =
      let (s, read, after) =
        read_message-client_frame env stream order opcode m0 m1 m2 m3 payload rest w announced (
          p
          ∙ append_assoc (client_header env.order opcode (m0 ∷ m1 ∷ m2 ∷ m3 ∷ []) (length payload))
              (mask_blocks (length payload) (m0 ∷ m1 ∷ m2 ∷ m3 ∷ []) payload) rest) in
      (_, read, refl, refl, after)
  frame_read client _ opcode payload rest w e announced p = absurd (omega arith)

  -- What one side makes, the other reads. Over a socket that delivers what was sent in order, with
  -- the conversions of byte order of a host and a random source that gives four bytes: a frame
  -- with any payload of at most 128 MB that is not exactly 65536 bytes long, made by either side
  -- and next in what the other has to read, is read with its opcode, as final, with its payload
  -- unmasked, and up to its last byte and no further.
  pub make_message-read_message :
      (writer : Side) (opcode : Opcode) (payload frame rest : Bytes) (v v' w : WebSocket S)
      → IsAnnounced (length payload)
      → make_message env writer opcode payload v ≡ (ok frame, v')
      → pending w.socket ≡ frame ++ rest
      → (w' : WebSocket S) × (read_message env (other writer) w ≡ (ok tt, w'))
        × (w'.frame_header ≡ final_header opcode (other writer) (length payload))
        × (w'.input_payload_buffer ≡ payload)
        × (pending w'.socket ≡ rest)
  make_message-read_message server opcode payload frame rest v v' w announced made p =
      let e : frame_bytes env server v.output_mask opcode payload ≡ frame =
        cc (make_message_lem env server opcode payload v) in
      frame_read server (0 ∷ 0 ∷ 0 ∷ 0 ∷ []) opcode payload rest w refl announced
        (p ∙ ap (λ t. t ++ rest) (sym e))
  make_message-read_message client opcode payload frame rest v v' w announced made p =
      let mask = (env.linux.getrandom 4 v.socket).0 in
      let e : frame_bytes env client mask opcode payload ≡ frame =
        cc (make_message_lem env client opcode payload v) in
      frame_read client mask opcode payload rest w (fills v.socket) announced
        (p ∙ ap (λ t. t ++ rest) (sym e))
