-- ===== src/WebSocket/Fragments.antt =====
-- A message that comes in several frames: WebSocket.cpp `process_message` on the frames of one
-- message, one after the other.
use librcom.Base.{
  ℕ, ◌+◌, ◌≤◌, ◌≡◌, refl, sym, ap, ◌∙◌, arith, Bool, true, false, not, List, [], ◌∷◌, ◌++◌,
  append_assoc, Bytes, length, length-append, le→ltb,
}
use librcom.Env.{Env}
use librcom.Frame.{continuation, opcode_value, maximum_message_length}
use librcom.WebSocket.Output.{MessageType, text_message, binary_message, message_opcode}
use librcom.WebSocket.Recv.{
  RecvStatus, recv_text, recv_binary, is_control_opcode, is_data_opcode, is_data_message_complete,
  has_complete_data_message, get_message_type, assert_continuation, assert_message_length,
  set_payload_type, copy_payload, prepare_continuation, handle_data_payload, process_message,
}
use librcom.WebSocket.State.{Side, WebSocket, M, ok, ◌>>◌, modify, >>=-ok}

-- The payloads of the frames before the last.
abbrev pub concat : List Bytes → Bytes
concat [] = []
concat (p ∷ ps) = p ++ concat ps

module _ {S : Type 0} (env : Env S) (side : Side) where
  -- A frame has been read.
  abbrev pub arrived : ℕ → Bool → Bytes → WebSocket S → WebSocket S
  arrived opcode fin payload w = record w {
    frame_header = record w.frame_header { opcode = opcode; fin = fin };
    input_payload_buffer = payload;
  }

  -- The frames of one message, each handled when it has been read. The first has the opcode of
  -- the message, and only the last is final.
  abbrev pub process_frames : ℕ → List Bytes → Bytes → M S (Unit {0})
  process_frames opcode [] last = do modify (arrived opcode true last); process_message env side
  process_frames opcode (p ∷ ps) last = do
    modify (arrived opcode false p)
    process_message env side
    process_frames (opcode_value continuation) ps last

  process_continuation :
      (fin : Bool) (payload : Bytes) (w : WebSocket S)
      → w.is_continuation ≡ true
      → length payload + length w.message ≤ maximum_message_length
      → let w' = arrived (opcode_value continuation) fin payload w in
        process_message env side w'
        ≡ (ok tt, record w' { message = w.message ++ payload; is_continuation = not fin })
  unfolding process_message handle_data_payload assert_continuation assert_message_length
      set_payload_type copy_payload prepare_continuation is_control_opcode is_data_opcode
  process_continuation fin payload w continues fits =
      rw (continues, le→ltb maximum_message_length (length payload + length w.message) fits) refl

  -- The state after the frames of a message.
  abbrev pub IsAssembled : RecvStatus → Bytes → WebSocket S → WebSocket S → Type 0
  IsAssembled status message w w' =
      (w'.message ≡ message)
      × (get_message_type w' ≡ status)
      × (has_complete_data_message w' ≡ true)
      × (w'.is_continuation ≡ false)
      × (w'.socket ≡ w.socket)

  continue_frames :
      (ps : List Bytes) (last : Bytes) (w : WebSocket S)
      → w.is_continuation ≡ true
      → length w.message + length (concat ps ++ last) ≤ maximum_message_length
      → (w' : WebSocket S) × (process_frames (opcode_value continuation) ps last w ≡ (ok tt, w'))
        × IsAssembled (get_message_type w) (w.message ++ (concat ps ++ last)) w w'
  unfolding get_message_type has_complete_data_message is_data_opcode is_data_message_complete
  continue_frames [] last w continues fits =
      (_, process_continuation true last w continues (omega arith), (refl, refl, refl, refl, refl))
  continue_frames (p ∷ ps) last w continues fits =
      let v = arrived (opcode_value continuation) false p w in
      let w1 = record v { message = w.message ++ p; is_continuation = true } in
      let split = append_assoc p (concat ps) last in
      let sizes = length-append p (concat ps ++ last) in
      let (w', rest, (whole, status, complete, idle, same)) =
        continue_frames ps last w1 refl
          (omega (arith, length-append w.message p, sizes, ap length split)) in
      (
        w',
        >>=-ok (process_message env side) _
              (process_continuation false p w continues (omega (arith, sizes, ap length split)))
            ∙ rest,
        (
          whole
              ∙ append_assoc w.message p (concat ps ++ last)
              ∙ ap (λ t. w.message ++ t) (sym split),
          status,
          complete,
          idle,
          same,
        ),
      )

  -- The status of a message by its type.
  abbrev pub type_status : MessageType → RecvStatus
  type_status text_message = recv_text
  type_status binary_message = recv_binary

  -- The state after the first frame.
  abbrev first_handled : MessageType → Bool → Bytes → WebSocket S → WebSocket S
  first_handled type fin payload w =
      record (arrived (opcode_value (message_opcode type)) fin payload w) {
        is_text = elim type [ text_message ↦ true | binary_message ↦ false ];
        message = payload;
        is_continuation = not fin;
      }

  process_first :
      (type : MessageType) (fin : Bool) (payload : Bytes) (w : WebSocket S)
      → w.is_continuation ≡ false
      → length payload ≤ maximum_message_length
      → process_message env side (arrived (opcode_value (message_opcode type)) fin payload w)
        ≡ (ok tt, first_handled type fin payload w)
  unfolding process_message handle_data_payload assert_continuation assert_message_length
      set_payload_type copy_payload prepare_continuation is_control_opcode is_data_opcode
  process_first text_message fin payload w fresh fits =
      rw (fresh, le→ltb maximum_message_length (length payload) fits) refl
  process_first binary_message fin payload w fresh fits =
      rw (fresh, le→ltb maximum_message_length (length payload) fits) refl

  first_status :
      (type : MessageType) (fin : Bool) (payload : Bytes) (w : WebSocket S)
      → get_message_type (first_handled type fin payload w) ≡ type_status type
  unfolding get_message_type
  first_status text_message fin payload w = refl
  first_status binary_message fin payload w = refl

  first_complete :
      (type : MessageType) (payload : Bytes) (w : WebSocket S)
      → has_complete_data_message (first_handled type true payload w) ≡ true
  unfolding has_complete_data_message is_data_opcode is_data_message_complete
  first_complete text_message payload w = refl
  first_complete binary_message payload w = refl

  -- Frames of data that `process_message` handles one directly after the other, with no other
  -- frame, wait or call of `recv` between them, are put together: when a websocket that is not in
  -- the middle of a message handles the first frame of a text or binary message, any number of
  -- continuations and the final one, of at most 128 MB altogether, no frame is refused, the
  -- message is the payloads one behind the other with the type of the first frame, it is complete,
  -- the websocket is ready for the next, and the state of its socket is what it was.
  pub process_frames-concat :
      (type : MessageType) (ps : List Bytes) (last : Bytes) (w : WebSocket S)
      → w.is_continuation ≡ false
      → length (concat ps ++ last) ≤ maximum_message_length
      → (w' : WebSocket S) × (process_frames (opcode_value (message_opcode type)) ps last w
          ≡ (ok tt, w'))
        × IsAssembled (type_status type) (concat ps ++ last) w w'
  process_frames-concat type [] last w fresh fits = (
    _,
    process_first type true last w fresh fits,
    (refl, first_status type true last w, first_complete type last w, refl, refl),
  )
  process_frames-concat type (p ∷ ps) last w fresh fits =
      let split = append_assoc p (concat ps) last in
      let sizes = length-append p (concat ps ++ last) in
      let w1 = first_handled type false p w in
      let first = process_first type false p w fresh (omega (arith, sizes, ap length split)) in
      let (w', rest, (whole, status, complete, idle, same)) =
        continue_frames ps last w1 refl (omega (arith, sizes, ap length split)) in
      (
        w',
        >>=-ok (process_message env side) _ first ∙ rest,
        (whole ∙ sym split, status ∙ first_status type false p w, complete, idle, same),
      )
