-- ===== src/WebSocket/CloseCode.antt =====
-- The code of a close frame: WebSocket.cpp `send_close_message` on one side against
-- `get_close_code` on the other.
use librcom.Base.{
  ℕ, ◌/◌, ◌%◌, ◌^◌, ◌<◌, ◌≡◌, refl, sym, ap, ◌∙◌, arith, [], ◌∷◌, ◌++◌, Bytes, length, true,
}
use librcom.Base.Bits.{bit_or-add}
use librcom.HostOrder.{IsNetworkOrder, be_bytes}
use librcom.Env.{Env, IsStream, IsSink, FillsMask}
use librcom.Frame.{close, uint16_bytes}
use librcom.Frame.Header.{uint16_bytes-htons}
use librcom.WebSocket.Close.{convert_to_uint16, get_close_code, send_close_message}
use librcom.WebSocket.FrameStart.{final_header}
use librcom.WebSocket.Input.{read_message}
use librcom.WebSocket.Output.{make_message}
use librcom.WebSocket.RoundTrip.{
  other, frame_bytes, made_state, make_message_lem, make_message-read_message,
}
use librcom.WebSocket.Sent.{socket_send_lem, sent-made_state}
use librcom.WebSocket.State.{Side, WebSocket, ok, ◌>>◌, >>=-ok}

convert_to_uint16-be_bytes : (n : ℕ) → n < 2 ^ 16 → convert_to_uint16 (be_bytes 2 n) ≡ n
unfolding convert_to_uint16
convert_to_uint16-be_bytes n lt = bit_or-add 8 (n / 256 % 256) (n % 256) (omega arith) ∙ omega arith

append-cancel : (xs ys zs : Bytes) → xs ++ ys ≡ xs ++ zs → ys ≡ zs
append-cancel [] ys zs e = e
append-cancel (x ∷ xs) ys zs e = append-cancel xs ys zs (cc e)

module _ {S : Type 0} (env : Env S) (stream : IsStream env.socket) (sink : IsSink env)
    (order : IsNetworkOrder env.order) (fills : FillsMask env) where
  open stream use {pending}
  open sink use {sent, accept, sent-accept}

  close_state :
      (writer : Side) (code : ℕ) (v : WebSocket S)
      → let v1 = made_state env writer v in
        let frame =
          frame_bytes env writer v1.output_mask close
            (uint16_bytes (env.order.htons (code % 2 ^ 16))) in
        send_close_message env writer code v
        ≡ (ok true, record v1 { socket = accept frame v1.socket })
  unfolding send_close_message
  close_state writer code v =
      let v1 = made_state env writer v in
      let payload = uint16_bytes (env.order.htons (code % 2 ^ 16)) in
      >>=-ok (make_message env writer close payload) _ (make_message_lem env writer close payload v)
      ∙ socket_send_lem env sink writer (frame_bytes env writer v1.output_mask close payload) v1

  -- A close frame arrives with its code. Over a socket whose writes succeed and that delivers what
  -- was sent in order, with the conversions of byte order of a host and a random source that gives
  -- four bytes: `send_close_message` of a code below 2^16 succeeds, and when the frame that it has
  -- written is next in what the other side has to read, that side reads a close frame to its last
  -- byte, in which `get_close_code` finds the code that was sent.
  pub send_close_message-get_close_code :
      (writer : Side) (code : ℕ) (frame rest : Bytes) (v w : WebSocket S)
      → code < 2 ^ 16
      → sent (send_close_message env writer code v).1.socket ≡ sent v.socket ++ frame
      → pending w.socket ≡ frame ++ rest
      → ((send_close_message env writer code v).0 ≡ ok true)
        × (w' : WebSocket S) × ((read_message env (other writer) >> get_close_code) w ≡ (ok tt, w'))
        × (w'.frame_header ≡ final_header close (other writer) 2)
        × (w'.remote_close_reason ≡ code)
        × (pending w'.socket ≡ rest)
  unfolding get_close_code uint16_bytes
  send_close_message-get_close_code writer code frame rest v w lt wrote p =
      let state = close_state writer code v in
      let v1 = made_state env writer v in
      let payload = uint16_bytes (env.order.htons (code % 2 ^ 16)) in
      let small : code % 2 ^ 16 ≡ code = omega arith in
      let same : payload ≡ be_bytes 2 code =
        ap (λ c. uint16_bytes (env.order.htons c)) small
        ∙ uint16_bytes-htons env.order order code lt in
      let made = frame_bytes env writer v1.output_mask close payload in
      let e : frame ≡ made = append-cancel (sent v.socket) frame made (
        sym wrote
        ∙ ap (λ r. sent r.1.socket) state
        ∙ sent-accept made v1.socket
        ∙ ap (λ t. t ++ made) (sent-made_state env sink writer v)) in
      let (w1, read, header, stored, after) =
        make_message-read_message env stream order fills writer close payload frame rest v v1 w
          (omega arith, omega arith)
          (make_message_lem env writer close payload v ∙ ap (λ t. (ok t, v1)) (sym e)) p in
      let two : length w1.input_payload_buffer ≡ 2 = ap length stored in
      let found : convert_to_uint16 w1.input_payload_buffer ≡ code =
        ap convert_to_uint16 (stored ∙ same) ∙ convert_to_uint16-be_bytes code lt in
      (
        ap (λ r. r.0) state,
        _,
        >>=-ok (read_message env (other writer)) _ read,
        header,
        rw (two, found) refl,
        after,
      )
