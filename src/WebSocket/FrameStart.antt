-- ===== src/WebSocket/FrameStart.antt =====
-- The start of a frame: the header and the length that `input_read_header` reads first, against those
-- that `output_append_header` writes.
use librcom.Base.{
  ℕ, ◌%◌, ◌^◌, ◌≤◌, ◌<◌, ◌≡◌, ◌≢◌, refl, ap, ◌∙◌, arith, [], ◌∷◌, ◌++◌, true, false, Bool-cases,
  inl, inr, ltb, leb, Bytes,
}
use librcom.Env.{Env, IsStream}
use librcom.HostOrder.{IsNetworkOrder, be_bytes}
use librcom.Frame.{Opcode, opcode_value, FrameHeader, maximum_payload_length, decode_frame_header}
use librcom.Frame.Header.{short_length, long_length, final_byte, ntohs-be_bytes, be64toh-be_bytes}
use librcom.WebSocket.Input.{
  socket_read, input_read_frame_header, input_read_payload_length, payload_length_for,
  input_read_uint16, input_read_uint64,
}
use librcom.WebSocket.Payload.{socket_read_prefix}
use librcom.WebSocket.State.{Side, server, client, WebSocket, M, ok, ◌>>◌, >>=-ok}

-- What the header of a final frame with a payload of `n` bytes says to its reader.
abbrev pub final_header : Opcode → Side → ℕ → FrameHeader
final_header opcode reader n = record {
  fin = true;
  opcode = opcode_value opcode;
  mask = elim reader [ server ↦ true | client ↦ false ];
  payload_len = short_length n;
}

pub short_length-lt : (n : ℕ) → short_length n < 128
short_length-lt n = ground arith

-- The lengths that a header can say, of those that a reader accepts: 65536 is written as 0.
abbrev pub IsAnnounced : ℕ → Type 0
IsAnnounced n = (n ≤ maximum_payload_length) × (n ≢ 65536)

module _ {S : Type 0} (env : Env S) (stream : IsStream env.socket)
    (order : IsNetworkOrder env.order) where
  open stream use {pending, advance, read_enough, pending-advance}

  pub input_read_uint16_lem :
      (n : ℕ) (rest : Bytes) (w : WebSocket S)
      → n < 2 ^ 16
      → pending w.socket ≡ be_bytes 2 n ++ rest
      → (s : S) × (input_read_uint16 env w ≡ (ok n, record w { socket = s })) × (pending s ≡ rest)
  unfolding input_read_uint16
  input_read_uint16_lem n rest w lt p =
      let (read, after) = socket_read_prefix env stream (be_bytes 2 n) rest w p in
      (
        advance 2 w.socket,
        >>=-ok (socket_read env 2) _ read
            ∙ ap (λ m. (ok m, record w { socket = advance 2 w.socket }))
                (ntohs-be_bytes env.order order n lt),
        after,
      )

  input_read_uint64_lem :
      (n : ℕ) (rest : Bytes) (w : WebSocket S)
      → n < 2 ^ 64
      → pending w.socket ≡ be_bytes 8 n ++ rest
      → (s : S) × (input_read_uint64 env w ≡ (ok n, record w { socket = s })) × (pending s ≡ rest)
  unfolding input_read_uint64
  input_read_uint64_lem n rest w lt p =
      let (read, after) = socket_read_prefix env stream (be_bytes 8 n) rest w p in
      (
        advance 8 w.socket,
        >>=-ok (socket_read env 8) _ read
            ∙ ap (λ m. (ok m, record w { socket = advance 8 w.socket }))
                (be64toh-be_bytes env.order order n lt),
        after,
      )

  pub payload_length_for_lem :
      (n : ℕ) (rest : Bytes) (w : WebSocket S)
      → IsAnnounced n
      → pending w.socket ≡ long_length n ++ rest
      → (s : S) × (payload_length_for env (short_length n) w
          ≡ (ok tt, record w { socket = s; input_message_length = n }))
        × (pending s ≡ rest)
  unfolding payload_length_for
  payload_length_for_lem n rest w announced p = elim (Bool-cases (ltb n 126)) [
    | inl short ↦ (w.socket, rw (short, short) refl, rw short at p)
    | inr long ↦ elim (Bool-cases (leb n 65536)) [
      | inl medium ↦
          let fits : n < 2 ^ 16 = ground arith in
          let same : n % 2 ^ 16 ≡ n = omega arith in
          let (s, read, after) =
            input_read_uint16_lem n rest w fits (rw (long, medium, same) at p) in
          (s, rw (long, medium) (>>=-ok (input_read_uint16 env) _ read), after)
      | inr huge ↦
          let (s, read, after) =
            input_read_uint64_lem n rest w (omega arith) (rw (long, huge) at p) in
          (s, rw (long, huge) (>>=-ok (input_read_uint64 env) _ read), after)
    ]
  ]

  pub input_read_frame_header_lem :
      (b0 b1 : ℕ) (rest : Bytes) (w : WebSocket S)
      → pending w.socket ≡ b0 ∷ b1 ∷ rest
      → (s : S) × (input_read_frame_header env w
          ≡ (ok tt, record w { socket = s; frame_header = decode_frame_header b0 b1 }))
        × (pending s ≡ rest)
  unfolding input_read_frame_header
  input_read_frame_header_lem b0 b1 rest w p =
      let (read, after) = socket_read_prefix env stream (b0 ∷ b1 ∷ []) rest w p in
      (advance 2 w.socket, >>=-ok (socket_read env 2) _ read, after)

  -- The frame header and the length of a frame, whatever stands behind them.
  pub input_read_start_lem :
      (k : M S (Unit {0})) (opcode : Opcode) (reader : Side) (b1 n : ℕ) (rest : Bytes)
      (w : WebSocket S)
      → decode_frame_header (final_byte opcode) b1 ≡ final_header opcode reader n
      → IsAnnounced n
      → pending w.socket ≡ final_byte opcode ∷ b1 ∷ (long_length n ++ rest)
      → (s : S) × ((input_read_frame_header env >> (input_read_payload_length env >> k)) w
          ≡ k (record w {
            socket = s;
            frame_header = final_header opcode reader n;
            input_message_length = n;
          }))
        × (pending s ≡ rest)
  unfolding input_read_payload_length
  input_read_start_lem k opcode reader b1 n rest w decoded announced p =
      let (s1, start, after) =
        input_read_frame_header_lem (final_byte opcode) b1 (long_length n ++ rest) w p in
      let (s2, long, last) =
        payload_length_for_lem n rest
          (record w { socket = s1; frame_header = final_header opcode reader n }) announced after in
      (
        s2,
        >>=-ok (input_read_frame_header env) _ start
            ∙ ap
                (λ d.
                  (input_read_payload_length env >> k) (record w { socket = s1; frame_header = d }))
                decoded
            ∙ >>=-ok (input_read_payload_length env) _ long,
        last,
      )
