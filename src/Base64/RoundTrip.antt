-- ===== src/Base64/RoundTrip.antt =====
-- What `encode_base64` writes is read back by the decoder of RFC 4648.
use librcom.Base.{ℕ, ◌+◌, ◌*◌, ◌/◌, ◌%◌, ◌<◌, ◌≡◌, refl, arith, [], ◌∷◌, ◌∙◌, IsBytes, Bytes}
use librcom.Base64.{encode_base64}
use librcom.Base64.Decode.{digits_of}
use librcom.Base64.Decode.{
  first_byte, second_byte, third_byte, decode_base64, decode-full, decode-two, decode-one,
}

-- The bytes that these numbers stand for.
bytes_of :
    (a b c : ℕ)
    → b < 256
    → c < 256
    → (first_byte (a / 4) (a % 4 * 16 + b / 16) ≡ a)
      × (second_byte (a % 4 * 16 + b / 16) (b % 16 * 4 + c / 64) ≡ b)
      × (third_byte (b % 16 * 4 + c / 64) (c % 64) ≡ c)
bytes_of a b c hb hc = (omega arith, omega arith, omega arith)

-- Whatever bytes are encoded, a decoder written after RFC 4648 gives them back.
pub decode-encode_base64 :
    (input : Bytes) → IsBytes input → decode_base64 (encode_base64 input) ≡ input
unfolding encode_base64 decode_base64
decode-encode_base64 [] h = refl
decode-encode_base64 (a ∷ []) h =
    let (d3, d2, d1, d0) = digits_of a 0 0 h.0 (omega arith) (omega arith) in
    let (first, second, third) = bytes_of a 0 0 (omega arith) (omega arith) in
    rw (d3, d2)
      (decode-one (a / 4) (a % 4 * 16 + 0 / 16) (omega arith) (omega arith) ∙ rw first refl)
decode-encode_base64 (a ∷ b ∷ []) h =
    let (d3, d2, d1, d0) = digits_of a b 0 h.0 h.1.0 (omega arith) in
    let (first, second, third) = bytes_of a b 0 h.1.0 (omega arith) in
    rw (d3, d2, d1)
      (decode-two (a / 4) (a % 4 * 16 + b / 16) (b % 16 * 4 + 0 / 64) (omega arith) (omega arith)
          (omega arith)
        ∙ rw (first, second) refl)
decode-encode_base64 (a ∷ b ∷ c ∷ rest) h =
    let (d3, d2, d1, d0) = digits_of a b c h.0 h.1.0 h.1.1.0 in
    let (first, second, third) = bytes_of a b c h.1.0 h.1.1.0 in
    rw (d3, d2, d1, d0)
      (decode-full (a / 4) (a % 4 * 16 + b / 16) (b % 16 * 4 + c / 64) (c % 64) (encode_base64 rest)
          (omega arith) (omega arith) (omega arith) (omega arith)
        ∙ rw (first, second, third, decode-encode_base64 rest h.1.1.1) refl)
