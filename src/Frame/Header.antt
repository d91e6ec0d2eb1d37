-- ===== src/Frame/Header.antt =====
-- What the bytes of a header are, and how the first two are read back.
use mathlib.Core.Path.{ap₂}
use librcom.Base.{
  ℕ, ◌+◌, ◌*◌, ◌/◌, ◌%◌, ◌^◌, ◌<◌, ◌≡◌, refl, ap, ◌∙◌, arith, Bool, true, false, not, ◌&&◌, [], ◌∷◌,
  ◌++◌, bit_and, bit_or, ltb, leb, ◌==◌, if◌then◌else◌, Bytes, Bool-cases, inl, inr,
}
use librcom.Base.Bits.{bit_and_ones, bit_and-shift, every_below, every_below_holds}
use librcom.HostOrder.{
  HostOrder, IsNetworkOrder, le_value, le_bytes, be_bytes, le_bytes-le_value, be_value-be_bytes,
  be_bytes-IsBytes, length-be_bytes,
}
use librcom.Frame.{
  Opcode, continuation, text, binary, close, ping, pong, opcode_value, decode_frame_header,
  uint16_bytes, uint64_bytes, server_header, client_header,
}

bit_and_byte : (k m n : ℕ) → m ≡ 255 * 2 ^ k → bit_and n m / 2 ^ k ≡ n / 2 ^ k % 256
bit_and_byte k m n e = rw e (bit_and-shift k n 255 ∙ bit_and_ones 8 255 (n / 2 ^ k) refl)

uint16_bytes-le_bytes : (n : ℕ) → uint16_bytes n ≡ le_bytes 2 n
unfolding uint16_bytes
uint16_bytes-le_bytes n =
    ap₂ (λ a b. a ∷ b ∷ []) (bit_and_ones 8 255 n refl) (bit_and_byte 8 0xff00 n refl)

uint64_bytes-le_bytes : (n : ℕ) → uint64_bytes n ≡ le_bytes 8 n
unfolding uint64_bytes
uint64_bytes-le_bytes n = ground (
  arith,
  bit_and_ones 8 255 n refl,
  bit_and_byte 8 0xff00 n refl,
  bit_and_byte 16 0xff0000 n refl,
  bit_and_byte 24 0xff000000 n refl,
  bit_and_byte 32 0xff00000000 n refl,
  bit_and_byte 40 0xff0000000000 n refl,
  bit_and_byte 48 0xff000000000000 n refl,
  bit_and_byte 56 0xff00000000000000 n refl,
)

module _ (h : HostOrder) (order : IsNetworkOrder h) where
  -- A 16-bit length goes out high byte first.
  pub uint16_bytes-htons : (n : ℕ) → n < 2 ^ 16 → uint16_bytes (h.htons n) ≡ be_bytes 2 n
  uint16_bytes-htons n lt =
      let sent = order.htons_bytes (be_bytes 2 n) (be_bytes-IsBytes 2 n) (length-be_bytes 2 n) in
      let swapped : h.htons n ≡ le_value (be_bytes 2 n) = rw (be_value-be_bytes 2 n lt) at sent in
      uint16_bytes-le_bytes (h.htons n)
      ∙ ap (le_bytes 2) swapped
      ∙ le_bytes-le_value (be_bytes 2 n) (be_bytes-IsBytes 2 n)

  -- A 64-bit length goes out high byte first.
  pub uint64_bytes-htobe64 : (n : ℕ) → n < 2 ^ 64 → uint64_bytes (h.htobe64 n) ≡ be_bytes 8 n
  uint64_bytes-htobe64 n lt =
      let sent = order.htobe64_bytes (be_bytes 8 n) (be_bytes-IsBytes 8 n) (length-be_bytes 8 n) in
      let swapped : h.htobe64 n ≡ le_value (be_bytes 8 n) = rw (be_value-be_bytes 8 n lt) at sent in
      uint64_bytes-le_bytes (h.htobe64 n)
      ∙ ap (le_bytes 8) swapped
      ∙ le_bytes-le_value (be_bytes 8 n) (be_bytes-IsBytes 8 n)

  -- And is read back: the memory of the variable, in the order of the host.
  pub ntohs-be_bytes : (n : ℕ) → n < 2 ^ 16 → h.ntohs (le_value (be_bytes 2 n)) ≡ n
  ntohs-be_bytes n lt =
      order.ntohs_bytes (be_bytes 2 n) (be_bytes-IsBytes 2 n) (length-be_bytes 2 n)
      ∙ be_value-be_bytes 2 n lt

  pub be64toh-be_bytes : (n : ℕ) → n < 2 ^ 64 → h.be64toh (le_value (be_bytes 8 n)) ≡ n
  be64toh-be_bytes n lt =
      order.be64toh_bytes (be_bytes 8 n) (be_bytes-IsBytes 8 n) (length-be_bytes 8 n)
      ∙ be_value-be_bytes 8 n lt

-- The field of the header that announces a payload of `n` bytes, before any 16 or 64 bit length.
abbrev pub short_length : ℕ → ℕ
short_length n = if ltb n 126 then n else if leb n 65536 then 126 else 127

-- The length that follows it.
abbrev pub long_length : ℕ → Bytes
long_length n =
    if ltb n 126 then [] else if leb n 65536 then be_bytes 2 (n % 2 ^ 16) else be_bytes 8 n

abbrev pub final_byte : Opcode → ℕ
final_byte opcode = 128 + opcode_value opcode

final_byte_or : (opcode : Opcode) → bit_or 0x80 (opcode_value opcode) ≡ final_byte opcode
final_byte_or continuation = refl
final_byte_or text = refl
final_byte_or binary = refl
final_byte_or close = refl
final_byte_or ping = refl
final_byte_or pong = refl

mask_flag_table : every_below (λ x. bit_or 0x80 x == 128 + x) 128 ≡ true
unfolding every_below
mask_flag_table = refl

mask_flag : (x : ℕ) → x < 128 → bit_or 0x80 x ≡ 128 + x
mask_flag x lt =
    ground (arith, every_below_holds (λ y. bit_or 0x80 y == 128 + y) 128 x lt mask_flag_table)

module _ (h : HostOrder) (order : IsNetworkOrder h) (opcode : Opcode) (n : ℕ)
    (bounded : n < 2 ^ 64) where
  short_mask : ltb n 126 ≡ true → bit_and n 0x7f ≡ n
  short_mask short = bit_and_ones 7 0x7f n refl ∙ ground arith

  -- The bytes of the server's header, with no bit operations.
  pub server_header-bytes :
      server_header h opcode n ≡ final_byte opcode ∷ short_length n ∷ long_length n
  unfolding server_header
  server_header-bytes = elim (Bool-cases (ltb n 126)) [
    | inl short ↦ rw (short, final_byte_or opcode, short_mask short) refl
    | inr long ↦ elim (Bool-cases (leb n 65536)) [
      | inl medium ↦
          rw
            (
              long,
              medium,
              final_byte_or opcode,
              uint16_bytes-htons h order (n % 2 ^ 16) (omega arith),
            )
            refl
      | inr huge ↦
          rw (long, huge, final_byte_or opcode, uint64_bytes-htobe64 h order n bounded) refl
    ]
  ]

  -- The bytes of the client's header.
  pub client_header-bytes :
      (m0 m1 m2 m3 : ℕ)
      → client_header h opcode (m0 ∷ m1 ∷ m2 ∷ m3 ∷ []) n
        ≡ final_byte opcode ∷ (128 + short_length n) ∷ (long_length n ++ (m0 ∷ m1 ∷ m2 ∷ m3 ∷ []))
  unfolding client_header
  client_header-bytes m0 m1 m2 m3 = elim (Bool-cases (ltb n 126)) [
    | inl short ↦
        rw (short, final_byte_or opcode, short_mask short, mask_flag n (ground arith)) refl
    | inr long ↦ elim (Bool-cases (leb n 65536)) [
      | inl medium ↦
          rw
            (
              long,
              medium,
              final_byte_or opcode,
              uint16_bytes-htons h order (n % 2 ^ 16) (omega arith),
            )
            refl
      | inr huge ↦
          rw (long, huge, final_byte_or opcode, uint64_bytes-htobe64 h order n bounded) refl
    ]
  ]

first_fields :
    (opcode : Opcode)
    → (not (bit_and (final_byte opcode) 0x80 == 0) ≡ true)
      × (bit_and (final_byte opcode) 0x0f ≡ opcode_value opcode)
first_fields continuation = (refl, refl)
first_fields text = (refl, refl)
first_fields binary = (refl, refl)
first_fields close = (refl, refl)
first_fields ping = (refl, refl)
first_fields pong = (refl, refl)

plain_fields : ℕ → Bool
plain_fields x = (bit_and x 0x80 == 0) && (bit_and x 0x7f == x)

plain_table : every_below plain_fields 128 ≡ true
unfolding every_below plain_fields
plain_table = refl

masked_fields : ℕ → Bool
masked_fields x = not (bit_and (128 + x) 0x80 == 0) && (bit_and (128 + x) 0x7f == x)

masked_table : every_below masked_fields 128 ≡ true
unfolding every_below masked_fields
masked_table = refl

-- The first two bytes of such a header are read as what was meant.
pub decode_frame_header_plain :
    (opcode : Opcode) (x : ℕ)
    → x < 128
    → decode_frame_header (final_byte opcode) x
      ≡ record { fin = true; opcode = opcode_value opcode; mask = false; payload_len = x }
unfolding decode_frame_header plain_fields
decode_frame_header_plain opcode x lt =
    ground (arith, first_fields opcode, every_below_holds plain_fields 128 x lt plain_table)

pub decode_frame_header_masked :
    (opcode : Opcode) (x : ℕ)
    → x < 128
    → decode_frame_header (final_byte opcode) (128 + x)
      ≡ record { fin = true; opcode = opcode_value opcode; mask = true; payload_len = x }
unfolding decode_frame_header masked_fields
decode_frame_header_masked opcode x lt =
    ground (arith, first_fields opcode, every_below_holds masked_fields 128 x lt masked_table)
