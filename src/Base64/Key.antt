-- ===== src/Base64/Key.antt =====
-- What `encode_base64` writes passes the tests that a websocket makes of a key.
use librcom.Base.{
  ℕ, zero, suc, ◌+◌, ◌*◌, ◌/◌, ◌%◌, ◌<◌, ◌≡◌, refl, arith, true, [], ◌∷◌, ◌∙◌, IsBytes, Bytes,
  length, All,
}
use librcom.Base64.{digit, packed, table, encode_base64}
use librcom.Base64.Decode.{digits_of, table-Letter}
use librcom.Http.Request.{
  is_base64_char, matches_padding, matches_base64, is_base64_string, char_at,
  is_valid_websocket_key, passed,
}

abbrev IsLetter : ℕ → Type 0
IsLetter c = is_base64_char c ≡ true

table-IsLetter : (i : ℕ) → i < 64 → IsLetter (table i)
table-IsLetter i h = (table-Letter i h).2

-- The letters of one group.
group_letters :
    (a b c : ℕ)
    → a < 256
    → b < 256
    → c < 256
    → IsLetter (digit (packed a b c) 18)
      × IsLetter (digit (packed a b c) 12)
      × IsLetter (digit (packed a b c) 6)
      × IsLetter (digit (packed a b c) 0)
group_letters a b c ha hb hc =
    let (d3, d2, d1, d0) = digits_of a b c ha hb hc in
    (
      rw d3 (table-IsLetter (a / 4) (omega arith)),
      rw d2 (table-IsLetter (a % 4 * 16 + b / 16) (omega arith)),
      rw d1 (table-IsLetter (b % 16 * 4 + c / 64) (omega arith)),
      rw d0 (table-IsLetter (c % 64) (omega arith)),
    )

matches_base64-encode_base64 :
    (input : Bytes) → IsBytes input → matches_base64 (encode_base64 input) ≡ true
unfolding encode_base64 matches_base64 matches_padding is_base64_char
matches_base64-encode_base64 [] h = refl
matches_base64-encode_base64 (a ∷ []) h =
    let (l3, l2, l1, l0) = group_letters a 0 0 h.0 (omega arith) (omega arith) in rw (l3, l2) refl
matches_base64-encode_base64 (a ∷ b ∷ []) h =
    let (l3, l2, l1, l0) = group_letters a b 0 h.0 h.1.0 (omega arith) in rw (l3, l2, l1) refl
matches_base64-encode_base64 (a ∷ b ∷ c ∷ rest) h =
    let (l3, l2, l1, l0) = group_letters a b c h.0 h.1.0 h.1.1.0 in
    rw (l3, l2, l1, l0) (matches_base64-encode_base64 rest h.1.1.1)

is_base64_string-encode_base64 :
    (input : Bytes)
    → IsBytes input
    → 0 < length input
    → is_base64_string (encode_base64 input) ≡ true
unfolding encode_base64 is_base64_string matches_base64 matches_padding is_base64_char
is_base64_string-encode_base64 [] h n = absurd (omega arith)
is_base64_string-encode_base64 (a ∷ []) h n =
    let (l3, l2, l1, l0) = group_letters a 0 0 h.0 (omega arith) (omega arith) in rw (l3, l2) refl
is_base64_string-encode_base64 (a ∷ b ∷ []) h n =
    let (l3, l2, l1, l0) = group_letters a b 0 h.0 h.1.0 (omega arith) in rw (l3, l2, l1) refl
is_base64_string-encode_base64 (a ∷ b ∷ c ∷ rest) h n =
    let (l3, l2, l1, l0) = group_letters a b c h.0 h.1.0 h.1.1.0 in
    rw (l3, l2, l1, l0, matches_base64-encode_base64 rest h.1.1.1) refl

-- The text has four letters for each three bytes begun.
pub length-encode_base64 :
    (input : Bytes) → length (encode_base64 input) ≡ (length input + 2) / 3 * 4
unfolding encode_base64
length-encode_base64 [] = omega arith
length-encode_base64 (a ∷ []) = omega arith
length-encode_base64 (a ∷ b ∷ []) = omega arith
length-encode_base64 (a ∷ b ∷ c ∷ rest) = omega (arith, length-encode_base64 rest)

-- With one byte over, the last two letters are signs of equality.
ends_padded :
    (groups : ℕ) (input : Bytes)
    → length input ≡ groups * 3 + 1
    → (char_at (encode_base64 input) (groups * 4 + 2) ≡ b'=')
      × (char_at (encode_base64 input) (groups * 4 + 3) ≡ b'=')
unfolding encode_base64
ends_padded zero [] e = absurd (omega arith)
ends_padded zero (a ∷ []) e = (refl, refl)
ends_padded zero (a ∷ b ∷ rest) e = absurd (omega arith)
ends_padded (suc groups) [] e = absurd (omega arith)
ends_padded (suc groups) (a ∷ []) e = absurd (omega arith)
ends_padded (suc groups) (a ∷ b ∷ []) e = absurd (omega arith)
ends_padded (suc groups) (a ∷ b ∷ c ∷ rest) e =
    let second : suc groups * 4 + 2 ≡ suc (suc (suc (suc (groups * 4 + 2)))) = omega arith in
    let first : suc groups * 4 + 3 ≡ suc (suc (suc (suc (groups * 4 + 3)))) = omega arith in
    rw (second, first) (ends_padded groups rest (omega arith))

-- Sixteen bytes make a key that the other side accepts.
pub is_valid_websocket_key-encode_base64 :
    (nonce : Bytes)
    → IsBytes nonce
    → length nonce ≡ 16
    → is_valid_websocket_key (encode_base64 nonce) ≡ passed
unfolding is_valid_websocket_key
is_valid_websocket_key-encode_base64 nonce h n =
    let long : length (encode_base64 nonce) ≡ 24 = length-encode_base64 nonce ∙ omega arith in
    let (first, second) = ends_padded 5 nonce (omega arith) in
    rw (long, first, second, is_base64_string-encode_base64 nonce h (omega arith)) refl

above_space : (c : ℕ) → IsLetter c → b' ' < c
unfolding is_base64_char
above_space c h = ground arith

-- All that is written stands above the space in ASCII.
pub encode_base64-printable :
    (input : Bytes) → IsBytes input → All (λ c. b' ' < c) (encode_base64 input)
unfolding encode_base64
encode_base64-printable [] h = tt
encode_base64-printable (a ∷ []) h =
    let (l3, l2, l1, l0) = group_letters a 0 0 h.0 (omega arith) (omega arith) in
    (above_space _ l3, (above_space _ l2, (omega arith, (omega arith, tt))))
encode_base64-printable (a ∷ b ∷ []) h =
    let (l3, l2, l1, l0) = group_letters a b 0 h.0 h.1.0 (omega arith) in
    (above_space _ l3, (above_space _ l2, (above_space _ l1, (omega arith, tt))))
encode_base64-printable (a ∷ b ∷ c ∷ rest) h =
    let (l3, l2, l1, l0) = group_letters a b c h.0 h.1.0 h.1.1.0 in
    let others = encode_base64-printable rest h.1.1.1 in
    (above_space _ l3, (above_space _ l2, (above_space _ l1, (above_space _ l0, others))))
