-- ===== src/Base64.antt =====
-- `encode_base64` of librcom/src/util.cpp, in which the key and the answer of the opening handshake
-- are written.
pub mod Decode
pub mod Key
pub mod RoundTrip
use librcom.Base.{
  ℕ, ◌+◌, ◌*◌, ◌/◌, ◌%◌, ◌^◌, bit_and, [], ◌∷◌, Bytes, codes, get_elem?, Option, none, some,
}

abbrev letters : Bytes
letters = codes "ABCDEFGHIJKLMNOPQRSTUVWXYZabcdefghijklmnopqrstuvwxyz0123456789+/"

abbrev or_zero : Option ℕ → ℕ
or_zero none = 0
or_zero (some c) = c

-- `table`, which is only read below 64.
unfoldable pub table : ℕ → ℕ
table i = or_zero (get_elem? letters i)

-- `(a << 0x10) + (b << 0x08) + c` in an unsigned int of 32 bits.
abbrev pub packed : ℕ → ℕ → ℕ → ℕ
packed a b c = (a * 2 ^ 16 + b * 2 ^ 8 + c) % 2 ^ 32

-- `table[(p >> shift) & 0x3F]`
abbrev pub digit : ℕ → ℕ → ℕ
digit p shift = table (bit_and (p / 2 ^ shift) 0x3F)

-- The loop, which takes three bytes in each round but the last.
unfoldable pub encode_base64 : Bytes → Bytes
encode_base64 [] = []
encode_base64 (a ∷ []) = let p = packed a 0 0 in digit p 18 ∷ digit p 12 ∷ b'=' ∷ b'=' ∷ []
encode_base64 (a ∷ b ∷ []) = let p = packed a b 0 in digit p 18 ∷ digit p 12 ∷ digit p 6 ∷ b'=' ∷ []
encode_base64 (a ∷ b ∷ c ∷ rest) =
    let p = packed a b c in digit p 18 ∷ digit p 12 ∷ digit p 6 ∷ digit p 0 ∷ encode_base64 rest
