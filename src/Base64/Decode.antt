-- ===== src/Base64/Decode.antt =====
-- The decoder that section 4 of RFC 4648 describes, against which `encode_base64` is read.
use librcom.Base.{
  ℕ, ◌+◌, ◌-◌, ◌*◌, ◌/◌, ◌%◌, ◌^◌, ◌<◌, ◌∙◌, bit_and, ◌≡◌, refl, arith, Bool, ◌&&◌, not, leb, ◌==◌,
  if◌then◌else◌, [], ◌∷◌, Bytes, true, false,
}
use librcom.Base.Bits.{bit_and_ones, every_below, every_below_holds}
use librcom.Base64.{packed, table}
use librcom.Http.Request.{is_base64_char}

-- The number that a letter of the alphabet stands for.
unfoldable pub digit_value : ℕ → ℕ
digit_value c =
    if leb b'a' c
    then c - b'a' + 26
    else if leb b'A' c
    then c - b'A'
    else if leb b'0' c
    then c - b'0' + 52
    else if c == b'+'
    then 62
    else 63

-- Three bytes from the numbers of four letters.
abbrev pub first_byte : ℕ → ℕ → ℕ
first_byte w x = w * 4 + x / 16

abbrev pub second_byte : ℕ → ℕ → ℕ
second_byte x y = x % 16 * 16 + y / 4

abbrev pub third_byte : ℕ → ℕ → ℕ
third_byte y z = y % 4 * 64 + z

-- Groups of four letters; a group that ends in one or two signs of equality has one or two bytes
-- less. Letters that do not fill a group are dropped.
unfoldable pub decode_base64 : Bytes → Bytes
decode_base64 (c ∷ d ∷ e ∷ f ∷ rest) =
    let w = digit_value c in
    let x = digit_value d in
    let y = digit_value e in
    let z = digit_value f in
    let others = decode_base64 rest in
    if e == b'='
    then first_byte w x ∷ []
    else if f == b'='
    then first_byte w x ∷ second_byte x y ∷ []
    else first_byte w x ∷ second_byte x y ∷ third_byte y z ∷ others
decode_base64 _ = []

-- What each of the 64 letters satisfies.
abbrev is_sound : ℕ → Bool
is_sound i = digit_value (table i) == i && (not (table i == b'=') && is_base64_char (table i))

table_checked : every_below is_sound 64 ≡ true
unfolding table digit_value is_base64_char every_below
table_checked = refl

-- A letter gives back its number, is no sign of equality, and is in the alphabet of the test of
-- librcom/src/util.cpp.
pub table-Letter :
    (i : ℕ)
    → i < 64
    → (digit_value (table i) ≡ i) × ((table i == b'=') ≡ false) × (is_base64_char (table i) ≡ true)
table-Letter i h = let checked = every_below_holds is_sound 64 i h table_checked in ground arith

-- A full group, and the two that are padded.
pub decode-full :
    (w x y z : ℕ) (rest : Bytes)
    → w < 64
    → x < 64
    → y < 64
    → z < 64
    → decode_base64 (table w ∷ table x ∷ table y ∷ table z ∷ rest)
      ≡ first_byte w x ∷ second_byte x y ∷ third_byte y z ∷ decode_base64 rest
unfolding decode_base64
decode-full w x y z rest hw hx hy hz =
    let (vw, nw, bw) = table-Letter w hw in
    let (vx, nx, bx) = table-Letter x hx in
    let (vy, ny, by_) = table-Letter y hy in
    let (vz, nz, bz) = table-Letter z hz in rw (ny, nz, vw, vx, vy, vz) refl

pub decode-two :
    (w x y : ℕ)
    → w < 64
    → x < 64
    → y < 64
    → decode_base64 (table w ∷ table x ∷ table y ∷ b'=' ∷ [])
      ≡ first_byte w x ∷ second_byte x y ∷ []
unfolding decode_base64
decode-two w x y hw hx hy =
    let (vw, nw, bw) = table-Letter w hw in
    let (vx, nx, bx) = table-Letter x hx in
    let (vy, ny, by_) = table-Letter y hy in rw (ny, vw, vx, vy) refl

pub decode-one :
    (w x : ℕ)
    → w < 64
    → x < 64
    → decode_base64 (table w ∷ table x ∷ b'=' ∷ b'=' ∷ []) ≡ first_byte w x ∷ []
unfolding decode_base64
decode-one w x hw hx =
    let (vw, nw, bw) = table-Letter w hw in let (vx, nx, bx) = table-Letter x hx in rw (vw, vx) refl

-- The numbers of the letters of one group.
pub digits_of :
    (a b c : ℕ)
    → a < 256
    → b < 256
    → c < 256
    → (bit_and (packed a b c / 2 ^ 18) 0x3F ≡ a / 4)
      × (bit_and (packed a b c / 2 ^ 12) 0x3F ≡ a % 4 * 16 + b / 16)
      × (bit_and (packed a b c / 2 ^ 6) 0x3F ≡ b % 16 * 4 + c / 64)
      × (bit_and (packed a b c / 2 ^ 0) 0x3F ≡ c % 64)
digits_of a b c ha hb hc = (
  bit_and_ones 6 0x3F (packed a b c / 2 ^ 18) refl ∙ omega arith,
  bit_and_ones 6 0x3F (packed a b c / 2 ^ 12) refl ∙ omega arith,
  bit_and_ones 6 0x3F (packed a b c / 2 ^ 6) refl ∙ omega arith,
  bit_and_ones 6 0x3F (packed a b c / 2 ^ 0) refl ∙ omega arith,
)
