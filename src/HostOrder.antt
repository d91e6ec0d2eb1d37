-- ===== src/HostOrder.antt =====
-- The C library's byte-order functions (arpa/inet.h, endian.h), which librcom calls and does not
-- define. Integers are laid out in memory with the low byte first: the sources' own shifts by
-- which they write a network-order integer are right on such a host only.
use mathlib.Core.Path.{ap₂}
use mathlib.Core.List.{reverse, reverse-cons, reverse-reverse}
use native.Mathlib.Nat.{pow-suc}
use librcom.Base.{
  ℕ, zero, suc, ◌+◌, ◌*◌, ◌/◌, ◌%◌, ◌^◌, ◌<◌, ◌≡◌, refl, ap, ◌∙◌, List, [], ◌∷◌, arith, length,
  length-append, All-append, Bytes, IsBytes,
}

pub record HostOrder : Type 0 where
  pub htons : ℕ → ℕ
  pub ntohs : ℕ → ℕ
  pub htobe64 : ℕ → ℕ
  pub be64toh : ℕ → ℕ

-- The integer that bytes in memory stand for, low byte first: a `uint16_t` or `uint64_t` variable
-- that was read into byte by byte.
abbrev pub le_value : Bytes → ℕ
le_value [] = 0
le_value (b ∷ bs) = b + 256 * le_value bs

-- The integer that bytes on the network stand for, high byte first.
abbrev pub be_value : Bytes → ℕ
be_value bs = le_value (reverse bs)

-- What the manual pages promise on a host with the low byte first.
pub record IsNetworkOrder (h : HostOrder) : Type 0 where
  pub htons_bytes : (bs : Bytes) → IsBytes bs → length bs ≡ 2 → h.htons (be_value bs) ≡ le_value bs
  pub ntohs_bytes : (bs : Bytes) → IsBytes bs → length bs ≡ 2 → h.ntohs (le_value bs) ≡ be_value bs
  pub htobe64_bytes :
      (bs : Bytes) → IsBytes bs → length bs ≡ 8 → h.htobe64 (be_value bs) ≡ le_value bs
  pub be64toh_bytes :
      (bs : Bytes) → IsBytes bs → length bs ≡ 8 → h.be64toh (le_value bs) ≡ be_value bs

-- The bytes of an integer, low byte first.
abbrev pub le_bytes : ℕ → ℕ → Bytes
le_bytes zero x = []
le_bytes (suc n) x = x % 256 ∷ le_bytes n (x / 256)

-- The bytes of an integer as they go over the network.
abbrev pub be_bytes : ℕ → ℕ → Bytes
be_bytes n x = reverse (le_bytes n x)

pub le_bytes-le_value : (bs : Bytes) → IsBytes bs → le_bytes (length bs) (le_value bs) ≡ bs
le_bytes-le_value [] h = refl
le_bytes-le_value (b ∷ bs) h =
    let b_lt : b < 256 = h.0 in
    let first : (b + 256 * le_value bs) % 256 ≡ b = omega arith in
    let others : (b + 256 * le_value bs) / 256 ≡ le_value bs = omega arith in
    ap₂ ◌∷◌ first (ap (le_bytes (length bs)) others ∙ le_bytes-le_value bs h.1)

pub le_value-le_bytes : (n x : ℕ) → x < 256 ^ n → le_value (le_bytes n x) ≡ x
le_value-le_bytes zero x h = omega arith
le_value-le_bytes (suc n) x h =
    omega (arith, le_value-le_bytes n (x / 256) (omega (arith, pow-suc 256 n)))

pub le_bytes-IsBytes : (n x : ℕ) → IsBytes (le_bytes n x)
le_bytes-IsBytes zero x = tt
le_bytes-IsBytes (suc n) x = (omega arith, le_bytes-IsBytes n (x / 256))

pub length-le_bytes : (n x : ℕ) → length (le_bytes n x) ≡ n
length-le_bytes zero x = refl
length-le_bytes (suc n) x = ap suc (length-le_bytes n (x / 256))

reverse-IsBytes : (bs : Bytes) → IsBytes bs → IsBytes (reverse bs)
reverse-IsBytes [] h = tt
reverse-IsBytes (b ∷ bs) h =
    rw (reverse-cons b bs) (All-append _ (reverse bs) _ (reverse-IsBytes bs h.1) (h.0, tt))

pub length-reverse {ℓ} : {A : Type ℓ} (xs : List A) → length (reverse xs) ≡ length xs
length-reverse [] = refl
length-reverse (x ∷ xs) =
    rw (reverse-cons x xs) (omega (arith, length-append (reverse xs) (x ∷ []), length-reverse xs))

pub be_bytes-IsBytes : (n x : ℕ) → IsBytes (be_bytes n x)
be_bytes-IsBytes n x = reverse-IsBytes (le_bytes n x) (le_bytes-IsBytes n x)

pub length-be_bytes : (n x : ℕ) → length (be_bytes n x) ≡ n
length-be_bytes n x = length-reverse (le_bytes n x) ∙ length-le_bytes n x

pub be_value-be_bytes : (n x : ℕ) → x < 256 ^ n → be_value (be_bytes n x) ≡ x
be_value-be_bytes n x h = ap le_value (reverse-reverse (le_bytes n x)) ∙ le_value-le_bytes n x h

-- Such a host: each function swaps the bytes of its argument.
abbrev pub low_first : HostOrder
low_first = record {
  htons = λ x. le_value (be_bytes 2 x);
  ntohs = λ x. le_value (be_bytes 2 x);
  htobe64 = λ x. le_value (be_bytes 8 x);
  be64toh = λ x. le_value (be_bytes 8 x);
}

swap-le_value :
    (n : ℕ) (bs : Bytes)
    → IsBytes bs
    → length bs ≡ n
    → le_value (be_bytes n (le_value bs)) ≡ be_value bs
swap-le_value n bs h e = rw (← e, le_bytes-le_value bs h)

swap-be_value :
    (n : ℕ) (bs : Bytes)
    → IsBytes bs
    → length bs ≡ n
    → le_value (be_bytes n (be_value bs)) ≡ le_value bs
swap-be_value n bs h e =
    swap-le_value n (reverse bs) (reverse-IsBytes bs h) (length-reverse bs ∙ e)
    ∙ ap le_value (reverse-reverse bs)

pub low_first-IsNetworkOrder : IsNetworkOrder low_first
low_first-IsNetworkOrder = record {
  htons_bytes = swap-be_value 2;
  ntohs_bytes = swap-le_value 2;
  htobe64_bytes = swap-be_value 8;
  be64toh_bytes = swap-le_value 8;
}
