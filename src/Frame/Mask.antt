-- ===== src/Frame/Mask.antt =====
-- The masking of payloads, WebSocket.cpp `apply_mask`.
use librcom.Base.{
  ℕ, zero, suc, ◌+◌, ◌*◌, ◌%◌, ◌<◌, ◌≡◌, ◌∙◌, refl, get_elem?, ap, arith, [], ◌∷◌, ◌++◌, bit_xor,
  ◌==◌, if◌then◌else◌, length, Bytes,
}
use mathlib.Core.Option
use mathlib.Core.Path.{ap₂}
use native.Mathlib.Nat.{zero-add}
use librcom.Base.Bits.{xor_cancel}
use librcom.Frame.{mask_from, apply_mask, mask_byte}

pub mask_from_twice :
    (j : ℕ) (mask input : Bytes) → mask_from j mask (mask_from j mask input) ≡ input
unfolding mask_from
mask_from_twice j mask [] = refl
mask_from_twice j mask (b ∷ input) =
    ap₂ ◌∷◌ (xor_cancel b (mask_byte mask j))
      (mask_from_twice (if j + 1 == 4 then 0 else j + 1) mask input)

-- A mask applied twice gives back the bytes.
pub apply_mask_twice : (mask input : Bytes) → apply_mask mask (apply_mask mask input) ≡ input
unfolding apply_mask
apply_mask_twice mask input = mask_from_twice 0 mask input

pub length-mask_from : (j : ℕ) (mask input : Bytes) → length (mask_from j mask input) ≡ length input
unfolding mask_from
length-mask_from j mask [] = refl
length-mask_from j mask (b ∷ input) =
    ap suc (length-mask_from (if j + 1 == 4 then 0 else j + 1) mask input)

-- Step by step the index into the mask is the number of the byte modulo 4.
next_index :
    (j i : ℕ)
    → j < 4
    → ((if j + 1 == 4 then 0 else j + 1) < 4)
      × (((if j + 1 == 4 then 0 else j + 1) + i) % 4 ≡ (j + suc i) % 4)
next_index j i h = (ground arith, ground arith)

mask_from-get_elem :
    (j : ℕ) (mask input : Bytes) (i : ℕ)
    → j < 4
    → get_elem? (mask_from j mask input) i
      ≡ Option.map (λ b. bit_xor b (mask_byte mask ((j + i) % 4))) (get_elem? input i)
unfolding mask_from
mask_from-get_elem j mask [] i h = refl
mask_from-get_elem j mask (b ∷ input) zero h =
    let small : (j + 0) % 4 ≡ j = omega arith in rw small refl
mask_from-get_elem j mask (b ∷ input) (suc i) h =
    let (below, same) = next_index j i h in
    mask_from-get_elem (if j + 1 == 4 then 0 else j + 1) mask input i below ∙ rw same refl

-- Masking is the one of section 5.3 of RFC 6455: the byte with the number i is combined by
-- exclusive or with the byte of the mask with the number i modulo 4, and there are as many bytes
-- as before.
pub apply_mask-get_elem :
    (mask input : Bytes) (i : ℕ)
    → (get_elem? (apply_mask mask input) i
        ≡ Option.map (λ b. bit_xor b (mask_byte mask (i % 4))) (get_elem? input i))
      × (length (apply_mask mask input) ≡ length input)
unfolding apply_mask
apply_mask-get_elem mask input i =
    let whole = mask_from-get_elem 0 mask input i (omega arith) in
    (rw zero-add at whole, length-mask_from 0 mask input)

pub length-apply_mask : (mask input : Bytes) → length (apply_mask mask input) ≡ length input
unfolding apply_mask
length-apply_mask mask input = length-mask_from 0 mask input

-- After a whole number of rounds through the mask the index is back at 0.
pub mask_from-append :
    (k : ℕ) (mask xs ys : Bytes)
    → length xs ≡ 4 * k
    → mask_from 0 mask (xs ++ ys) ≡ mask_from 0 mask xs ++ mask_from 0 mask ys
unfolding mask_from
mask_from-append zero mask [] ys e = refl
mask_from-append zero mask (x ∷ xs) ys e = absurd (omega arith)
mask_from-append (suc k) mask (a ∷ b ∷ c ∷ d ∷ xs) ys e =
    ap
      (λ t.
        bit_xor a (mask_byte mask 0)
        ∷ bit_xor b (mask_byte mask 1)
        ∷ bit_xor c (mask_byte mask 2)
        ∷ bit_xor d (mask_byte mask 3)
        ∷ t)
      (mask_from-append k mask xs ys (omega arith))
mask_from-append (suc k) mask _ ys e = absurd (omega arith)

-- A block of whole rounds and the bytes behind it are masked apart.
pub apply_mask-append :
    (k : ℕ) (mask xs ys : Bytes)
    → length xs ≡ 4 * k
    → apply_mask mask (xs ++ ys) ≡ apply_mask mask xs ++ apply_mask mask ys
unfolding apply_mask
apply_mask-append k mask xs ys e = mask_from-append k mask xs ys e

pub apply_mask-nil : (mask : Bytes) → apply_mask mask [] ≡ []
unfolding apply_mask
apply_mask-nil mask = refl
