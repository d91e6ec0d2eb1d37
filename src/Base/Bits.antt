-- ===== src/Base/Bits.antt =====
-- Laws of the bit operations at variables.
use Prim.Native.Nat.{
  ℕ, zero, suc, ◌+◌, ◌-◌, ◌*◌, ◌/◌, ◌%◌, ◌^◌, ◌≤◌, ◌<◌, min, max, bit_and, bit_or, bit_xor, digits,
  bit_and-bitwise, bit_or-bitwise, bit_xor-bitwise,
}
use mathlib.Core.Path.{◌≡◌, refl, ap, ◌∙◌, ◌≡⟨◌⟩◌, ◌∎}
use mathlib.Core.Bool.{Bool, true, ◌&&◌}
use native.Mathlib.Nat.{pow-suc, pow-succ', div-div-eq-div-mul, mul-div-mul_right, mul_assoc}
use native.Mathlib.Omega.{arith}

module _ (z : ℕ → ℕ) (f : ℕ → ℕ → ℕ) where
  -- Any count of digits that is large enough gives the same result.
  digits_enough : (n m a b : ℕ) → a ≤ n → a ≤ m → digits z f n a b ≡ digits z f m a b
  digits_enough zero zero zero b p q = refl
  digits_enough zero zero (suc a) b p q = absurd (omega arith)
  digits_enough zero (suc m) zero b p q = refl
  digits_enough zero (suc m) (suc a) b p q = absurd (omega arith)
  digits_enough (suc n) zero zero b p q = refl
  digits_enough (suc n) zero (suc a) b p q = absurd (omega arith)
  digits_enough (suc n) (suc m) zero b p q = refl
  digits_enough (suc n) (suc m) (suc a) b p q =
      rw (digits_enough n m (suc a / 2) (b / 2) (omega arith) (omega arith))

  digits_step :
      (a b : ℕ)
      → digits z f (suc a) (suc a) b
        ≡ digits z f (suc a / 2) (suc a / 2) (b / 2) * 2 + f (suc a % 2) (b % 2)
  digits_step a b =
      omega (arith, digits_enough a (suc a / 2) (suc a / 2) (b / 2) (omega arith) (omega arith))

-- Exclusive or of two digits.
abbrev differ : ℕ → ℕ → ℕ
differ a b = (a + b) % 2

bit_and_low : (a b : ℕ) → bit_and a b ≡ bit_and (a / 2) (b / 2) * 2 + min (a % 2) (b % 2)
bit_and_low zero b = simp bit_and-bitwise (omega arith)
bit_and_low (suc a) b = simp bit_and-bitwise (digits_step (λ y. 0) min a b)

bit_xor_even : (a b : ℕ) → a < 2 → b < 2 → Prim.Native.Nat.differ a b ≡ differ a b
bit_xor_even zero zero p q = refl
bit_xor_even zero (suc zero) p q = refl
bit_xor_even (suc zero) zero p q = refl
bit_xor_even (suc zero) (suc zero) p q = refl
bit_xor_even zero (suc (suc b)) p q = absurd (omega arith)
bit_xor_even (suc zero) (suc (suc b)) p q = absurd (omega arith)
bit_xor_even (suc (suc a)) b p q = absurd (omega arith)

bit_xor_low : (a b : ℕ) → bit_xor a b ≡ bit_xor (a / 2) (b / 2) * 2 + differ (a % 2) (b % 2)
bit_xor_low zero b = simp bit_xor-bitwise (omega arith)
bit_xor_low (suc a) b = simp bit_xor-bitwise (
    omega (
      arith,
      digits_step (λ y. y) Prim.Native.Nat.differ a b,
      bit_xor_even (suc a % 2) (b % 2) (omega arith) (omega arith),
    ))

xor_cancel_within : (n a m : ℕ) → a ≤ n → m ≤ n → bit_xor (bit_xor a m) m ≡ a
xor_cancel_within zero zero zero p q = refl
xor_cancel_within zero (suc a) m p q = absurd (omega arith)
xor_cancel_within zero zero (suc m) p q = absurd (omega arith)
xor_cancel_within (suc n) a m p q =
    let half = bit_xor_low a m in
    let halves : bit_xor a m / 2 ≡ bit_xor (a / 2) (m / 2) = omega (arith, half) in
    let again = bit_xor_low (bit_xor a m) m in
    let rec = xor_cancel_within n (a / 2) (m / 2) (omega arith) (omega arith) in
    let folded : bit_xor (bit_xor a m / 2) (m / 2) ≡ a / 2 = rw halves rec in
    omega (arith, half, again, folded)

-- A mask applied twice is undone.
pub xor_cancel : (a m : ℕ) → bit_xor (bit_xor a m) m ≡ a
xor_cancel a m = xor_cancel_within (a + m) a m (omega arith) (omega arith)

pub bit_xor-lt : (n a b : ℕ) → a < 2 ^ n → b < 2 ^ n → bit_xor a b < 2 ^ n
bit_xor-lt zero zero zero p q = omega arith
bit_xor-lt zero (suc a) b p q = absurd (omega arith)
bit_xor-lt zero zero (suc b) p q = absurd (omega arith)
bit_xor-lt (suc n) a b p q = omega (
  arith,
  pow-suc 2 n,
  bit_xor_low a b,
  bit_xor-lt n (a / 2) (b / 2) (omega (arith, pow-suc 2 n)) (omega (arith, pow-suc 2 n)),
)

bit_and-zero_within : (n a : ℕ) → a ≤ n → bit_and a 0 ≡ 0
bit_and-zero_within zero zero h = refl
bit_and-zero_within zero (suc a) h = absurd (omega arith)
bit_and-zero_within (suc n) a h =
    omega (arith, bit_and_low a 0, bit_and-zero_within n (a / 2) (omega arith))

-- `x & (2^k - 1)` keeps the low `k` bits.
pub bit_and_ones : (k m a : ℕ) → m + 1 ≡ 2 ^ k → bit_and a m ≡ a % 2 ^ k
bit_and_ones zero zero a e = omega (arith, bit_and-zero_within a a (omega arith))
bit_and_ones zero (suc m) a e = absurd (omega arith)
bit_and_ones (suc k) m a e =
    let p = pow-suc 2 k in
    let rec = bit_and_ones k (m / 2) (a / 2) (omega (arith, p)) in
    rw p (grind (arith, bit_and_low a m, rec, p))

-- A mask moved up by `k` bits selects from the number moved down by `k` bits.
pub bit_and-shift : (k a m : ℕ) → bit_and a (m * 2 ^ k) / 2 ^ k ≡ bit_and (a / 2 ^ k) m
bit_and-shift zero a m =
    let e : m * 2 ^ 0 ≡ m = omega arith in
    let d : a / 2 ^ 0 ≡ a = omega arith in rw (e, d) (omega arith)
bit_and-shift (suc k) a m =
    bit_and a (m * 2 ^ suc k) / 2 ^ suc k
    ≡⟨ ap (λ (t : ℕ). t / 2 ^ suc k) low ⟩ bit_and (a / 2) (m * 2 ^ k) * 2 / 2 ^ suc k
    ≡⟨ rw (pow-suc 2 k) (mul-div-mul_right _ _ (omega arith)) ⟩ bit_and (a / 2) (m * 2 ^ k) / 2 ^ k
    ≡⟨ bit_and-shift k (a / 2) m ⟩ bit_and (a / 2 / 2 ^ k) m
    ≡⟨ ap (λ (t : ℕ). bit_and t m) (div-div-eq-div-mul a 2 (2 ^ k) ∙ rw (pow-succ' 2 k)) ⟩
      bit_and (a / 2 ^ suc k) m ∎
  where
    even : m * 2 ^ suc k ≡ m * 2 ^ k * 2
    even = rw (pow-suc 2 k, ← mul_assoc m (2 ^ k) 2)

    low : bit_and a (m * 2 ^ suc k) ≡ bit_and (a / 2) (m * 2 ^ k) * 2
    low =
        let half : m * 2 ^ suc k / 2 ≡ m * 2 ^ k = omega (arith, even) in
        let no_bit : m * 2 ^ suc k % 2 ≡ 0 = omega (arith, even) in
        bit_and_low a (m * 2 ^ suc k) ∙ rw (half, no_bit) (omega arith)

-- Over a small range every value is checked by evaluation.
unfoldable pub every_below : (ℕ → Bool) → ℕ → Bool
every_below test zero = true
every_below test (suc bound) = every_below test bound && test bound

pub every_below_holds :
    (test : ℕ → Bool) (bound value : ℕ)
    → value < bound
    → every_below test bound ≡ true
    → test value ≡ true
unfolding every_below
every_below_holds test zero value lt table = absurd (omega arith)
every_below_holds test (suc bound) value lt table =
    ground (arith, every_below_holds test bound value)

bit_or_low : (a b : ℕ) → bit_or a b ≡ bit_or (a / 2) (b / 2) * 2 + max (a % 2) (b % 2)
bit_or_low zero b = simp bit_or-bitwise (omega arith)
bit_or_low (suc a) b = simp bit_or-bitwise (digits_step (λ y. y) max a b)

bit_or-zero_within : (n a : ℕ) → a ≤ n → bit_or a 0 ≡ a
bit_or-zero_within zero zero h = refl
bit_or-zero_within zero (suc a) h = absurd (omega arith)
bit_or-zero_within (suc n) a h =
    omega (arith, bit_or_low a 0, bit_or-zero_within n (a / 2) (omega arith))

-- Where the low `k` bits of one number are zero and the other has no more, `|` is a sum.
pub bit_or-add : (k a b : ℕ) → b < 2 ^ k → bit_or (a * 2 ^ k) b ≡ a * 2 ^ k + b
bit_or-add zero a zero h =
    let e : a * 2 ^ 0 ≡ a = omega arith in rw e (bit_or-zero_within a a (omega arith) ∙ omega arith)
bit_or-add zero a (suc b) h = absurd (omega arith)
bit_or-add (suc k) a b h =
    let p = pow-suc 2 k in
    let even : a * 2 ^ suc k ≡ a * 2 ^ k * 2 = rw (p, ← mul_assoc a (2 ^ k) 2) in
    let half : a * 2 ^ suc k / 2 ≡ a * 2 ^ k = omega (arith, even) in
    let no_bit : a * 2 ^ suc k % 2 ≡ 0 = omega (arith, even) in
    let rec = bit_or-add k a (b / 2) (omega (arith, p)) in
    bit_or_low (a * 2 ^ suc k) b ∙ rw (half, no_bit, rec) (omega (arith, even))
