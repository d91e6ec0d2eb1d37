-- ===== src/Address/Decimal.antt =====
-- `std::stoi` reads back what `std::to_string` writes.
use librcom.Base.{
  ℕ, zero, suc, ◌+◌, ◌-◌, ◌*◌, ◌/◌, ◌%◌, ◌^◌, ◌≤◌, ◌<◌, ◌≡◌, refl, sym, ap, ◌∙◌, arith, true, false,
  some, [], ◌∷◌, ◌++◌, append-nil, append_assoc, ltb, ◌==◌, Bytes, Bool-cases, inl, inr, lt→ltb,
  ltb→lt, All, All-append,
}
use librcom.Http.Characters.{isdigit}
use librcom.Address.{
  isspace, skip_blanks, read_digits, stoi_digits, stoi_sign, stoi, decimal, to_string,
}

read_digits-decimal :
    (fuel n : ℕ) (rest : Bytes)
    → n < fuel
    → read_digits 0 (decimal fuel n ++ rest) ≡ read_digits n rest
unfolding read_digits decimal
read_digits-decimal zero n rest h = absurd (omega arith)
read_digits-decimal (suc fuel) n rest h = elim (Bool-cases (ltb n 10)) [
  | inl small ↦
      let below = ltb→lt n 10 small in
      let digit : isdigit (b'0' + n) ≡ true = ground arith in
      let same : 0 * 10 + (b'0' + n - b'0') ≡ n = omega arith in rw (small, digit, same) refl
  | inr large ↦
      let least : 10 ≤ n = ground arith in
      let digit : isdigit (b'0' + n % 10) ≡ true = ground arith in
      let same : n / 10 * 10 + (b'0' + n % 10 - b'0') ≡ n = omega arith in
      rw (large, append_assoc)
        (read_digits-decimal fuel (n / 10) ((b'0' + n % 10) ∷ rest) (omega arith)
          ∙ rw (digit, same) refl)
]

-- A text of digits with at least one.
decimal-digits :
    (fuel n : ℕ)
    → n < fuel
    → (c : ℕ) × (cs : Bytes) × (decimal fuel n ≡ c ∷ cs)
      × (isdigit c ≡ true)
      × All (λ d. isdigit d ≡ true) cs
unfolding decimal
decimal-digits zero n h = absurd (omega arith)
decimal-digits (suc fuel) n h = elim (Bool-cases (ltb n 10)) [
  | inl small ↦ let below = ltb→lt n 10 small in (b'0' + n, [], rw small refl, ground arith, tt)
  | inr large ↦
      let least : 10 ≤ n = ground arith in
      let (c, cs, shape, first, others) = decimal-digits fuel (n / 10) (omega arith) in
      (
        c,
        cs ++ (b'0' + n % 10) ∷ [],
        rw (large, shape) refl,
        first,
        All-append _ cs ((b'0' + n % 10) ∷ []) others (ground arith, tt),
      )
]

pub to_string-digits :
    (n : ℕ)
    → (c : ℕ) × (cs : Bytes) × (to_string n ≡ c ∷ cs)
      × (isdigit c ≡ true)
      × All (λ d. isdigit d ≡ true) cs
unfolding to_string
to_string-digits n = decimal-digits (suc n) n (omega arith)

pub read_digits-to_string : (n : ℕ) → read_digits 0 (to_string n) ≡ n
unfolding to_string read_digits
read_digits-to_string n =
    ap (read_digits 0) (sym (append-nil (to_string n)))
    ∙ read_digits-decimal (suc n) n [] (omega arith)

pub stoi-to_string : (n : ℕ) → n < 2 ^ 31 → stoi (to_string n) ≡ some (false, n)
unfolding stoi stoi_sign stoi_digits skip_blanks
stoi-to_string n h =
    let (c, cs, shape, first, others) = to_string-digits n in
    let visible : isspace c ≡ false = ground arith in
    let no_minus : (c == b'-') ≡ false = ground arith in
    let no_plus : (c == b'+') ≡ false = ground arith in
    let value : read_digits 0 (c ∷ cs) ≡ n =
      ap (read_digits 0) (sym shape) ∙ read_digits-to_string n in
    rw (shape, visible, no_minus, no_plus, first, value, lt→ltb n (2 ^ 31) h) refl
