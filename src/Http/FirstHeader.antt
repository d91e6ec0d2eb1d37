-- ===== src/Http/FirstHeader.antt =====
-- The header that librcom/src/Request.cpp `get_header_value` finds, and what the tests that
-- `assert_websocket` makes of a request ask for, described apart from the code.
use librcom.Base.{
  ℕ, zero, suc, ◌+◌, ◌≤◌, ◌≡◌, ◌≢◌, ◌∙◌, ◌↔◌, inl, inr, refl, sym, ap, arith, true, Bool-cases,
  some, [], ◌∷◌, ◌++◌, All, length, Bytes, codes, equal, equal_iff,
}
use mathlib.Core.Path.{ap₂}
use librcom.Http.Request.{
  Headers, get_header_value, starts_with, contains, is_base64_char, matches_padding, matches_base64,
  char_at,
}

-- The first header of the name has the value: none of those in front of it has the name.
abbrev pub IsFirst : Bytes → Bytes → Headers → Type 0
IsFirst name value headers =
    (before after : Headers) × (headers ≡ before ++ ((name, value) ∷ after))
    × All (λ h. h.0 ≢ name) before

get_header_value→IsFirst :
    (name value : Bytes) (headers : Headers)
    → get_header_value name headers ≡ some value
    → IsFirst name value headers
unfolding get_header_value
get_header_value→IsFirst name value [] e = absurd (cc e)
get_header_value→IsFirst name value ((n, v) ∷ rest) e = elim (Bool-cases (equal name n)) [
  | inl same ↦
      let names : name ≡ n = (equal_iff name n).0 same in
      let found : some v ≡ some value = rw same at e in
      let values : v ≡ value = cc found in
      ([], rest, ap₂ (λ a b. (a, b) ∷ rest) (sym names) values, tt)
  | inr other ↦
      let (before, after, whole, all) = get_header_value→IsFirst name value rest (rw other at e) in
      (
        (n, v) ∷ before,
        after,
        ap (◌∷◌ (n, v)) whole,
        (λ same. (let yes = (equal_iff name n).1 (sym same) in cc), all),
      )
]

found_behind :
    (name value : Bytes) (before after : Headers)
    → All (λ h. h.0 ≢ name) before
    → get_header_value name (before ++ ((name, value) ∷ after)) ≡ some value
unfolding get_header_value
found_behind name value [] after all = rw ((equal_iff name name).1 refl) refl
found_behind name value ((n, v) ∷ before) after (differs, all) = elim (Bool-cases (equal name n)) [
  | inl same ↦ absurd (differs (sym ((equal_iff name n).0 same)))
  | inr other ↦ rw other (found_behind name value before after all)
]

pub get_header_value_iff :
    (name value : Bytes) (headers : Headers)
    → (get_header_value name headers ≡ some value) ↔ IsFirst name value headers
get_header_value_iff name value headers = (
  get_header_value→IsFirst name value headers,
  λ (before, after, whole, all).
      ap (get_header_value name) whole ∙ found_behind name value before after all,
)

-- The text stands somewhere in the other.
abbrev pub Occurs : Bytes → Bytes → Type 0
Occurs t s = (front back : Bytes) × (s ≡ front ++ (t ++ back))

starts_with-prefix : (t s : Bytes) → starts_with t s ≡ true → (back : Bytes) × (s ≡ t ++ back)
unfolding starts_with
starts_with-prefix [] s e = (s, refl)
starts_with-prefix (x ∷ t) [] e = absurd (cc e)
starts_with-prefix (x ∷ t) (y ∷ s) e =
    let heads : x ≡ y = ground arith in
    let (back, tail) = starts_with-prefix t s (ground arith) in (back, ap₂ ◌∷◌ (sym heads) tail)

pub contains-Occurs : (t s : Bytes) → contains t s ≡ true → Occurs t s
unfolding contains
contains-Occurs t [] e = let (back, whole) = starts_with-prefix t [] e in ([], back, whole)
contains-Occurs t (y ∷ s) e = elim (Bool-cases (starts_with t (y ∷ s))) [
  | inl here ↦ let (back, whole) = starts_with-prefix t (y ∷ s) here in ([], back, whole)
  | inr later ↦
      let (front, back, whole) = contains-Occurs t s (rw later at e) in
      (y ∷ front, back, ap (◌∷◌ y) whole)
]

matches_padding-length : (n : ℕ) (s : Bytes) → matches_padding n s ≡ true → length s ≤ n
unfolding matches_padding
matches_padding-length n [] e = omega arith
matches_padding-length zero (c ∷ s) e = absurd (cc e)
matches_padding-length (suc n) (c ∷ s) e =
    let shorter = matches_padding-length n s (ground arith) in omega arith

-- Letters of base64, and two signs of equality behind them.
pub record IsNonceText (n : ℕ) (key : Bytes) : Type 0 where
  pub letters : Bytes
  pub key_whole : key ≡ letters ++ codes "=="
  pub letters_count : length letters ≡ n
  pub letters_base64 : All (λ c. is_base64_char c ≡ true) letters

two_signs : (c d : ℕ) → c ≡ b'=' → d ≡ b'=' → IsNonceText 0 (c ∷ d ∷ [])
two_signs c d first second = record {
  letters = [];
  key_whole = ap₂ (λ a b. a ∷ b ∷ []) first second;
  letters_count = refl;
  letters_base64 = tt;
}

pub matches_base64-IsNonceText :
    (n : ℕ) (key : Bytes)
    → matches_base64 key ≡ true
    → length key ≡ n + 2
    → char_at key n ≡ b'='
    → char_at key (suc n) ≡ b'='
    → IsNonceText n key
unfolding matches_base64
matches_base64-IsNonceText zero [] e fits first second = absurd (omega arith)
matches_base64-IsNonceText zero (c ∷ []) e fits first second = absurd (omega arith)
matches_base64-IsNonceText zero (c ∷ d ∷ []) e fits first second = two_signs c d first second
matches_base64-IsNonceText zero (c ∷ d ∷ x ∷ key) e fits first second = absurd (omega arith)
matches_base64-IsNonceText (suc n) [] e fits first second = absurd (omega arith)
matches_base64-IsNonceText (suc n) (c ∷ key) e fits first second =
    elim (Bool-cases (is_base64_char c)) [
      | inl letter ↦
          let rest = matches_base64-IsNonceText n key (rw letter at e) (omega arith) first second in
          record {
            letters = c ∷ rest.letters;
            key_whole = ap (◌∷◌ c) rest.key_whole;
            letters_count = ap suc rest.letters_count;
            letters_base64 = (letter, rest.letters_base64);
          }
      | inr other ↦
          let short = matches_padding-length 2 (c ∷ key) (rw other at e) in absurd (omega arith)
    ]
