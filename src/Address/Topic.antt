-- ===== src/Address/Topic.antt =====
-- What the names that `is_valid_topic` of librcom/src/util.cpp accepts are made of.
use librcom.Base.{
  ℕ, zero, suc, ◌≤◌, ◌≡◌, refl, arith, Bool, true, false, ◌&&◌, ◌||◌, leb, ◌==◌, [], ◌∷◌, length,
  Bytes,
}
use librcom.Address.{is_valid_name, is_valid_topic, name_chars}
use librcom.Json.Plain.{IsPlainText, is_plain_char}

letter-plain : (c : ℕ) → leb b'a' c && leb c b'z' ≡ true → is_plain_char c ≡ true
unfolding is_plain_char
letter-plain c h = ground arith

name_char-plain : (c : ℕ) → (leb b'a' c && leb c b'z' || c == b'-') ≡ true → is_plain_char c ≡ true
unfolding is_plain_char
name_char-plain c h = ground arith

both : (a b : Bool) → a && b ≡ true → (a ≡ true) × (b ≡ true)
both true b h = (refl, h)
both false b h = absurd (cc h)

name_chars-IsPlainText :
    (n : ℕ) (cs : Bytes) → name_chars n cs ≡ true → IsPlainText cs × (length cs ≤ n)
unfolding name_chars
name_chars-IsPlainText n [] h = (tt, omega arith)
name_chars-IsPlainText zero (c ∷ cs) h = absurd (cc h)
name_chars-IsPlainText (suc n) (c ∷ cs) h =
    let (first, others) = both (leb b'a' c && leb c b'z' || c == b'-') (name_chars n cs) h in
    let (plain, fits) = name_chars-IsPlainText n cs others in
    ((name_char-plain c first, plain), omega arith)

-- A topic that `is_valid_topic` accepts has 3 to 65 characters, all of them printable and none a
-- quote or a backslash, so that it can stand in the JSON texts of the registry as it is.
pub is_valid_topic-IsPlainText :
    (topic : Bytes)
    → is_valid_topic topic ≡ true
    → IsPlainText topic × (3 ≤ length topic) × (length topic ≤ 65)
unfolding is_valid_name
is_valid_topic-IsPlainText [] h = absurd (cc h)
is_valid_topic-IsPlainText (c ∷ []) h = absurd (cc h)
is_valid_topic-IsPlainText (c ∷ d ∷ []) h = absurd (cc h)
is_valid_topic-IsPlainText (c ∷ d ∷ e ∷ cs) h =
    let (first, others) = both (leb b'a' c && leb c b'z') (name_chars 64 (d ∷ e ∷ cs)) h in
    let (plain, fits) = name_chars-IsPlainText 64 (d ∷ e ∷ cs) others in
    ((letter-plain c first, plain), omega arith, omega arith)
