-- ===== src/Json/Plain.antt =====
-- Texts of JSON objects whose members are plain strings and Booleans, and how nlohmann::json reads
-- them: as the object that the assignments of the members in their order make.
use librcom.Base.{
  ℕ, ◌≡◌, ◌≢◌, arith, Bool, true, false, not, ◌&&◌, leb, ltb, ◌==◌, List, [], ◌∷◌, ◌++◌, All, Bytes,
  codes,
}
use librcom.Action.{ok}
use librcom.Json.{Json}

-- A member; `loose` has a space behind its colon.
pub data Field : Type 0 where
  loose tight : Bytes → Bytes → Field
  flag : Bytes → Bool → Field

-- The printable characters of ASCII but the quote and the backslash.
unfoldable pub is_plain_char : ℕ → Bool
is_plain_char c = leb 32 c && ltb c 127 && not (c == b'"') && not (c == b'\\')

abbrev pub IsPlainText : Bytes → Type 0
IsPlainText = All (λ c. is_plain_char c ≡ true)

abbrev pub IsPlainField : Field → Type 0
IsPlainField (loose key value) = IsPlainText key × IsPlainText value
IsPlainField (tight key value) = IsPlainText key × IsPlainText value
IsPlainField (flag key b) = IsPlainText key

-- A member, in front of the text that follows it.
abbrev pub field_text : Field → Bytes → Bytes
field_text (loose key value) rest = b'"' ∷ (key ++ (codes "\": \"" ++ (value ++ (b'"' ∷ rest))))
field_text (tight key value) rest = b'"' ∷ (key ++ (codes "\":\"" ++ (value ++ (b'"' ∷ rest))))
field_text (flag key true) rest = b'"' ∷ (key ++ (codes "\":true" ++ rest))
field_text (flag key false) rest = b'"' ∷ (key ++ (codes "\":false" ++ rest))

abbrev pub members_text : List Field → Bytes
members_text [] = codes "}"
members_text (field ∷ []) = field_text field (codes "}")
members_text (field ∷ other ∷ fields) =
    field_text field (b',' ∷ b' ' ∷ members_text (other ∷ fields))

abbrev pub object_text : List Field → Bytes
object_text fields = b'{' ∷ members_text fields

module _ {J : Type 0} (json : Json J) where
  abbrev pub put_field : Field → J → J
  put_field (loose key value) j = json.insert key (json.string value) j
  put_field (tight key value) j = json.insert key (json.string value) j
  put_field (flag key b) j = json.insert key (json.boolean b) j

  abbrev pub object_of : List Field → J → J
  object_of [] j = j
  object_of (field ∷ fields) j = object_of fields (put_field field j)

  pub record ReadsObjects : Type 0 where
    pub reads_object :
        (field : Field) (fields : List Field)
        → IsPlainField field
        → All IsPlainField fields
        → json.parse (object_text (field ∷ fields)) ≡ ok (object_of (field ∷ fields) json.null)

plain-nonzero : (c : ℕ) → is_plain_char c ≡ true → c ≢ 0
unfolding is_plain_char
plain-nonzero c h e = ground arith

-- A plain text has no zero.
pub IsPlainText→no_zero : (text : Bytes) → IsPlainText text → All (λ c. c ≢ 0) text
IsPlainText→no_zero [] h = tt
IsPlainText→no_zero (c ∷ cs) h = (plain-nonzero c h.0, IsPlainText→no_zero cs h.1)

-- The test of a fixed text, by evaluation.
abbrev pub is_plain_text : Bytes → Bool
is_plain_text [] = true
is_plain_text (c ∷ cs) = is_plain_char c && is_plain_text cs

pub fixed-IsPlainText : (text : Bytes) → is_plain_text text ≡ true → IsPlainText text
fixed-IsPlainText [] e = tt
fixed-IsPlainText (c ∷ cs) e = let rest = fixed-IsPlainText cs in ground arith
