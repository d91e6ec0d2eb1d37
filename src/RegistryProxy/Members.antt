-- ===== src/RegistryProxy/Members.antt =====
-- The members of an object that was made by two or three assignments.
use librcom.Base.{◌≡◌, ◌∙◌, false, Bytes, equal, texts_apart}
use librcom.Action.{ok}
use librcom.Json.{Json, IsJson}

module _ {J : Type 0} (json : Json J) (laws : IsJson json) where
  open laws use {
    IsObject, null_IsObject, insert_IsObject, at_insert, at_insert_other, get_string_string,
  }

  -- The members of an object of two or three.
  module _ (k1 k2 : Bytes) (v1 v2 : J) (apart : equal k2 k1 ≡ false) where
    one-IsObject : IsObject (json.insert k1 v1 json.null)
    one-IsObject = insert_IsObject k1 v1 json.null null_IsObject

    two-IsObject : IsObject (json.insert k2 v2 (json.insert k1 v1 json.null))
    two-IsObject = insert_IsObject k2 v2 (json.insert k1 v1 json.null) one-IsObject

    pub two_first : json.at k1 (json.insert k2 v2 (json.insert k1 v1 json.null)) ≡ ok v1
    two_first =
        at_insert_other k2 k1 v2 (json.insert k1 v1 json.null) one-IsObject
          (texts_apart k2 k1 apart)
        ∙ at_insert k1 v1 json.null null_IsObject

    pub two_second : json.at k2 (json.insert k2 v2 (json.insert k1 v1 json.null)) ≡ ok v2
    two_second = at_insert k2 v2 (json.insert k1 v1 json.null) one-IsObject

    module _ (k3 : Bytes) (v3 : J) where
      abbrev three : J
      three = json.insert k3 v3 (json.insert k2 v2 (json.insert k1 v1 json.null))

      pub three_first : equal k3 k1 ≡ false → json.at k1 three ≡ ok v1
      three_first e =
          at_insert_other k3 k1 v3 (json.insert k2 v2 (json.insert k1 v1 json.null)) two-IsObject
            (texts_apart k3 k1 e)
          ∙ two_first

      pub three_second : equal k3 k2 ≡ false → json.at k2 three ≡ ok v2
      three_second e =
          at_insert_other k3 k2 v3 (json.insert k2 v2 (json.insert k1 v1 json.null)) two-IsObject
            (texts_apart k3 k2 e)
          ∙ two_second

      pub three_third : json.at k3 three ≡ ok v3
      three_third = at_insert k3 v3 (json.insert k2 v2 (json.insert k1 v1 json.null)) two-IsObject
