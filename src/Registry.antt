-- ===== src/Registry.antt =====
-- The table of topics and addresses: librcom/src/Registry.cpp and include/rcom/RegistryEntry.h. The
-- type of an address is a parameter, with the one method of `IAddress` that the table calls.
use librcom.Base.{
  ℕ, zero, suc, Bool, true, false, Option, none, some, List, [], ◌∷◌, ◌++◌, if◌then◌else◌, take,
  drop, get_elem?, Bytes, equal,
}
pub mod Table

pub record RegistryEntry (A : Type 0) : Type 0 where
  pub topic : Bytes
  pub address : A

-- An index in what follows the first entry, as an index of the whole.
abbrev after_first : Option ℕ → Option ℕ
after_first none = none
after_first (some i) = some (suc i)

module _ {A : Type 0} where
  -- `find`: the index, or `none` for -1.
  unfoldable pub find : Bytes → List (RegistryEntry A) → Option ℕ
  find topic [] = none
  find topic (entry ∷ entries) =
      let rest = find topic entries in if equal topic entry.topic then some 0 else after_first rest

  -- `erase(ssize_t)`
  unfoldable pub erase_at : ℕ → List (RegistryEntry A) → List (RegistryEntry A)
  erase_at index entries = take index entries ++ drop (suc index) entries

  -- What a search that ends so erases.
  abbrev erase_found : Option ℕ → List (RegistryEntry A) → List (RegistryEntry A)
  erase_found none entries = entries
  erase_found (some index) entries = erase_at index entries

  -- `erase(const std::string&)`
  unfoldable pub erase : Bytes → List (RegistryEntry A) → List (RegistryEntry A)
  erase topic entries = erase_found (find topic entries) entries

  unfoldable pub insert : Bytes → A → List (RegistryEntry A) → List (RegistryEntry A)
  insert topic address entries = entries ++ record { topic = topic; address = address } ∷ []

  -- `set`; `none` where it throws.
  unfoldable pub set :
      (A → Bool) → Bytes → A → List (RegistryEntry A) → Option (List (RegistryEntry A))
  set is_set topic address entries =
      if is_set address then some (insert topic address (erase topic entries)) else none

  abbrev address_of : Option (RegistryEntry A) → Option A
  address_of none = none
  address_of (some entry) = some entry.address

  abbrev address_found : Option ℕ → List (RegistryEntry A) → Option A
  address_found none entries = none
  address_found (some index) entries = address_of (get_elem? entries index)

  -- `get`: the address that it stores, or `none` where it returns false.
  unfoldable pub get : Bytes → List (RegistryEntry A) → Option A
  get topic entries = address_found (find topic entries) entries

  unfoldable pub remove : Bytes → List (RegistryEntry A) → List (RegistryEntry A)
  remove topic entries = erase_found (find topic entries) entries
