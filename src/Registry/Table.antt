-- ===== src/Registry/Table.antt =====
-- The table of librcom/src/Registry.cpp as a finite map from topics to addresses.
use librcom.Base.{
  Bool, true, false, Bool-cases, inl, inr, Option-cases, none, some, List, [], ◌∷◌, Bytes, equal,
  equal_iff, equal_refl, ◌≡◌, ◌≢◌, refl, sym, ◌∙◌, All, All-append,
}
use librcom.Registry.{RegistryEntry, find, erase_at, erase, insert, set, get, remove}

equal-differs : (a b : Bytes) → a ≢ b → equal a b ≡ false
equal-differs a b ne = elim (Bool-cases (equal a b)) [
  | inl same ↦ absurd (ne ((equal_iff a b).0 same))
  | inr differs ↦ differs
]

equal_comm_false : (a b : Bytes) → equal a b ≡ false → equal b a ≡ false
equal_comm_false a b h = equal-differs b a (λ e. absurd (cc (h, equal_refl a)))

module _ {A : Type 0} where
  -- No topic is in the table twice.
  abbrev pub Absent : Bytes → List (RegistryEntry A) → Type 0
  Absent topic = All (λ e. equal topic e.topic ≡ false)

  abbrev pub IsFunctional : List (RegistryEntry A) → Type 0
  IsFunctional [] = Unit
  IsFunctional (e ∷ entries) = Absent e.topic entries × IsFunctional entries

  module _ (topic : Bytes) (e : RegistryEntry A) (entries : List (RegistryEntry A)) where
    get_here : equal topic e.topic ≡ true → get topic (e ∷ entries) ≡ some e.address
    unfolding get find
    get_here h = rw h refl

    get_there : equal topic e.topic ≡ false → get topic (e ∷ entries) ≡ get topic entries
    unfolding get find
    get_there h = elim (Option-cases (find topic entries)) [
      | inl missing ↦ rw (h, missing) refl
      | inr (i, found) ↦ rw (h, found) refl
    ]

    erase_here : equal topic e.topic ≡ true → erase topic (e ∷ entries) ≡ entries
    unfolding erase find erase_at
    erase_here h = rw h refl

    erase_there : equal topic e.topic ≡ false → erase topic (e ∷ entries) ≡ e ∷ erase topic entries
    unfolding erase find erase_at
    erase_there h = elim (Option-cases (find topic entries)) [
      | inl missing ↦ rw (h, missing) refl
      | inr (i, found) ↦ rw (h, found) refl
    ]

  get-Absent :
      (topic : Bytes) (entries : List (RegistryEntry A))
      → Absent topic entries
      → get topic entries ≡ none
  unfolding get find
  get-Absent topic [] absent = refl
  get-Absent topic (e ∷ entries) absent =
      get_there topic e entries absent.0 ∙ get-Absent topic entries absent.1

  Absent-equal :
      (topic : Bytes) (e : RegistryEntry A) (entries : List (RegistryEntry A))
      → equal topic e.topic ≡ true
      → Absent e.topic entries
      → Absent topic entries
  Absent-equal topic e entries h absent = rw ((equal_iff topic e.topic).0 h) absent

  erase-All :
      (P : RegistryEntry A → Type 0) (topic : Bytes) (entries : List (RegistryEntry A))
      → All P entries
      → All P (erase topic entries)
  unfolding erase find
  erase-All P topic [] all = all
  erase-All P topic (e ∷ entries) all = elim (Bool-cases (equal topic e.topic)) [
    | inl same ↦ rw (erase_here topic e entries same) all.1
    | inr differs ↦
        rw (erase_there topic e entries differs) (all.0, erase-All P topic entries all.1)
  ]

  erase-Absent :
      (topic : Bytes) (entries : List (RegistryEntry A))
      → IsFunctional entries
      → Absent topic (erase topic entries)
  unfolding erase find
  erase-Absent topic [] functional = tt
  erase-Absent topic (e ∷ entries) functional = elim (Bool-cases (equal topic e.topic)) [
    | inl same ↦
        rw (erase_here topic e entries same) (Absent-equal topic e entries same functional.0)
    | inr differs ↦
        rw (erase_there topic e entries differs) (differs, erase-Absent topic entries functional.1)
  ]

  erase-IsFunctional :
      (topic : Bytes) (entries : List (RegistryEntry A))
      → IsFunctional entries
      → IsFunctional (erase topic entries)
  unfolding erase find
  erase-IsFunctional topic [] functional = tt
  erase-IsFunctional topic (e ∷ entries) functional = elim (Bool-cases (equal topic e.topic)) [
    | inl same ↦ rw (erase_here topic e entries same) functional.1
    | inr differs ↦
        rw (erase_there topic e entries differs)
          (erase-All _ topic entries functional.0, erase-IsFunctional topic entries functional.1)
  ]

  get-erase_other :
      (other topic : Bytes) (entries : List (RegistryEntry A))
      → other ≢ topic
      → get other (erase topic entries) ≡ get other entries
  unfolding erase find
  get-erase_other other topic [] ne = refl
  get-erase_other other topic (e ∷ entries) ne = elim (Bool-cases (equal topic e.topic)) [
    | inl same ↦ rw (erase_here topic e entries same) (
        sym (
          get_there other e entries
            (equal-differs other e.topic (λ h. ne (h ∙ sym ((equal_iff topic e.topic).0 same))))))
    | inr differs ↦ elim (Bool-cases (equal other e.topic)) [
      | inl here ↦
          rw
            (
              erase_there topic e entries differs,
              get_here other e (erase topic entries) here,
              get_here other e entries here,
            )
            refl
      | inr there ↦
          rw
            (
              erase_there topic e entries differs,
              get_there other e (erase topic entries) there,
              get_there other e entries there,
            )
            (get-erase_other other topic entries ne)
    ]
  ]

  get-insert :
      (topic : Bytes) (address : A) (entries : List (RegistryEntry A))
      → Absent topic entries
      → get topic (insert topic address entries) ≡ some address
  unfolding insert
  get-insert topic address [] absent =
      get_here topic (record { topic = topic; address = address }) [] (equal_refl topic)
  get-insert topic address (e ∷ entries) absent =
      get_there topic e (insert topic address entries) absent.0
      ∙ get-insert topic address entries absent.1

  get-insert_other :
      (other topic : Bytes) (address : A) (entries : List (RegistryEntry A))
      → equal other topic ≡ false
      → get other (insert topic address entries) ≡ get other entries
  unfolding insert
  get-insert_other other topic address [] ne =
      get_there other (record { topic = topic; address = address }) [] ne
  get-insert_other other topic address (e ∷ entries) ne = elim (Bool-cases (equal other e.topic)) [
    | inl here ↦
        rw (get_here other e (insert topic address entries) here, get_here other e entries here)
          refl
    | inr there ↦
        rw (get_there other e (insert topic address entries) there, get_there other e entries there)
          (get-insert_other other topic address entries ne)
  ]

  insert-IsFunctional :
      (topic : Bytes) (address : A) (entries : List (RegistryEntry A))
      → Absent topic entries
      → IsFunctional entries
      → IsFunctional (insert topic address entries)
  unfolding insert
  insert-IsFunctional topic address [] absent functional = (tt, tt)
  insert-IsFunctional topic address (e ∷ entries) absent functional = (
    All-append _ entries (record { topic = topic; address = address } ∷ []) functional.0
        (equal_comm_false topic e.topic absent.0, tt),
    insert-IsFunctional topic address entries absent.1 functional.1,
  )

  -- When `set` has stored an address in a table that holds no topic twice, `get` finds this
  -- address under the topic, finds under any other topic what it found before, and the table still
  -- holds no topic twice.
  pub get-set :
      (is_set : A → Bool) (topic other : Bytes) (address : A)
      (entries entries' : List (RegistryEntry A))
      → other ≢ topic
      → IsFunctional entries
      → set is_set topic address entries ≡ some entries'
      → (get topic entries' ≡ some address)
        × (get other entries' ≡ get other entries)
        × IsFunctional entries'
  unfolding set
  get-set is_set topic other address entries entries' ne functional done =
      elim (Bool-cases (is_set address)) [
        | inl accepted ↦
            let erased = erase topic entries in
            let e : entries' ≡ insert topic address erased = cc (rw accepted at done) in
            rw e (
              get-insert topic address erased (erase-Absent topic entries functional),
              get-insert_other other topic address erased (equal-differs other topic ne)
                  ∙ get-erase_other other topic entries ne,
              insert-IsFunctional topic address erased (erase-Absent topic entries functional)
                  (erase-IsFunctional topic entries functional),
            )
        | inr refused ↦ absurd (cc (rw refused at done))
      ]

  -- `remove` takes the topic out of a table that holds no topic twice: `get` no longer finds it,
  -- finds under any other topic what it found before, and the table still holds no topic twice.
  pub get-remove :
      (topic other : Bytes) (entries : List (RegistryEntry A))
      → other ≢ topic
      → IsFunctional entries
      → (get topic (remove topic entries) ≡ none)
        × (get other (remove topic entries) ≡ get other entries)
        × IsFunctional (remove topic entries)
  unfolding remove erase
  get-remove topic other entries ne functional = (
    get-Absent topic (erase topic entries) (erase-Absent topic entries functional),
    get-erase_other other topic entries ne,
    erase-IsFunctional topic entries functional,
  )
