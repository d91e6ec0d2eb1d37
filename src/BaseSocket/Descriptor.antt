-- ===== src/BaseSocket/Descriptor.antt =====
-- Which descriptors `connect`, `listen` and `close` of BaseSocket leave open.
use librcom.Base.{
  ◌⊎◌, inl, inr, ℕ, ◌≡◌, ◌≢◌, ◌∙◌, refl, Bool, false, Bool-cases, Option, none, some, List, [], ◌∷◌,
  ◌++◌,
}
use librcom.BaseSocket.{Linux, is_zero, connect, connect_created, listen, listen_created}

-- The descriptor that the field `sockfd_` accounts for.
abbrev pub held : Option ℕ → List ℕ
held none = []
held (some fd) = fd ∷ []

abbrev AfterSocket : {S : Type 0} → (S → List ℕ) → S → Option ℕ × S → Type 0
AfterSocket opened s (r, s') = opened s' ≡ held r ++ opened s

some_not_none : {fd : ℕ} → some fd ≢ none
some_not_none e = cc e

module _ {S A : Type 0} (linux : Linux S A) where
  -- What the manual pages document on the open descriptors, listed with the newest in front:
  -- socket(2) opens the one that it answers where it succeeds, close(2) ends the one that it is
  -- given if that is open (said here of the newest one only), and the other calls do neither.
  pub record IsTable : Type 0 where
    pub opened : S → List ℕ
    pub opened-socket : (s : S) → AfterSocket opened s (linux.socket s)
    pub opened-connect : (fd : ℕ) (a : A) (s : S) → opened (linux.connect fd a s).1 ≡ opened s
    pub opened-bind : (fd : ℕ) (a : A) (s : S) → opened (linux.bind fd a s).1 ≡ opened s
    pub opened-listen : (fd : ℕ) (s : S) → opened (linux.listen fd s).1 ≡ opened s
    pub opened-recv : (fd n : ℕ) (s : S) → opened (linux.recv fd n s).1 ≡ opened s
    pub opened-shutdown : (fd : ℕ) (s : S) → opened (linux.shutdown fd s) ≡ opened s
    pub opened-close :
        (fd : ℕ) (rest : List ℕ) (s : S) → opened s ≡ fd ∷ rest → opened (linux.close fd s) ≡ rest

  module _ (table : IsTable) where
    open table use {
      opened, opened-socket, opened-connect, opened-bind, opened-listen, opened-recv,
      opened-shutdown, opened-close,
    }

    -- A call has left open what was open before and what the field now holds, and answers true
    -- only where the field holds a descriptor.
    abbrev pub Accounts : S → (Bool × Option ℕ) × S → Type 0
    Accounts s ((done, sockfd), s') =
        (opened s' ≡ held sockfd ++ opened s) × ((done ≡ false) ⊎ (sockfd ≢ none))

    connect_created-Accounts :
        (address : A) (s : S) (r : Option ℕ × S)
        → AfterSocket opened s r
        → Accounts s (connect_created linux address none r)
    unfolding connect_created
    connect_created-Accounts address s (none, s1) h = (h, inl refl)
    connect_created-Accounts address s (some fd, s1) h =
        let same : opened (linux.connect fd address s1).1 ≡ fd ∷ opened s =
          opened-connect fd address s1 ∙ h in
        elim (Bool-cases (is_zero (linux.connect fd address s1).0)) [
          | inl connected ↦ rw connected (same, inr some_not_none)
          | inr refused ↦
              rw refused (opened-close fd (opened s) (linux.connect fd address s1).1 same, inl refl)
        ]

    -- If the system calls open and close descriptors as they document, `connect` on a new socket
    -- leaks none, failed or not: the open descriptors are those before and, in front of them, the
    -- one in the field, and there is one in the field where it answers true.
    pub connect-Accounts : (address : A) (s : S) → Accounts s (connect linux address none s)
    unfolding connect
    connect-Accounts address s =
        connect_created-Accounts address s (linux.socket s) (opened-socket s)

    listen_created-Accounts :
        (address : A) (s : S) (r : Option ℕ × S)
        → AfterSocket opened s r
        → Accounts s (listen_created linux address r)
    unfolding listen_created
    listen_created-Accounts address s (none, s1) h = (h, inl refl)
    listen_created-Accounts address s (some fd, s1) h =
        let s2 = (linux.bind fd address s1).1 in
        elim (Bool-cases (is_zero (linux.bind fd address s1).0)) [
          | inl bound ↦
              rw bound (opened-listen fd s2 ∙ opened-bind fd address s1 ∙ h, inr some_not_none)
          | inr unbound ↦ rw unbound (opened-bind fd address s1 ∙ h, inl refl)
        ]

    -- If the system calls open and close descriptors as they document, `listen` on a new socket
    -- leaks none: the open descriptors are those before and, in front of them, the one in the
    -- field, where one that could not be bound or listened to stays for `close` to end, and there
    -- is one in the field where it answers true.
    pub listen-Accounts : (address : A) (s : S) → Accounts s (listen linux address s)
    unfolding listen
    listen-Accounts address s = listen_created-Accounts address s (linux.socket s) (opened-socket s)
