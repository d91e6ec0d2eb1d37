-- ===== src/RegistryLookup/Descriptor.antt =====
-- `lookup` leaves no socket open.
use librcom.Base.{
  ℕ, zero, suc, ◌≡◌, ◌∙◌, List, Bool, true, false, Option, none, some, [], ◌∷◌, Bytes, codes,
}
use librcom.Action.{Result, ok, throws, Action, next}
use librcom.RegistryLookup.{
  Udp, RegistryLookup, close, or_close, created, create_socket, send_message, keep_address,
  get_response, unless_found, ask, found, lookup,
}

-- What the manual pages say of descriptors: `opened` are those that are open, the newest in front;
-- socket(2) opens the one that it answers, and close(2) ends the one that it is given if that is
-- open (said here of the newest one only).
pub record Counts {S : Type 0} (udp : Udp S) : Type 0 where
  pub opened : S → List ℕ
  pub socket_counts :
      (s : S)
      → opened (udp.socket s).1
        ≡ (elim (udp.socket s).0 [ none ↦ opened s | some fd ↦ fd ∷ opened s ])
  pub broadcast_counts : (fd : ℕ) (s : S) → opened (udp.set_broadcast fd s).1 ≡ opened s
  pub timeout_counts : (fd : ℕ) (s : S) → opened (udp.set_timeout fd s).1 ≡ opened s
  pub sendto_counts : (fd : ℕ) (bytes : Bytes) (s : S) → opened (udp.sendto fd bytes s).1 ≡ opened s
  pub recvfrom_counts : (fd n : ℕ) (s : S) → opened (udp.recvfrom fd n s).1 ≡ opened s
  pub close_counts :
      (fd : ℕ) (rest : List ℕ) (s : S) → opened s ≡ fd ∷ rest → opened (udp.close fd s) ≡ rest

module _ {S : Type 0} (udp : Udp S) (counts : Counts udp) (n : List ℕ) where
  open counts use {
    opened, socket_counts, broadcast_counts, timeout_counts, sendto_counts, recvfrom_counts,
    close_counts,
  }

  -- A method that ends well with the socket open, and throws with it closed.
  abbrev Holds : {A : Type 0} → ℕ → Result Bytes A × RegistryLookup S → Type 0
  Holds fd (ok a, s) = opened s.world ≡ fd ∷ n
  Holds fd (throws what, s) = opened s.world ≡ n

  -- One that ends with it closed.
  abbrev Closed : {A : Type 0} → Result Bytes A × RegistryLookup S → Type 0
  Closed r = opened r.1.world ≡ n

  next-Holds :
      {A B : Type 0} (fd : ℕ) (r : Result Bytes A × RegistryLookup S)
      (f : A → Action Bytes (RegistryLookup S) B)
      → Holds fd r
      → ((a : A) (s : RegistryLookup S) → opened s.world ≡ fd ∷ n → Holds fd (f a s))
      → Holds fd (next r f)
  next-Holds fd (ok a, s) f h g = g a s h
  next-Holds fd (throws what, s) f h g = h

  next-Closed :
      {A B : Type 0} (fd : ℕ) (r : Result Bytes A × RegistryLookup S)
      (f : A → Action Bytes (RegistryLookup S) B)
      → Holds fd r
      → ((a : A) (s : RegistryLookup S) → opened s.world ≡ fd ∷ n → Closed (f a s))
      → Closed (next r f)
  next-Closed fd (ok a, s) f h g = g a s h
  next-Closed fd (throws what, s) f h g = h

  or_close-Holds :
      (fd : ℕ) (what : Bytes) (b : Bool) (s : RegistryLookup S)
      → opened s.world ≡ fd ∷ n
      → Holds fd (or_close udp fd what b s)
  unfolding or_close close
  or_close-Holds fd what true s h = h
  or_close-Holds fd what false s h = close_counts fd n s.world h

  send_message-Holds :
      (fd : ℕ) (s : RegistryLookup S) → opened s.world ≡ fd ∷ n → Holds fd (send_message udp fd s)
  unfolding send_message
  send_message-Holds fd s h =
      or_close-Holds fd (codes "Failed to send broadcast message.") _ _
        (sendto_counts fd (codes "who-has-the-registry-ip") s.world ∙ h)

  get_response-Holds :
      (fd : ℕ) (s : RegistryLookup S) → opened s.world ≡ fd ∷ n → Holds fd (get_response udp fd s)
  unfolding get_response
  get_response-Holds fd s h =
      kept (udp.recvfrom fd 1023 s.world).0 (record s { world = (udp.recvfrom fd 1023 s.world).1 })
        (recvfrom_counts fd 1023 s.world ∙ h)
    where
      kept :
          (o : Option Bytes) (s1 : RegistryLookup S)
          → opened s1.world ≡ fd ∷ n
          → Holds fd (keep_address udp o s1)
      kept none s1 h = h
      kept (some buffer) s1 h = h

  ask-Holds :
      (fd rounds : ℕ) (s : RegistryLookup S)
      → opened s.world ≡ fd ∷ n
      → Holds fd (ask udp fd rounds s)
  unfolding ask
  ask-Holds fd zero s h = h
  ask-Holds fd (suc rounds) s h =
      next-Holds fd (send_message udp fd s) _ (send_message-Holds fd s h) λ a s1 h1.
        next-Holds fd (get_response udp fd s1) _ (get_response-Holds fd s1 h1)
          λ b s2 h2. found_or_not s2.address s2 (ask-Holds fd rounds s2 h2) h2
    where
      found_or_not :
          (address : Bytes) (s1 : RegistryLookup S)
          → Holds fd (ask udp fd rounds s1)
          → opened s1.world ≡ fd ∷ n
          → Holds fd (unless_found udp address (ask udp fd rounds) s1)
      found_or_not [] s1 again h1 = again
      found_or_not (c ∷ cs) s1 again h1 = h1

  found-Closed :
      (address : Bytes) (s : RegistryLookup S) → opened s.world ≡ n → Closed (found udp address s)
  found-Closed [] s h = h
  found-Closed (c ∷ cs) s h = h

  -- The socket that is open is the one that was answered.
  abbrev Created : Result Bytes ℕ × RegistryLookup S → Type 0
  Created (ok fd, s) = opened s.world ≡ fd ∷ n
  Created (throws what, s) = opened s.world ≡ n

  next-Created :
      (fd : ℕ) (r : Result Bytes (Unit {0}) × RegistryLookup S)
      (f : Unit {0} → Action Bytes (RegistryLookup S) ℕ)
      → Holds fd r
      → ((a : Unit {0}) (s : RegistryLookup S) → opened s.world ≡ fd ∷ n → Created (f a s))
      → Created (next r f)
  next-Created fd (ok a, s) f h g = g a s h
  next-Created fd (throws what, s) f h g = h

  behind-Closed :
      (r : Result Bytes ℕ × RegistryLookup S) (f : ℕ → Action Bytes (RegistryLookup S) Bytes)
      → Created r
      → ((fd : ℕ) (s : RegistryLookup S) → opened s.world ≡ fd ∷ n → Closed (f fd s))
      → Closed (next r f)
  behind-Closed (ok fd, s) f h g = g fd s h
  behind-Closed (throws what, s) f h g = h

  created-Holds :
      (o : Option ℕ) (s : RegistryLookup S)
      → opened s.world ≡ (elim o [ none ↦ n | some fd ↦ fd ∷ n ])
      → Created (created udp o s)
  created-Holds none s h = h
  created-Holds (some fd) s h =
      let s1 : RegistryLookup S = record s { world = (udp.set_broadcast fd s.world).1 } in
      let allowed = (udp.set_broadcast fd s.world).0 in
      next-Created fd (or_close udp fd (codes "Failed to enable broadcast.") allowed s1) _
        (or_close-Holds fd (codes "Failed to enable broadcast.") allowed s1
          (broadcast_counts fd s.world ∙ h))
        λ a s2 h2.
          let s3 : RegistryLookup S = record s2 { world = (udp.set_timeout fd s2.world).1 } in
          let timed = (udp.set_timeout fd s2.world).0 in
          next-Created fd (or_close udp fd (codes "Failed to set the timeout.") timed s3) _
            (or_close-Holds fd (codes "Failed to set the timeout.") timed s3
              (timeout_counts fd s2.world ∙ h2))
            (λ b s4 h4. h4)

  -- What `lookup` comes to behind `create_socket`.
  asked-Closed :
      (fd : ℕ) (s : RegistryLookup S)
      → opened s.world ≡ fd ∷ n
      → Closed
          (next (ask udp fd 8 s) (λ _ s1. next (close udp fd s1) (λ _ s2. found udp s2.address s2)))
  unfolding close
  asked-Closed fd s h = next-Closed fd (ask udp fd 8 s) _ (ask-Holds fd 8 s h) λ a s1 h1.
      found-Closed s1.address (record s1 { world = udp.close fd s1.world })
        (close_counts fd n s1.world h1)

-- `lookup` leaves the open descriptors as they were, in whatever way it ends and whatever the
-- system answers, if the calls open and close descriptors as their manual pages say.
pub lookup-closes :
    {S : Type 0} (udp : Udp S) (counts : Counts udp) (s : RegistryLookup S)
    → counts.opened (lookup udp s).1.world ≡ counts.opened s.world
unfolding lookup create_socket
lookup-closes udp counts s =
    let n = counts.opened s.world in
    behind-Closed udp counts n
      (created udp (udp.socket s.world).0 (record s { world = (udp.socket s.world).1 })) _
      (created-Holds udp counts n (udp.socket s.world).0
        (record s { world = (udp.socket s.world).1 }) (counts.socket_counts s.world))
      (λ fd s1 h. asked-Closed udp counts n fd s1 h)
