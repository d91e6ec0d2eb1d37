-- ===== src/Tests/LookupTest.antt =====
-- The theorem on librcom/src/RegistryLookup.cpp at a concrete system, which keeps a list of descriptors.
use librcom.Base.{ℕ, ◌≡◌, refl, true, none, some, List, [], ◌∷◌}
use librcom.RegistryLookup.{Udp, RegistryLookup, lookup}
use librcom.Tests.SocketTest.{close_newest, close_newest-head}
use librcom.RegistryLookup.Descriptor.{Counts, lookup-closes}

-- Nobody answers.
abbrev silent_udp : Udp (List ℕ)
silent_udp = record {
  socket = λ s. (some 3, 3 ∷ s);
  set_broadcast = λ fd s. (true, s);
  set_timeout = λ fd s. (true, s);
  sendto = λ fd bytes s. (true, s);
  recvfrom = λ fd n s. (none, s);
  close = λ fd s. close_newest fd s;
}

abbrev silent_counts : Counts silent_udp
silent_counts = record {
  opened = λ s. s;
  socket_counts = λ s. refl;
  broadcast_counts = λ fd s. refl;
  timeout_counts = λ fd s. refl;
  sendto_counts = λ fd bytes s. refl;
  recvfrom_counts = λ fd n s. refl;
  close_counts = λ fd rest s e. close_newest-head fd rest s e;
}

abbrev two_open : RegistryLookup (List ℕ)
two_open = record { world = 5 ∷ 4 ∷ []; address = [] }

lookup-closes_example : (lookup silent_udp two_open).1.world ≡ 5 ∷ 4 ∷ []
lookup-closes_example = lookup-closes silent_udp silent_counts two_open
