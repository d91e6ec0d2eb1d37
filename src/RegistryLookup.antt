-- ===== src/RegistryLookup.antt =====
-- `class RegistryLookup` (librcom/src/RegistryLookup.cpp), which asks for the registry by UDP. The
-- calls of the system are parameters.
pub mod Descriptor
use librcom.Base.{
  ℕ, zero, suc, Bool, true, false, Option, none, some, [], ◌∷◌, if◌then◌else◌, take, Bytes, codes,
}
use librcom.Action.{Result, ok, throws, Action, pure, throw, ◌>>=◌, ◌>>◌, gets, modify}
use librcom.MemBuffer.{c_str}

-- sys/socket.h: `socket` answers `none` below 0, `set_broadcast` and `set_timeout` are the two calls
-- of `setsockopt`, false below 0, as is `sendto`; `recvfrom` answers with what it has read, at most as
-- many bytes as are asked for, and `none` where it returns 0 or less.
pub record Udp (S : Type 0) : Type 0 where
  pub socket : S → Option ℕ × S
  pub set_broadcast : ℕ → S → Bool × S
  pub set_timeout : ℕ → S → Bool × S
  pub sendto : ℕ → Bytes → S → Bool × S
  pub recvfrom : ℕ → ℕ → S → Option Bytes × S
  pub close : ℕ → S → S

pub record RegistryLookup (S : Type 0) : Type 0 where
  pub world : S
  pub address : Bytes

module _ {S : Type 0} (udp : Udp S) where
  abbrev pub on_world : {A : Type 0} → (S → A × S) → Action Bytes (RegistryLookup S) A
  on_world f lookup = let (a, s) = f lookup.world in (ok a, record lookup { world = s })

  unfoldable pub close : ℕ → Action Bytes (RegistryLookup S) (Unit {0})
  close socket lookup = (ok tt, record lookup { world = udp.close socket lookup.world })

  -- A call that closes the socket and throws where it fails.
  unfoldable pub or_close : ℕ → Bytes → Bool → Action Bytes (RegistryLookup S) (Unit {0})
  or_close socket what true = pure tt
  or_close socket what false = do close socket; throw what

  abbrev pub created : Option ℕ → Action Bytes (RegistryLookup S) ℕ
  created none = throw (codes "Failed to create socket.")
  created (some socket) = do
    broadcasts ← on_world (udp.set_broadcast socket)
    or_close socket (codes "Failed to enable broadcast.") broadcasts
    times ← on_world (udp.set_timeout socket)
    or_close socket (codes "Failed to set the timeout.") times
    pure socket

  unfoldable pub create_socket : Action Bytes (RegistryLookup S) ℕ
  create_socket = do socket ← on_world udp.socket; created socket

  unfoldable pub send_message : ℕ → Action Bytes (RegistryLookup S) (Unit {0})
  send_message socket = do
    sent ← on_world (udp.sendto socket (codes "who-has-the-registry-ip"))
    or_close socket (codes "Failed to send broadcast message.") sent

  abbrev pub keep_address : Option Bytes → Action Bytes (RegistryLookup S) (Unit {0})
  keep_address none = pure tt
  keep_address (some buffer) = modify (λ lookup. record lookup { address = c_str buffer })

  unfoldable pub get_response : ℕ → Action Bytes (RegistryLookup S) (Unit {0})
  get_response socket = do buffer ← on_world (udp.recvfrom socket 1023); keep_address buffer

  -- The loop of `lookup`, on the rounds that are left.
  abbrev pub unless_found :
      Bytes
      → Action Bytes (RegistryLookup S) (Unit {0})
      → Action Bytes (RegistryLookup S) (Unit {0})
  unless_found [] again = again
  unless_found (c ∷ cs) again = pure tt

  unfoldable pub ask : ℕ → ℕ → Action Bytes (RegistryLookup S) (Unit {0})
  ask socket zero = pure tt
  ask socket (suc rounds) = do
    send_message socket
    get_response socket
    address ← gets (λ lookup. lookup.address)
    unless_found address (ask socket rounds)

  abbrev pub found : Bytes → Action Bytes (RegistryLookup S) Bytes
  found [] = throw (codes "Failed to receive data.")
  found (c ∷ cs) = pure (c ∷ cs)

  unfoldable pub lookup : Action Bytes (RegistryLookup S) Bytes
  lookup = do
    socket ← create_socket
    ask socket 8
    close socket
    address ← gets (λ lookup. lookup.address)
    found address
