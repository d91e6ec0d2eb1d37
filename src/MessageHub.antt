-- ===== src/MessageHub.antt =====
-- How a hub registers its topic and how a link finds it: `class MessageHub`
-- (librcom/src/MessageHub.cpp) and the constructor of `class MessageLink`
-- (librcom/src/MessageLink.cpp), over a factory of websockets.
pub mod Meeting
use librcom.Base.{ℕ, Bool, true, false, not, Option, none, some, if◌then◌else◌, Bytes, codes}
use librcom.Action.{Result, ok, throws, Action, pure, throw, ◌>>=◌, ◌>>◌}
use librcom.Address.{Inet, Address, is_valid_topic}
use librcom.Env.{Env}
use librcom.Frame.{close_normal}
use librcom.Json.{Json}
use librcom.MessageLink.{ClientWebSocket}
use librcom.RegistryProxy
use librcom.RegistryServer.{
  Thrown, runtime_error, other_exception, returned, address_result, default_address,
}

-- ISocketFactory.h, `get_local_ip` of ip.h over the interfaces of the system,
-- RegistryServer::get_address, and the websockets, which are known by numbers.
pub record Factory (S : Type 0) : Type 0 where
  pub get_local_ip : Action Thrown S Bytes
  pub registry_address : Action Thrown S Address
  pub new_client_side_websocket : Address → Action Thrown S ℕ
  pub websocket : ℕ → ClientWebSocket Thrown S
  pub close : ℕ → ℕ → Action Thrown S (Unit {0})

-- The tests of the constructor of a hub: whether there is a server and a factory, and the topic.
unfoldable pub check_hub : Bool → Bool → Bytes → Result Thrown (Unit {0})
check_hub has_server has_factory topic =
    if not has_server
    then throws other_exception
    else if not has_factory
    then throws other_exception
    else if not (is_valid_topic topic)
    then throws other_exception
    else ok tt

module _ {J S : Type 0} (json : Json J) (env : Env S) (inet : Inet) (factory : Factory S) where
  -- The constructor `Address()`.
  unfoldable pub new_address : Action Thrown S Address
  new_address = do
    local_ip ← factory.get_local_ip
    returned (address_result (default_address inet local_ip))

  -- The destructor of a proxy, which closes its websocket after an exception too.
  unfoldable pub closed : {A : Type 0} → ℕ → Result Thrown A × S → Result Thrown A × S
  closed link (r, s) = (r, (factory.close link close_normal s).1)

  -- `register_topic`, given how the server of the hub tells its address.
  unfoldable pub register_topic : Action Thrown S Address → Bytes → Action Thrown S (Unit {0})
  register_topic get_address topic = do
    _ ← new_address
    registry_address ← factory.registry_address
    link ← factory.new_client_side_websocket registry_address
    λ s. closed link (
        (do
          _ ← new_address
          my_address ← get_address
          RegistryProxy.set json env inet (factory.websocket link) topic my_address)
          s)

  -- `MessageLink::get_remote_address`, with the rounds of the question to the registry.
  unfoldable pub get_remote_address :
      ℕ → Bytes → Address → ℕ → Action Thrown S (Bool × Option Address)
  get_remote_address fuel topic address timeout = do
    _ ← new_address
    registry_address ← factory.registry_address
    link ← factory.new_client_side_websocket registry_address
    λ s.
        closed link
          (RegistryProxy.get json env inet (factory.websocket link) fuel topic address timeout s)

  -- `MessageLink::connect`: the websocket, or `none` where it answers false.
  abbrev pub connected : Option Address → Action Thrown S (Option ℕ)
  connected none = pure none
  connected (some hub_address) = do
    link ← factory.new_client_side_websocket hub_address
    pure (some link)

  unfoldable pub connect : ℕ → Bytes → ℕ → Action Thrown S (Option ℕ)
  connect fuel topic timeout = do
    hub_address ← new_address
    (ended, found) ← get_remote_address fuel topic hub_address timeout
    connected found

  abbrev pub or_failed : Option ℕ → Action Thrown S ℕ
  or_failed none = throw (runtime_error (codes "MessageLink: Failed to connect"))
  or_failed (some link) = pure link

  -- The constructor of a link.
  unfoldable pub new_message_link : ℕ → Bytes → ℕ → Action Thrown S ℕ
  new_message_link fuel topic timeout =
      if not (is_valid_topic topic)
      then throw (runtime_error (codes "MessageLink: Ill-formatted topic string"))
      else (do websocket ← connect fuel topic timeout; or_failed websocket)
