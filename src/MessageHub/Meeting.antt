-- ===== src/MessageHub/Meeting.antt =====
-- A link to a topic is connected to the hub that has registered it.
use librcom.Base.{ℕ, suc, ◌^◌, ◌<◌, true, some, List, [], ◌≡◌, refl, ap, ◌≢◌, arith, length, Bytes}
use librcom.Action.{Result, ok, throws, Action, pure, next}
use librcom.Address.{Inet, Address, is_valid_topic}
use librcom.Address
use librcom.Address.Topic.{is_valid_topic-IsPlainText}
use librcom.Env.{Env}
use librcom.Json.{Json, IsJson}
use librcom.Json.Plain.{ReadsObjects}
use librcom.MessageHub.{
  Factory, new_address, closed, register_topic, get_remote_address, connect, or_failed,
  new_message_link,
}
use librcom.Registry
use librcom.Registry.{RegistryEntry}
use librcom.Registry.Table.{IsFunctional, get-set}
use librcom.RegistryProxy.Refinement.{IsAround, set-refines, get-refines}
use librcom.RegistryProxy.Wire.{Wire, idle, wire}
use librcom.RegistryServer.{Thrown, success_response, address_response}

-- A factory that knows the registry: the websocket to it is the wire to its server.
pub record LeadsToRegistry {J C : Type 0} (json : Json J) (inet : Inet) (local_ip : Bytes)
    (factory : Factory (Wire C)) : Type 0 where
  pub registry : Address
  pub link : ℕ
  pub tells_ip : (s : Wire C) → factory.get_local_ip s ≡ (ok local_ip, s)
  pub knows_registry : (s : Wire C) → factory.registry_address s ≡ (ok registry, s)
  pub connects : (s : Wire C) → factory.new_client_side_websocket registry s ≡ (ok link, s)
  pub leads : factory.websocket link ≡ wire json inet local_ip
  pub closes : (code : ℕ) (s : Wire C) → factory.close link code s ≡ (ok tt, s)

module _ {J C : Type 0} (json : Json J) (laws : IsJson json) (reads : ReadsObjects json)
    (inet : Inet) (local_ip : Bytes) (env : Env (Wire C)) (around : IsAround json inet local_ip env)
    (factory : Factory (Wire C)) (leading : LeadsToRegistry json inet local_ip factory)
    (topic : Bytes) (valid : is_valid_topic topic ≡ true) where
  open leading use {tells_ip, knows_registry, connects, leads, closes}

  new_address-local : (s : Wire C) → new_address json env inet factory s ≡ (ok around.local, s)
  unfolding new_address
  new_address-local s = rw (tells_ip, around.local_address) refl

  register_topic-set :
      (hub : Address) (get_address : Action Thrown (Wire C) Address) (response : Bytes) (c : C)
      (entries entries' : List (RegistryEntry Address))
      → ((s : Wire C) → get_address s ≡ (ok hub, s))
      → hub.sin_port < 2 ^ 16
      → hub.sin_addr < 2 ^ 32
      → Registry.set (Address.is_set inet) topic hub entries ≡ some entries'
      → register_topic json env inet factory get_address topic
          (record { registry = idle entries response; rest = c })
        ≡ (ok tt, record { registry = idle entries' success_response; rest = c })
  unfolding register_topic closed
  register_topic-set hub get_address response c entries entries' told port_fits addr_fits put =
      let plain = (is_valid_topic-IsPlainText topic valid).0 in
      rw (new_address-local, knows_registry, connects)
        (rw (new_address-local, told, leads)
          (rw
            (
              set-refines json laws reads inet local_ip env around topic entries response c plain
                  hub entries' port_fits addr_fits put,
              closes,
            )
            refl))

  new_message_link-get :
      (hub : Address) (response : Bytes) (c : C) (entries : List (RegistryEntry Address))
      (fuel timeout : ℕ)
      → hub.sin_port < 2 ^ 16
      → hub.sin_addr < 2 ^ 32
      → Registry.get topic entries ≡ some hub
      → (s : Wire C) × (new_message_link json env inet factory
            (suc fuel)
            topic
            timeout
            (record { registry = idle entries response; rest = c })
          ≡ next (factory.new_client_side_websocket hub s) pure)
        × (s.registry ≡ idle entries (address_response topic (Address.tostring inet hub)))
  unfolding new_message_link connect get_remote_address closed
  new_message_link-get hub response c entries fuel timeout port_fits addr_fits listed =
      let plain = (is_valid_topic-IsPlainText topic valid).0 in
      let (s, got, table) =
        get-refines json laws reads inet local_ip env around topic entries response c plain hub
          around.local fuel timeout port_fits addr_fits listed in
      (
        s,
        rw (valid, new_address-local)
            (rw (new_address-local, knows_registry, connects, leads)
              (rw (got, closes) (linked (factory.new_client_side_websocket hub s)))),
        table,
      )
    where
      linked :
          (r : Result Thrown ℕ × Wire C)
          → next (next r (λ link. pure (some link))) (or_failed json env inet factory) ≡ next r pure
      linked (ok link, s) = refl
      linked (throws e, s) = refl

  topic-nonempty : [] ≢ topic
  topic-nonempty e =
      let (plain, long, short) = is_valid_topic-IsPlainText topic valid in
      let none_long : 0 ≡ length topic = ap length e in omega arith

  -- A link finds its hub. Where the factory knows the address of the host and of the registry, and
  -- its websocket to it leads to the registry's server, under the laws for the proxy, and for a
  -- table that holds no topic twice and takes the address of the hub: when a hub has registered a
  -- valid topic, a link with this topic asks the server and, in the first round, comes to make its
  -- websocket to the very address of the hub (with a port below 2^16 and an IP address below
  -- 2^32); how that making ends is how the constructor of the link ends, and the server holds the
  -- table that `Registry::set` makes.
  pub link_meets_hub :
      (hub : Address) (get_address : Action Thrown (Wire C) Address) (response : Bytes) (c : C)
      (entries entries' : List (RegistryEntry Address)) (fuel timeout : ℕ)
      → ((s : Wire C) → get_address s ≡ (ok hub, s))
      → hub.sin_port < 2 ^ 16
      → hub.sin_addr < 2 ^ 32
      → IsFunctional entries
      → Registry.set (Address.is_set inet) topic hub entries ≡ some entries'
      → (after : Wire C) × (s : Wire C) × (register_topic json env inet factory get_address topic
            (record { registry = idle entries response; rest = c })
          ≡ (ok tt, after))
        × (new_message_link json env inet factory (suc fuel) topic timeout after
            ≡ next (factory.new_client_side_websocket hub s) pure)
        × (s.registry ≡ idle entries' (address_response topic (Address.tostring inet hub)))
  link_meets_hub hub get_address response c entries entries' fuel timeout told port_fits addr_fits
        functional put =
      let (listed, others, still) =
        get-set (Address.is_set inet) topic [] hub entries entries' topic-nonempty functional put in
      let (s, linked, table) =
        new_message_link-get hub success_response c entries' fuel timeout port_fits addr_fits
          listed in
      (
        record { registry = idle entries' success_response; rest = c },
        s,
        register_topic-set hub get_address response c entries entries' told port_fits addr_fits put,
        linked,
        table,
      )
