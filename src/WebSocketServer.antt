-- ===== src/WebSocketServer.antt =====
-- `class WebSocketServer` (librcom/src/WebSocketServer.cpp). A link is known by a number, for the
-- address of the object; what the server calls (its listening socket, the factory, the links and the
-- listener) acts on one state of the world.
pub mod Broadcast
pub mod Events
use librcom.Base.{
  ℕ, zero, suc, Bool, true, false, not, Option, none, some, List, [], ◌∷◌, ◌++◌, ◌==◌,
  if◌then◌else◌, length, Bytes,
}
use librcom.Action.{Result, Action, pure, throw, ◌>>=◌, ◌>>◌, gets, modify, catch, lift}
use librcom.Frame.{close_internal_error, close_going_away}
use librcom.WebSocket.Output.{MessageType, text_message, binary_message}
use librcom.WebSocket.Recv.{
  RecvStatus, recv_text, recv_binary, recv_closed, recv_failed, recv_timeout,
}

-- IWebSocket.h, for every link; `recv` answers with the message too.
pub record IWebSockets (E S : Type 0) : Type 0 where
  pub recv : ℕ → Action E S (RecvStatus × Bytes)
  pub send : ℕ → Bytes → MessageType → Action E S Bool
  pub close : ℕ → ℕ → Action E S (Unit {0})
  pub is_connected : ℕ → S → Bool

-- IServerSocket.h, ISocketFactory.h and IMessageListener.h. `accept` answers `none` for -1. The
-- listener gets the links of the server, which it may send to, but does not call `handle_events`.
-- `is_runtime_error` tells the exceptions that `catch (std::runtime_error&)` catches.
pub record Surroundings (E S : Type 0) : Type 0 where
  pub accept : Action E S (Option ℕ)
  pub new_server_side_websocket : ℕ → Action E S ℕ
  pub onmessage : List ℕ → ℕ → Bytes → MessageType → Action E S (Unit {0})
  pub close_server_socket : S → S
  pub is_runtime_error : E → Bool

pub record WebSocketServer (S : Type 0) : Type 0 where
  pub world : S
  pub links : List ℕ
  pub message : Bytes

-- `std::remove_if` and `erase`
unfoldable pub keep_if : (ℕ → Bool) → List ℕ → List ℕ
keep_if test [] = []
keep_if test (x ∷ xs) = let rest = keep_if test xs in if test x then x ∷ rest else rest

-- The test of `broadcast`; `exclude` is `none` for a null pointer.
abbrev pub is_excluded : Option ℕ → ℕ → Bool
is_excluded none link = false
is_excluded (some excluded) link = excluded == link

module _ {E S : Type 0} (sockets : IWebSockets E S) where
  abbrev pub on_world : {A : Type 0} → Action E S A → Action E (WebSocketServer S) A
  on_world m = lift (λ server. server.world) (λ world server. record server { world = world }) m

  abbrev pub is_link_connected : ℕ → WebSocketServer S → Bool
  is_link_connected link server = sockets.is_connected link server.world

  -- `send`
  unfoldable pub send : ℕ → Bytes → MessageType → Action E (WebSocketServer S) Bool
  send link message type = do
    connected ← gets (is_link_connected link)
    (if connected then on_world (sockets.send link message type) else pure true)

  -- `close`
  unfoldable pub close : ℕ → ℕ → Action E (WebSocketServer S) (Unit {0})
  close link code = on_world (sockets.close link code)

  -- One round of `broadcast`.
  unfoldable pub broadcast_to : Bytes → MessageType → ℕ → Action E (WebSocketServer S) (Unit {0})
  broadcast_to message type link = do
    success ← send link message type
    (if success then pure tt else close link close_internal_error)

  -- Its loop.
  unfoldable pub broadcast_loop :
      Bytes → MessageType → Option ℕ → List ℕ → Action E (WebSocketServer S) (Unit {0})
  broadcast_loop message type exclude [] = pure tt
  broadcast_loop message type exclude (link ∷ links) = do
    (if is_excluded exclude link then pure tt else broadcast_to message type link)
    broadcast_loop message type exclude links

  unfoldable pub broadcast :
      Bytes → MessageType → Option ℕ → Action E (WebSocketServer S) (Unit {0})
  broadcast message type exclude = do
    links ← gets (λ server. server.links)
    broadcast_loop message type exclude links

  unfoldable pub remove_closed_links : Action E (WebSocketServer S) (Unit {0})
  remove_closed_links = modify (λ server. record server {
    links = keep_if (λ link. sockets.is_connected link server.world) server.links;
  })

  -- The loop of the destructor.
  unfoldable pub close_links : List ℕ → Action E (WebSocketServer S) (Unit {0})
  close_links [] = pure tt
  close_links (link ∷ links) = do
    connected ← gets (is_link_connected link)
    (if connected then close link close_going_away else pure tt)
    close_links links

  module _ (around : Surroundings E S) where
    -- `append`
    unfoldable pub append : ℕ → Action E (WebSocketServer S) (Unit {0})
    append sockfd = do
      link ← on_world (around.new_server_side_websocket sockfd)
      modify (λ server. record server { links = server.links ++ link ∷ [] })

    -- `try_new_connection`, with `handle_new_connection`
    unfoldable pub try_new_connection : ℕ → Action E (WebSocketServer S) (Unit {0})
    try_new_connection sockfd =
        catch (append sockfd) (λ e. if around.is_runtime_error e then pure tt else throw e)

    -- The loop of `handle_new_connections`, with the number of rounds at most; it answers false
    -- where they do not suffice.
    unfoldable pub handle_new_connections : ℕ → Action E (WebSocketServer S) Bool
    handle_new_connections zero = pure false
    handle_new_connections (suc fuel) = do
      accepted ← on_world around.accept
      elim accepted [
        | none ↦ pure true
        | some sockfd ↦ (do try_new_connection sockfd; handle_new_connections fuel)
      ]

    -- What `handle_new_messages` of one link does with the answer of `recv`.
    unfoldable pub handle_status : ℕ → RecvStatus → Action E (WebSocketServer S) (Unit {0})
    handle_status link recv_text = do
      server ← gets (λ server. server)
      on_world (around.onmessage server.links link server.message text_message)
    handle_status link recv_binary = do
      server ← gets (λ server. server)
      on_world (around.onmessage server.links link server.message binary_message)
    handle_status link recv_failed = close link close_internal_error
    handle_status link recv_closed = pure tt
    handle_status link recv_timeout = pure tt

    -- `handle_new_messages(index)`
    unfoldable pub handle_new_message : ℕ → Action E (WebSocketServer S) (Unit {0})
    handle_new_message link = do
      (status, message) ← on_world (sockets.recv link)
      modify (λ server. record server { message = message })
      handle_status link status

    -- The loop of `handle_new_messages`
    unfoldable pub handle_new_messages : List ℕ → Action E (WebSocketServer S) (Unit {0})
    handle_new_messages [] = pure tt
    handle_new_messages (link ∷ links) = do
      connected ← gets (is_link_connected link)
      (if connected then handle_new_message link else pure tt)
      handle_new_messages links

    unfoldable pub handle_events : ℕ → Action E (WebSocketServer S) Bool
    handle_events fuel = do
      ended ← handle_new_connections fuel
      links ← gets (λ server. server.links)
      handle_new_messages links
      remove_closed_links
      pure ended

    -- The destructor.
    unfoldable pub destroy : Action E (WebSocketServer S) (Unit {0})
    destroy = do
      modify (λ server. record server { world = around.close_server_socket server.world })
      links ← gets (λ server. server.links)
      close_links links
