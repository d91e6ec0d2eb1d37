-- ===== src/WebSocketServer/Events.antt =====
-- Which links the server has after `handle_events`.
use librcom.Base.{ℕ, List, ◌++◌, ◌≡◌, refl}
use librcom.Action.{Result, Action}
use librcom.WebSocketServer.{IWebSockets, Surroundings, WebSocketServer, on_world}

module _ {E S : Type 0} (sockets : IWebSockets E S) (around : Surroundings E S) where
  -- The links after a method, by an exception or not.
  abbrev links_after : {A : Type 0} → Result E A × WebSocketServer S → List ℕ
  links_after r = r.1.links

  -- The links after a method are those before it.
  abbrev KeepsLinks : {A : Type 0} → Action E (WebSocketServer S) A → Type 0
  KeepsLinks m = (server : WebSocketServer S) → links_after (m server) ≡ server.links

  on_world-KeepsLinks : {A : Type 0} (m : Action E S A) → KeepsLinks (on_world sockets m)
  on_world-KeepsLinks m server = refl

  -- New links come behind those that are there.
  abbrev Grows : {A : Type 0} → WebSocketServer S → Result E A × WebSocketServer S → Type 0
  Grows server r = (made : List ℕ) × (links_after r ≡ server.links ++ made)
