-- ===== src/Tests/ServerTest.antt =====
-- The theorems on librcom/src/WebSocketServer.cpp at concrete inputs.
use librcom.Base.{
  ℕ, ◌+◌, Bool, true, false, not, ◌&&◌, ◌||◌, none, some, List, [], ◌∷◌, ◌++◌, map, ◌≡◌, ◌≢◌, refl,
  arith, ◌==◌, ltb, if◌then◌else◌, Bytes, codes,
}
use librcom.Action.{ok}
use librcom.WebSocket.Output.{MessageType, text_message}
use librcom.WebSocket.Recv.{recv_text}
use librcom.WebSocketServer.{
  IWebSockets, Surroundings, WebSocketServer, keep_if, broadcast, broadcast_loop, broadcast_to,
  send, close,
}
use librcom.WebSocketServer.Broadcast.{IsIndependent, broadcast-deliveries, is_reached, delivery}

-- Links that are open until they are closed; no send succeeds on the links from 5 on.
record Hub : Type 0 where
  closed : List ℕ
  delivered : List (ℕ × Bytes × MessageType)
  waiting : List ℕ

abbrev is_in : ℕ → List ℕ → Bool
is_in x [] = false
is_in x (y ∷ ys) = y == x || is_in x ys

abbrev sends : ℕ → Hub → Bool
sends link s = ltb link 5 && not (is_in link s.closed)

abbrev hub_send : ℕ → Bytes → MessageType → Hub → Hub
hub_send link message type s = record s {
  delivered = s.delivered ++ (if sends link s then (link, message, type) ∷ [] else []);
}

abbrev hub_close : ℕ → ℕ → Hub → Hub
hub_close link code s = record s { closed = link ∷ s.closed }

abbrev hub_sockets : IWebSockets ℕ Hub
hub_sockets = record {
  recv = λ link s. (ok (recv_text, codes "hi"), s);
  send = λ link message type s. (ok (sends link s), hub_send link message type s);
  close = λ link code s. (ok tt, hub_close link code s);
  is_connected = λ link s. not (is_in link s.closed);
}

hub_stays :
    (link : ℕ) (message : Bytes) (type : MessageType) (s : Hub)
    → sends link s ≡ true
    → not (is_in link (hub_send link message type s).closed) ≡ true
hub_stays link message type s h = ground arith

hub_closes : (link code : ℕ) (s : Hub) → not (is_in link (hub_close link code s).closed) ≡ false
hub_closes link code s = ground arith

hub_apart :
    (link other code : ℕ) (s : Hub)
    → link ≢ other
    → not (is_in other (hub_close link code s).closed) ≡ not (is_in other s.closed)
hub_apart link other code s h = ground arith

abbrev hub_independent : IsIndependent hub_sockets
hub_independent = record {
  deliveries = λ s. s.delivered;
  answer = λ link message type s. sends link s;
  after_send = hub_send;
  after_close = hub_close;
  send_ends = λ link message type s. refl;
  send_delivers = λ link message type s. refl;
  send_stays = hub_stays;
  send_apart = λ link other message type s h. refl;
  close_ends = λ link code s. refl;
  close_delivers = λ link code s. refl;
  close_closes = hub_closes;
  close_apart = hub_apart;
}

-- Link 2 has been closed, link 7 fails, link 3 is left out.
abbrev four_links : WebSocketServer Hub
four_links = record {
  world = record { closed = 2 ∷ []; delivered = []; waiting = [] };
  links = 1 ∷ 2 ∷ 3 ∷ 7 ∷ 4 ∷ [];
  message = [];
}

broadcast-deliveries_example :
    (after : Hub) × (broadcast hub_sockets (codes "all") text_message (some 3) four_links
      ≡ (ok tt, record four_links { world = after }))
    × (after.delivered
        ≡ map (delivery hub_sockets hub_independent (codes "all") text_message (some 3)) (
            keep_if
              (is_reached hub_sockets hub_independent (codes "all") text_message (some 3) after)
              four_links.links))
broadcast-deliveries_example =
    broadcast-deliveries hub_sockets hub_independent (codes "all") text_message (some 3) four_links
      (ground arith)

-- Of these links the first and the last get the message.
broadcast_delivered :
    (broadcast hub_sockets (codes "all") text_message (some 3) four_links).1.world.delivered
    ≡ (1, codes "all", text_message) ∷ (4, codes "all", text_message) ∷ []
unfolding broadcast broadcast_loop broadcast_to send close
broadcast_delivered = refl

-- One connection waits to be accepted; the listener closes link 3 when it has sent a message.
abbrev hub_around : Surroundings ℕ Hub
hub_around = record {
  accept = λ s. elim s.waiting [
    | [] ↦ (ok none, s)
    | fd ∷ fds ↦ (ok (some fd), record s { waiting = fds })
  ];
  new_server_side_websocket = λ fd s. (ok (fd + 10), s);
  onmessage = λ links link message type s. (ok tt, (if link == 3 then hub_close 3 0 s else s));
  close_server_socket = λ s. s;
  is_runtime_error = λ e. e == 0;
}

abbrev before_events : WebSocketServer Hub
before_events = record four_links { world = record (four_links.world) { waiting = 8 ∷ [] } }

abbrev after_events : WebSocketServer Hub
after_events = record {
  world = record { closed = 3 ∷ 2 ∷ []; delivered = []; waiting = [] };
  links = 1 ∷ 7 ∷ 4 ∷ 18 ∷ [];
  message = codes "hi";
}
