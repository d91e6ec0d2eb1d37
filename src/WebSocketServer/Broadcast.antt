-- ===== src/WebSocketServer/Broadcast.antt =====
-- Who gets what `broadcast` sends.
use librcom.Base.{
  ℕ, Bool, true, false, not, ◌&&◌, Option, List, [], ◌∷◌, ◌++◌, map, append-nil, append_assoc, ◌≡◌,
  ◌≢◌, refl, sym, ap, ◌∙◌, if◌then◌else◌, Bool-cases, inl, inr, Bytes, All,
}
use librcom.Action.{ok, pure}
use librcom.Frame.{close_internal_error}
use librcom.WebSocket.Output.{MessageType}
use librcom.WebSocketServer.{
  IWebSockets, WebSocketServer, keep_if, is_excluded, send, close, broadcast_to, broadcast_loop,
  broadcast,
}

-- No link stands twice in the list.
abbrev pub Distinct : List ℕ → Type 0
Distinct [] = Unit
Distinct (link ∷ links) = All (λ other. link ≢ other) links × Distinct links

-- What IWebSocket.h leaves to the links: sending and closing end without an exception and touch no
-- other link, a link that has sent is still connected, one that has been closed is not. `deliveries`
-- are the messages that have been sent, in their order.
pub record IsIndependent {E S : Type 0} (sockets : IWebSockets E S) : Type 0 where
  pub deliveries : S → List (ℕ × Bytes × MessageType)
  pub answer : ℕ → Bytes → MessageType → S → Bool
  pub after_send : ℕ → Bytes → MessageType → S → S
  pub after_close : ℕ → ℕ → S → S
  pub send_ends :
      (link : ℕ) (message : Bytes) (type : MessageType) (s : S)
      → sockets.send link message type s
        ≡ (ok (answer link message type s), after_send link message type s)
  pub send_delivers :
      (link : ℕ) (message : Bytes) (type : MessageType) (s : S)
      → deliveries (after_send link message type s)
        ≡ deliveries s ++ (if answer link message type s then (link, message, type) ∷ [] else [])
  pub send_stays :
      (link : ℕ) (message : Bytes) (type : MessageType) (s : S)
      → answer link message type s ≡ true
      → sockets.is_connected link (after_send link message type s) ≡ true
  pub send_apart :
      (link other : ℕ) (message : Bytes) (type : MessageType) (s : S)
      → link ≢ other
      → sockets.is_connected other (after_send link message type s) ≡ sockets.is_connected other s
  pub close_ends :
      (link code : ℕ) (s : S) → sockets.close link code s ≡ (ok tt, after_close link code s)
  pub close_delivers : (link code : ℕ) (s : S) → deliveries (after_close link code s) ≡ deliveries s
  pub close_closes :
      (link code : ℕ) (s : S) → sockets.is_connected link (after_close link code s) ≡ false
  pub close_apart :
      (link other code : ℕ) (s : S)
      → link ≢ other
      → sockets.is_connected other (after_close link code s) ≡ sockets.is_connected other s

module _ {E S : Type 0} (sockets : IWebSockets E S) (links_apart : IsIndependent sockets)
    (message : Bytes) (type : MessageType) (exclude : Option ℕ) where
  open links_apart use {
    deliveries, answer, after_send, after_close, send_ends, send_delivers, send_stays, send_apart,
    close_ends, close_delivers, close_closes, close_apart,
  }

  -- A link that is connected and not left out.
  abbrev pub is_reached : S → ℕ → Bool
  is_reached s link = not (is_excluded exclude link) && sockets.is_connected link s

  abbrev pub delivery : ℕ → ℕ × Bytes × MessageType
  delivery link = (link, message, type)

  -- How a round for one link ends.
  record Round (link : ℕ) (server : WebSocketServer S) (after : S) : Type 0 where
    pub round_ends :
        (if is_excluded exclude link then pure tt else broadcast_to sockets message type link)
          server
        ≡ (ok tt, record server { world = after })
    pub round_delivers :
        deliveries after
        ≡ deliveries server.world ++ (if is_reached after link then delivery link ∷ [] else [])
    pub round_apart :
        (other : ℕ)
        → link ≢ other
        → sockets.is_connected other after ≡ sockets.is_connected other server.world

  -- One of a link that is connected and not left out.
  connected-Round :
      (link : ℕ) (server : WebSocketServer S)
      → is_excluded exclude link ≡ false
      → sockets.is_connected link server.world ≡ true
      → (after : S) × Round link server after
  unfolding broadcast_to send close
  connected-Round link server addressed connected =
      elim (Bool-cases (answer link message type server.world)) [
        | inl sent ↦ (
          after_send link message type server.world,
          record {
            round_ends = rw (addressed, connected, send_ends, sent) refl;
            round_delivers =
                rw (addressed, send_stays link message type server.world sent, send_delivers, sent)
                  refl;
            round_apart = λ other apart. send_apart link other message type server.world apart;
          },
        )
        | inr lost ↦
            let s1 = after_send link message type server.world in
            (
              after_close link close_internal_error s1,
              record {
                round_ends = rw (addressed, connected, send_ends, lost, close_ends) refl;
                round_delivers =
                    rw (addressed, close_closes, close_delivers, send_delivers, lost) refl;
                round_apart = λ other apart.
                    close_apart link other close_internal_error s1 apart
                    ∙ send_apart link other message type server.world apart;
              },
            )
      ]

  broadcast_to-Round :
      (link : ℕ) (server : WebSocketServer S) → (after : S) × Round link server after
  unfolding broadcast_to send close
  broadcast_to-Round link server = elim (Bool-cases (is_excluded exclude link)) [
    | inl excluded ↦ (
      server.world,
      record {
        round_ends = rw excluded refl;
        round_delivers = rw (excluded, append-nil) refl;
        round_apart = λ other apart. refl;
      },
    )
    | inr addressed ↦ elim (Bool-cases (sockets.is_connected link server.world)) [
      | inr closed ↦ (
        server.world,
        record {
          round_ends = rw (addressed, closed) refl;
          round_delivers = rw (addressed, closed, append-nil) refl;
          round_apart = λ other apart. refl;
        },
      )
      | inl connected ↦ connected-Round link server addressed connected
    ]
  ]

  others_apart :
      (link : ℕ) (links : List ℕ)
      → All (λ other. link ≢ other) links
      → All (λ other. other ≢ link) links
  others_apart link [] h = tt
  others_apart link (other ∷ links) h = (λ same. h.0 (sym same), others_apart link links h.1)

  -- What one link adds to the deliveries.
  one_more :
      (now later : Bool) (link : ℕ) (rest : List ℕ)
      → now ≡ later
      → (if now then delivery link ∷ [] else []) ++ map delivery rest
        ≡ map delivery (if later then link ∷ rest else rest)
  one_more true true link rest e = refl
  one_more false false link rest e = refl
  one_more true false link rest e = absurd (cc e)
  one_more false true link rest e = absurd (cc e)

  broadcast_loop_lem :
      (links : List ℕ) (server : WebSocketServer S)
      → Distinct links
      → (after : S) × (broadcast_loop sockets message type exclude links server
          ≡ (ok tt, record server { world = after }))
        × (deliveries after
            ≡ deliveries server.world ++ map delivery (keep_if (is_reached after) links))
        × ((other : ℕ)
            → All (λ link. link ≢ other) links
            → sockets.is_connected other after ≡ sockets.is_connected other server.world)
  unfolding broadcast_loop keep_if
  broadcast_loop_lem [] server distinct =
      (server.world, refl, rw append-nil refl, λ other apart. refl)
  broadcast_loop_lem (link ∷ links) server distinct =
      let (s1, round) = broadcast_to-Round link server in
      let (after, ends, delivered, apart) =
        broadcast_loop_lem links (record server { world = s1 }) distinct.1 in
      let same : sockets.is_connected link after ≡ sockets.is_connected link s1 =
        apart link (others_apart link links distinct.0) in
      (
        after,
        rw (round.round_ends) ends,
        delivered
            ∙ rw (round.round_delivers, append_assoc)
                (ap (λ t. deliveries server.world ++ t)
                  (one_more (is_reached s1 link) (is_reached after link) link
                    (keep_if (is_reached after) links)
                    (ap (λ t. not (is_excluded exclude link) && t) (sym same)))),
        λ other h. apart other h.1 ∙ round.round_apart other h.0,
      )

  -- `broadcast` ends, and the messages that it has added to those that had been sent are, in the
  -- order of the links and once each, those to the links that are connected afterwards and are not
  -- the excluded one; a link whose send failed is not among them. This holds where sending and
  -- closing end without an exception and touch no other link, a link that has sent is still
  -- connected, one that has been closed is not, and no link stands twice in the list.
  pub broadcast-deliveries :
      (server : WebSocketServer S)
      → Distinct server.links
      → (after : S) × (broadcast sockets message type exclude server
          ≡ (ok tt, record server { world = after }))
        × (deliveries after
            ≡ deliveries server.world ++ map delivery (keep_if (is_reached after) server.links))
  unfolding broadcast
  broadcast-deliveries server distinct =
      let (after, ends, delivered, apart) = broadcast_loop_lem server.links server distinct in
      (after, ends, delivered)
