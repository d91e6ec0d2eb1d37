-- ===== src/RegistryProxy/Refinement.antt =====
-- The operations of the proxy, over the wire to the server, are those of the table of Registry.cpp.
use librcom.Base.{
  ℕ, suc, ◌^◌, ◌<◌, true, none, some, List, [], ◌∷◌, ◌≡◌, refl, ap, ◌∙◌, arith, Bytes, codes, equal,
  texts_apart, All, All-append,
}
use librcom.Action.{ok, throws}
use librcom.Address.{Inet, Address}
use librcom.Address
use librcom.Address.Decimal.{to_string-digits}
use librcom.Address.RoundTrip.{IsInet, parse-tostring}
use librcom.Env.{Env, rcom_time}
use librcom.Http.Characters.{isdigit}
use librcom.Json.{Json, IsJson}
use librcom.Json.Plain.{
  ReadsObjects, IsPlainText, object_text, object_of, fixed-IsPlainText, is_plain_char,
}
use librcom.MemBuffer.{c_str, printf}
use librcom.Registry
use librcom.Registry.{RegistryEntry}
use librcom.RegistryProxy.{
  set, remove, get, get_loop, send_request, read_response, parse_response, is_success,
  assert_success, get_address, response_assert_success, read_address,
}
use librcom.RegistryProxy.Members.{three_first, three_third}
use librcom.RegistryProxy.Texts.{
  register_rest, success_field, address_response_lem, success_response_lem, object_text-c_str,
}
use librcom.RegistryProxy.Wire.{
  Wire, idle, wire, onmessage-register, onmessage-unregister, onmessage-get,
}
use librcom.RegistryServer.{
  runtime_error, success_response, address_response, default_address, zero_address,
}

-- What the parts around the registry do: the text of an IP address is plain, the address of the host is
-- one, and the clock changes nothing of the registry.
pub record IsAround {J C : Type 0} (json : Json J) (inet : Inet) (local_ip : Bytes)
    (env : Env (Wire C)) : Type 0 where
  pub around_inet : IsInet inet
  pub ntoa_plain : (addr : ℕ) → IsPlainText (inet.inet_ntoa addr)
  pub local : Address
  pub local_address : default_address inet local_ip ≡ ok local
  pub time : Wire C → ℕ × ℕ
  pub ticked : Wire C → C
  pub clock_ends : (s : Wire C) → env.linux.clock_gettime s ≡ (time s, record s { rest = ticked s })

digit-plain : (c : ℕ) → isdigit c ≡ true → is_plain_char c ≡ true
unfolding is_plain_char
digit-plain c h = ground arith

digits-IsPlainText : (cs : Bytes) → All (λ d. isdigit d ≡ true) cs → IsPlainText cs
digits-IsPlainText [] h = tt
digits-IsPlainText (c ∷ cs) h = (digit-plain c h.0, digits-IsPlainText cs h.1)

module _ {J C : Type 0} (json : Json J) (laws : IsJson json) (reads : ReadsObjects json)
    (inet : Inet) (local_ip : Bytes) (env : Env (Wire C))
    (around : IsAround json inet local_ip env) where
  tostring-IsPlainText : (a : Address) → IsPlainText (Address.tostring inet a)
  unfolding Address.tostring Address.ip is_plain_char
  tostring-IsPlainText a =
      let (c, cs, shape, first, others) = to_string-digits (Address.port inet a) in
      All-append _ (inet.inet_ntoa a.sin_addr) (b':' ∷ Address.to_string (Address.port inet a))
        (around.ntoa_plain a.sin_addr)
        (refl, rw shape (digits-IsPlainText (c ∷ cs) (first, others)))

  -- The proxy reads that it has succeeded.
  success_read : json.parse success_response ≡ ok (object_of json (success_field ∷ []) json.null)
  unfolding is_plain_char
  success_read =
      ap json.parse success_response_lem
      ∙ reads.reads_object success_field [] (fixed-IsPlainText (codes "success") refl) tt

  success_at :
      json.at (codes "success") (object_of json (success_field ∷ []) json.null)
      ≡ ok (json.boolean true)
  success_at = laws.at_insert (codes "success") (json.boolean true) json.null laws.null_IsObject

  success-c_str : c_str success_response ≡ success_response
  unfolding success_response printf c_str
  success-c_str = refl

  module _ (topic : Bytes) (entries : List (RegistryEntry Address)) (response : Bytes) (c : C)
      (plain : IsPlainText topic) where
    abbrev before : Wire C
    before = record { registry = idle entries response; rest = c }

    -- Where the websocket of a proxy leads to the server of the registry, which handles each
    -- message in turn, `set` is the operation `set` of the table: for a topic of printable
    -- characters without a quote or a backslash and an address with a port below 2^16 and an IP
    -- address below 2^32 that the table takes, it ends without an exception, the table of the
    -- server is the one that `Registry::set` makes, and no answer is left over. It rests on the
    -- laws of the JSON library, and on the manual of inet_ntoa with texts of such characters.
    pub set-refines :
        (a : Address) (entries' : List (RegistryEntry Address))
        → a.sin_port < 2 ^ 16
        → a.sin_addr < 2 ^ 32
        → Registry.set (Address.is_set inet) topic a entries ≡ some entries'
        → set json env inet (wire json inet local_ip) topic a before
          ≡ (ok tt, record { registry = idle entries' success_response; rest = c })
    unfolding set send_request response_assert_success read_response parse_response assert_success
    set-refines a entries' port_fits addr_fits put =
        let text = Address.tostring inet a in
        let parsed = parse-tostring inet a zero_address around.around_inet port_fits addr_fits in
        rw
          (
            onmessage-register json laws reads inet local_ip topic text a entries entries' response
                plain (tostring-IsPlainText a) parsed put,
            success-c_str,
            success_read,
            success_at,
            laws.get_bool_boolean,
          )
          refl

    -- Over the wire to the server, `remove` of a topic of printable characters without a quote or
    -- a backslash is the operation `remove` of the table, under the same laws: it ends without an
    -- exception, and the table of the server is the one that `Registry::remove` makes.
    pub remove-refines : remove json env inet (wire json inet local_ip) topic before ≡ (
      ok tt,
      record { registry = idle (Registry.remove topic entries) success_response; rest = c },
    )
    unfolding remove send_request response_assert_success read_response parse_response
        assert_success
    remove-refines =
        rw
          (
            onmessage-unregister json laws reads inet local_ip topic entries response plain,
            success-c_str,
            success_read,
            success_at,
            laws.get_bool_boolean,
          )
          refl

    -- Over the same wire, with a clock that does not touch the registry and an address of the host
    -- that can be read, `get` of such a topic with at least one round is the operation `get` of
    -- the table, where that finds an address with a port below 2^16 and an IP address below 2^32:
    -- it ends in the first round with this address, and the table stays as it is.
    pub get-refines :
        (a b : Address) (fuel timeout : ℕ)
        → a.sin_port < 2 ^ 16
        → a.sin_addr < 2 ^ 32
        → Registry.get topic entries ≡ some a
        → (s : Wire C) × (get json env inet
              (wire json inet local_ip)
              (suc fuel)
              topic
              b
              timeout
              before
            ≡ (ok (true, some a), s))
          × (s.registry ≡ idle entries (address_response topic (Address.tostring inet a)))
    unfolding get get_loop send_request read_address read_response parse_response is_success
        get_address rcom_time equal is_plain_char
    get-refines a b fuel timeout port_fits addr_fits listed =
        let text = Address.tostring inet a in
        let text_plain = tostring-IsPlainText a in
        let reply = address_response topic text in
        let whole = object_text-c_str topic text plain text_plain in
        let read : json.parse reply
            ≡ ok (object_of json (success_field ∷ register_rest topic text) json.null) =
          ap json.parse (address_response_lem topic text plain text_plain)
          ∙ reply_read topic text plain text_plain in
        let later : Wire C = record before { rest = around.ticked before } in
        let asked : Wire C = record later { registry = idle entries reply } in
        (
          record asked { rest = around.ticked asked },
          rw (around.clock_ends) (
              rw
                (
                  onmessage-get json laws reads inet local_ip topic around.local (some a) entries
                      response plain around.local_address listed,
                  whole,
                  read,
                  three_first json laws (codes "success") (codes "topic") (json.boolean true)
                      (json.string topic) refl (codes "address") (json.string text) refl,
                  laws.get_bool_boolean,
                  three_third json laws (codes "success") (codes "topic") (json.boolean true)
                      (json.string topic) refl (codes "address") (json.string text),
                  laws.get_string_string,
                  parse-tostring inet a b around.around_inet port_fits addr_fits,
                )
                (rw (around.clock_ends) refl)),
          refl,
        )
      where
        reply_read :
            (topic text : Bytes)
            → IsPlainText topic
            → IsPlainText text
            → json.parse (object_text (success_field ∷ register_rest topic text))
              ≡ ok (object_of json (success_field ∷ register_rest topic text) json.null)
        reply_read topic text t p =
            reads.reads_object success_field (register_rest topic text)
              (fixed-IsPlainText (codes "success") refl)
              (
                (fixed-IsPlainText (codes "topic") refl, t),
                ((fixed-IsPlainText (codes "address") refl, p), tt),
              )

    -- Over the wire to the server, and under the laws for `get`, a topic that the table does not
    -- hold is reported in the first round by an exception with the text `RegistryProxy: invalid
    -- response`, whatever time is left.
    pub get-missing :
        (b : Address) (fuel timeout : ℕ)
        → Registry.get topic entries ≡ none
        → (s : Wire C) × (get json env inet
              (wire json inet local_ip)
              (suc fuel)
              topic
              b
              timeout
              before
            ≡ (throws (runtime_error (codes "RegistryProxy: invalid response")), s))
    unfolding get get_loop send_request read_address read_response parse_response is_success
        get_address rcom_time equal
    get-missing b fuel timeout missing =
        let later : Wire C = record before { rest = around.ticked before } in
        let no_member : json.at (codes "address") (object_of json (success_field ∷ []) json.null)
            ≡ ok json.null =
          laws.at_insert_other (codes "success") (codes "address") (json.boolean true) json.null
            laws.null_IsObject (texts_apart (codes "success") (codes "address") refl)
          ∙ laws.null_at (codes "address") in
        (
          record later { registry = idle entries success_response },
          rw (around.clock_ends) (
              rw
                (
                  onmessage-get json laws reads inet local_ip topic around.local none entries
                      response plain around.local_address missing,
                  success-c_str,
                  success_read,
                  success_at,
                  laws.get_bool_boolean,
                  no_member,
                  laws.get_string_null.1,
                )
                refl),
        )
