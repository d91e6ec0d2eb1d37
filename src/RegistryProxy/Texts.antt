-- ===== src/RegistryProxy/Texts.antt =====
-- The requests of the proxy and the responses of the server as texts of plain objects.
use librcom.Base.{◌++◌, ◌≡◌, refl, true, [], ◌∷◌, Bytes, codes, List}
use librcom.Json.Plain.{Field, loose, flag, IsPlainText, object_text, IsPlainText→no_zero}
use librcom.MemBuffer.{c_str, printf, c_str_append, c_str_id}
use librcom.RegistryProxy.{make_register_request, make_get_request, make_unregister_request}
use librcom.RegistryServer.{address_response, success_response}

abbrev pub register_rest : Bytes → Bytes → List Field
register_rest topic address = loose (codes "topic") topic ∷ loose (codes "address") address ∷ []

abbrev pub request_field : Bytes → Field
request_field request = loose (codes "request") request

abbrev pub topic_rest : Bytes → List Field
topic_rest topic = loose (codes "topic") topic ∷ []

abbrev pub success_field : Field
success_field = flag (codes "success") true

-- A plain text is a text of C, whole or in front of others.
c_str-plain :
    (text : Bytes)
    → IsPlainText text
    → (c_str text ≡ text) × ((rest : Bytes) → c_str (text ++ rest) ≡ text ++ c_str rest)
c_str-plain text h =
    let no_zero = IsPlainText→no_zero text h in
    (c_str_id text no_zero, λ rest. c_str_append text rest no_zero)

pub make_register_request_lem :
    (topic address : Bytes)
    → IsPlainText topic
    → IsPlainText address
    → make_register_request topic address
      ≡ object_text (request_field (codes "register") ∷ register_rest topic address)
unfolding make_register_request printf c_str
make_register_request_lem topic address t a =
    let (topic_whole, first) = c_str-plain topic t in
    let (address_whole, second) = c_str-plain address a in
    rw (topic_whole, address_whole) (rw (first, second) refl)

pub make_get_request_lem :
    (topic : Bytes)
    → IsPlainText topic
    → make_get_request topic ≡ object_text (request_field (codes "get") ∷ topic_rest topic)
unfolding make_get_request printf c_str
make_get_request_lem topic t = let (whole, first) = c_str-plain topic t in rw whole (rw first refl)

pub make_unregister_request_lem :
    (topic : Bytes)
    → IsPlainText topic
    → make_unregister_request topic
      ≡ object_text (request_field (codes "unregister") ∷ topic_rest topic)
unfolding make_unregister_request printf c_str
make_unregister_request_lem topic t =
    let (whole, first) = c_str-plain topic t in rw whole (rw first refl)

pub address_response_lem :
    (topic address : Bytes)
    → IsPlainText topic
    → IsPlainText address
    → address_response topic address ≡ object_text (success_field ∷ register_rest topic address)
unfolding address_response printf c_str
address_response_lem topic address t a =
    let (topic_whole, first) = c_str-plain topic t in
    let (address_whole, second) = c_str-plain address a in
    rw (topic_whole, address_whole) (rw (first, second) refl)

pub success_response_lem : success_response ≡ object_text (success_field ∷ [])
unfolding success_response printf c_str
success_response_lem = refl

-- An object of the model is a text of C.
pub object_text-c_str :
    (topic address : Bytes)
    → IsPlainText topic
    → IsPlainText address
    → c_str (address_response topic address) ≡ address_response topic address
unfolding address_response printf c_str
object_text-c_str topic address t a =
    let (topic_whole, first) = c_str-plain topic t in
    let (address_whole, second) = c_str-plain address a in
    rw (topic_whole, address_whole) (rw (first, second) (rw (first, second) refl))
