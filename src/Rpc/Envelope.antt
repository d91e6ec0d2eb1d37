-- ===== src/Rpc/Envelope.antt =====
-- What stands in the envelopes of requests and responses.
use librcom.Base.{
  ℕ, ◌<◌, ◌^◌, true, false, ◌≡◌, ◌≢◌, refl, sym, ap, ◌∙◌, ◌==◌, if◌then◌else◌, Bool-cases, inl, inr,
  Bytes, codes, equal, texts_apart,
}
use librcom.Action.{ok}
use librcom.Json.{Json, IsJson}
use librcom.MemBuffer.{c_str}
use librcom.Rpc.{
  RpcError, no_error, id_key, method_key, params_key, result_key, error_key, code_key, message_key,
  unknown_method, no_id,
}
use librcom.Rpc.Client.{
  request_object, read_error, parse_error_part, parse_result_part, parse_response,
}
use librcom.Rpc.MessageHandler.{
  or_default, get_id, get_method, get_params, error_object, construct_response,
  construct_response_with,
}

-- What a client makes of the error of a server.
abbrev pub received_message : Bytes → Bytes
received_message message = or_default (c_str message) (codes "No message was given")

abbrev pub received_error : RpcError → RpcError
received_error error =
    if error.code == 0
    then no_error
    else record { code = error.code; message = received_message error.message }

module _ {J : Type 0} (json : Json J) (laws : IsJson json) where
  open laws use {
    IsObject, null_IsObject, insert_IsObject, null_is_null, null_contains, contains_insert,
    contains_insert_other, at_insert, at_insert_other, get_string_string, get_int16_integer,
  }

  -- Two entries, as every envelope begins.
  abbrev pair : Bytes → Bytes → J
  pair id method =
      json.insert method_key (json.string method) (json.insert id_key (json.string id) json.null)

  pair-IsObject : (id method : Bytes) → IsObject (pair id method)
  pair-IsObject id method =
      insert_IsObject method_key (json.string method)
        (json.insert id_key (json.string id) json.null)
        (insert_IsObject id_key (json.string id) json.null null_IsObject)

  pair-id : (id method : Bytes) → json.at id_key (pair id method) ≡ ok (json.string id)
  unfolding equal
  pair-id id method =
      at_insert_other method_key id_key (json.string method)
        (json.insert id_key (json.string id) json.null)
        (insert_IsObject id_key (json.string id) json.null null_IsObject)
        (texts_apart method_key id_key refl)
      ∙ at_insert id_key (json.string id) json.null null_IsObject

  pair-method : (id method : Bytes) → json.at method_key (pair id method) ≡ ok (json.string method)
  pair-method id method =
      at_insert method_key (json.string method) (json.insert id_key (json.string id) json.null)
        (insert_IsObject id_key (json.string id) json.null null_IsObject)

  pair-contains :
      (id method key : Bytes)
      → method_key ≢ key
      → id_key ≢ key
      → json.contains key (pair id method) ≡ false
  pair-contains id method key no_method not_id =
      contains_insert_other method_key key (json.string method)
        (json.insert id_key (json.string id) json.null)
        (insert_IsObject id_key (json.string id) json.null null_IsObject) no_method
      ∙ contains_insert_other id_key key (json.string id) json.null null_IsObject not_id
      ∙ null_contains key

  module _ (id method : Bytes) (params : J) where
    -- What the server reads in the request of a client.
    pub get_id-request :
        get_id json (request_object json id method params) no_error ≡ (id, no_error)
    unfolding get_id request_object equal
    get_id-request =
        let request = request_object json id method params in
        let first =
          at_insert_other params_key id_key params (pair id method) (pair-IsObject id method)
            (texts_apart params_key id_key refl)
          ∙ pair-id id method in
        let there : json.contains id_key request ≡ true =
          contains_insert_other params_key id_key params (pair id method) (pair-IsObject id method)
            (texts_apart params_key id_key refl)
          ∙ contains_insert_other method_key id_key (json.string method)
              (json.insert id_key (json.string id) json.null)
              (insert_IsObject id_key (json.string id) json.null null_IsObject)
              (texts_apart method_key id_key refl)
          ∙ contains_insert id_key (json.string id) json.null null_IsObject in
        rw (there, first, get_string_string) refl

    pub get_method-request :
        get_method json (request_object json id method params) no_error ≡ (method, no_error)
    unfolding get_method request_object equal
    get_method-request =
        let second =
          at_insert_other params_key method_key params (pair id method) (pair-IsObject id method)
            (texts_apart params_key method_key refl)
          ∙ pair-method id method in
        rw (second, get_string_string) refl

    pub get_params-request : get_params json (request_object json id method params) ≡ ok params
    unfolding get_params request_object
    get_params-request =
        rw
          (
            contains_insert params_key params (pair id method) (pair-IsObject id method),
            at_insert params_key params (pair id method) (pair-IsObject id method),
          )
          refl

  read_error-error_object :
      (code : ℕ) (message : Bytes)
      → code < 2 ^ 16
      → read_error json (error_object json code message)
        ≡ ok (record { code = code; message = received_message message })
  unfolding read_error error_object equal
  read_error-error_object code message int16_code =
      let text = json.string (received_message message) in
      let inner = insert_IsObject message_key text json.null null_IsObject in
      let first =
        at_insert code_key (json.integer code) (json.insert message_key text json.null) inner in
      let second =
        at_insert_other code_key message_key (json.integer code)
          (json.insert message_key text json.null) inner (texts_apart code_key message_key refl)
        ∙ at_insert message_key text json.null null_IsObject in
      rw (first, get_int16_integer code int16_code, second, get_string_string) refl

  construct_response-IsObject :
      (id method : Bytes) (error : RpcError) → IsObject (construct_response json id method error)
  unfolding construct_response
  construct_response-IsObject id method error =
      let id1 = or_default id no_id in
      let method1 = or_default method unknown_method in
      elim (Bool-cases (error.code == 0)) [
        | inl fine ↦ rw fine (pair-IsObject id1 method1)
        | inr failed ↦ rw failed (
            insert_IsObject error_key (error_object json error.code error.message)
              (pair id1 method1) (pair-IsObject id1 method1))
      ]

  no_result :
      (id method : Bytes) (error : RpcError)
      → json.contains result_key (construct_response json id method error) ≡ false
  unfolding construct_response equal
  no_result id method error =
      let id1 = or_default id no_id in
      let method1 = or_default method unknown_method in
      let plain =
        pair-contains id1 method1 result_key (texts_apart method_key result_key refl)
          (texts_apart id_key result_key refl) in
      elim (Bool-cases (error.code == 0)) [
        | inl fine ↦ rw fine plain
        | inr failed ↦ rw failed (
            contains_insert_other error_key result_key (error_object json error.code error.message)
              (pair id1 method1) (pair-IsObject id1 method1) (texts_apart error_key result_key refl)
            ∙ plain)
      ]

  -- The error of a server, read by the client.
  parse_error_part-construct_response :
      (id method : Bytes) (error : RpcError) (result : J)
      → error.code < 2 ^ 16
      → parse_error_part json (construct_response json id method error) result no_error
        ≡ (result, received_error error)
  unfolding construct_response parse_error_part equal
  parse_error_part-construct_response id method error result int16_code =
      let id1 = or_default id no_id in
      let method1 = or_default method unknown_method in
      let value = error_object json error.code error.message in
      elim (Bool-cases (error.code == 0)) [
        | inl fine ↦
            rw
              (
                fine,
                pair-contains id1 method1 error_key (texts_apart method_key error_key refl)
                    (texts_apart id_key error_key refl),
              )
              refl
        | inr failed ↦
            rw
              (
                failed,
                contains_insert error_key value (pair id1 method1) (pair-IsObject id1 method1),
                at_insert error_key value (pair id1 method1) (pair-IsObject id1 method1),
                read_error-error_object error.code error.message int16_code,
              )
              refl
      ]

  -- A result in the envelope does not hide the error.
  parse_error_part-insert :
      (response value result : J) (error : RpcError)
      → IsObject response
      → parse_error_part json (json.insert result_key value response) result error
        ≡ parse_error_part json response result error
  unfolding parse_error_part equal
  parse_error_part-insert response value result error object =
      let apart = texts_apart result_key error_key refl in
      rw
        (
          contains_insert_other result_key error_key value response object apart,
          at_insert_other result_key error_key value response object apart,
        )
        refl

  -- The client reads in a response the result of the handler and its error.
  pub parse_response-construct_response_with :
      (id method : Bytes) (error : RpcError) (result : J)
      → error.code < 2 ^ 16
      → parse_response json json.null no_error
          (ok (construct_response_with json id method error result))
        ≡ (result, received_error error)
  unfolding parse_response parse_result_part construct_response_with
  parse_response-construct_response_with id method error result int16_code =
      let base = construct_response json id method error in
      let object = construct_response-IsObject id method error in
      elim (Bool-cases (json.is_null result)) [
        | inl absent ↦
            rw (absent, no_result id method error)
              (parse_error_part-construct_response id method error json.null int16_code
                ∙ ap (λ r. (r, received_error error)) (sym (null_is_null result absent)))
        | inr present ↦
            rw
              (
                present,
                contains_insert result_key result base object,
                at_insert result_key result base object,
              )
              (parse_error_part-insert base result result no_error object
                ∙ parse_error_part-construct_response id method error result int16_code)
      ]
