-- ===== src/Rpc/Stable.antt =====
-- The envelopes of requests and responses are read back as they were written, if what the caller or
-- the handler has put into them is.
use librcom.Base.{ℕ, ◌==◌, Bool-cases, inl, inr, Bytes}
use librcom.Json.{Json, IsJson}
use librcom.Rpc.{
  RpcError, id_key, method_key, params_key, result_key, error_key, code_key, message_key,
  unknown_method, no_id,
}
use librcom.Rpc.Client.{request_object}
use librcom.Rpc.Envelope.{received_message}
use librcom.Rpc.MessageHandler.{
  or_default, error_object, construct_response, construct_response_with,
}

module _ {J : Type 0} (json : Json J) (laws : IsJson json) where
  open laws use {IsStable, null_IsStable, string_IsStable, integer_IsStable, insert_IsStable}

  pair-IsStable :
      (id method : Bytes)
      → IsStable (
          json.insert method_key
            (json.string method)
            (json.insert id_key (json.string id) json.null))
  pair-IsStable id method =
      insert_IsStable method_key (json.string method) _ (string_IsStable method)
        (insert_IsStable id_key (json.string id) _ (string_IsStable id) null_IsStable)

  pub request_object-IsStable :
      (id method : Bytes) (params : J)
      → IsStable params
      → IsStable (request_object json id method params)
  unfolding request_object
  request_object-IsStable id method params h =
      insert_IsStable params_key params _ h (pair-IsStable id method)

  error_object-IsStable : (code : ℕ) (message : Bytes) → IsStable (error_object json code message)
  unfolding error_object
  error_object-IsStable code message =
      insert_IsStable code_key (json.integer code) _ (integer_IsStable code) (
        insert_IsStable message_key (json.string (received_message message)) _
          (string_IsStable (received_message message)) null_IsStable)

  construct_response-IsStable :
      (id method : Bytes) (error : RpcError) → IsStable (construct_response json id method error)
  unfolding construct_response
  construct_response-IsStable id method error =
      let base = pair-IsStable (or_default id no_id) (or_default method unknown_method) in
      elim (Bool-cases (error.code == 0)) [
        | inl fine ↦ rw fine base
        | inr failed ↦ rw failed (
            insert_IsStable error_key (error_object json error.code error.message) _
              (error_object-IsStable error.code error.message) base)
      ]

  pub construct_response_with-IsStable :
      (id method : Bytes) (error : RpcError) (result : J)
      → IsStable result
      → IsStable (construct_response_with json id method error result)
  unfolding construct_response_with
  construct_response_with-IsStable id method error result h =
      let base = construct_response-IsStable id method error in
      elim (Bool-cases (json.is_null result)) [
        | inl absent ↦ rw absent base
        | inr present ↦ rw present (insert_IsStable result_key result _ h base)
      ]
