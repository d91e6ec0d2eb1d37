-- ===== src/Rpc.antt =====
-- The remote calls: what both sides share (librcom/include/rcom/RPCError.h, MessageFields.h,
-- IRPCHandler.h). A code is an `int16_t` in two's complement.
pub mod MessageHandler
pub mod Client
pub mod Adaptor
pub mod Envelope
pub mod Stable
pub mod RoundTrip
pub mod LostError
pub mod Answer
use librcom.Base.{ℕ, ◌-◌, Bytes, [], codes}
use librcom.Action.{Action}

pub record RpcError : Type 0 where
  pub code : ℕ
  pub message : Bytes

abbrev pub no_error : RpcError
no_error = record { code = 0; message = [] }

abbrev pub minus : ℕ → ℕ
minus n = 65536 - n

abbrev pub parse_error : ℕ
parse_error = minus 32700

abbrev pub invalid_request : ℕ
invalid_request = minus 32600

abbrev pub send_error : ℕ
send_error = minus 32603

abbrev pub receive_error : ℕ
receive_error = minus 32604

abbrev pub receive_timeout : ℕ
receive_timeout = minus 32605

abbrev pub link_closed : ℕ
link_closed = minus 32606

abbrev pub internal_error : ℕ
internal_error = minus 32607

abbrev pub id_key : Bytes
id_key = codes "id"

abbrev pub method_key : Bytes
method_key = codes "method"

abbrev pub params_key : Bytes
params_key = codes "params"

abbrev pub result_key : Bytes
result_key = codes "result"

abbrev pub error_key : Bytes
error_key = codes "error"

abbrev pub code_key : Bytes
code_key = codes "code"

abbrev pub message_key : Bytes
message_key = codes "message"

abbrev pub no_id : Bytes
no_id = codes "unknown"

abbrev pub unknown_method : Bytes
unknown_method = codes "unknown"

-- `IRPCHandler`: from the id, the method, the parameters, the result and the error so far, to the
-- result and the error after.
pub record IRpcHandler (J S : Type 0) : Type 0 where
  pub execute : Bytes → Bytes → J → J → RpcError → Action Bytes S (J × RpcError)
  pub execute_binary : Bytes → Bytes → J → Bytes → RpcError → Action Bytes S (Bytes × RpcError)
