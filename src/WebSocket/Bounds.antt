-- ===== src/WebSocket/Bounds.antt =====
-- The length of a message that `handle_data_payload` of librcom/src/WebSocket.cpp puts together.
use librcom.Base.{◌≤◌, ◌≡◌, arith, true, length, length-append}
use librcom.Frame.{maximum_message_length}
use librcom.WebSocket.State.{WebSocket}
use librcom.WebSocket.Recv.{
  handle_data_payload, assert_continuation, assert_message_length, set_payload_type, copy_payload,
  prepare_continuation, is_data_opcode,
}

-- The message that `handle_data_payload` puts together never outgrows `kMaximumMessageLength`: for
-- a frame with the opcode of text, binary or continuation, and a message within the limit so far,
-- the message it leaves is within the limit, whether it ends well or with a `RecvError`.
pub handle_data_payload-length :
    {S : Type 0} (w : WebSocket S)
    → is_data_opcode w.frame_header.opcode ≡ true
    → length w.message ≤ maximum_message_length
    → length (handle_data_payload w).1.message ≤ maximum_message_length
unfolding handle_data_payload assert_continuation assert_message_length set_payload_type
    copy_payload prepare_continuation is_data_opcode
handle_data_payload-length w data_frame h =
    ground (arith, length-append w.message w.input_payload_buffer)
