-- ===== src/Tests/WebSocketTest.antt =====
-- The theorems on librcom/src/WebSocket.cpp at concrete inputs.
use librcom.Base.{
  get_elem?, some, ◌≤◌, ◌≡◌, ◌≢◌, refl, arith, true, false, [], ◌∷◌, ◌++◌, Bytes, length, codes,
}
use librcom.Frame.{
  text, binary, close, pong, apply_mask, decode_frame_header, client_header, server_header,
  uint16_bytes, maximum_message_length, opcode_value, close_protocol_error,
}
use librcom.Frame.Mask.{apply_mask-get_elem}
use librcom.HostOrder.{low_first-IsNetworkOrder}
use librcom.WebSocket.Bounds.{handle_data_payload-length}
use librcom.WebSocket.Close.{send_close_message, get_close_code}
use librcom.WebSocket.CloseCode.{send_close_message-get_close_code}
use librcom.WebSocket.Control.{process_message-ping, process_message-out_of_order}
use librcom.WebSocket.FrameStart.{final_header}
use librcom.WebSocket.Fragments.{process_frames, process_frames-concat, IsAssembled}
use librcom.WebSocket.Input.{
  read_message, input_read_header, input_read_frame_header, socket_read, input_read_payload_length,
  payload_length_for, input_read_payload_mask, input_assert_valid_message, input_assert_mask_flag,
  input_assert_opcode, is_valid_opcode, input_assert_payload_length, input_read_payload,
  input_read_payload_loop, input_append_payload,
}
use librcom.WebSocket.LostLength.{make_message-lost_length}
use librcom.WebSocket.Output.{
  text_message, make_message, send, output_append_header, output_append_payload, mask_blocks,
  socket_send,
}
use librcom.Env.{rcom_time}
use librcom.WebSocket.Recv.{
  recv, recv_text, process_message, try_recv, try_recv_loop, wait_and_handle_one_message,
  wait_for_data, handle_one_message, is_control_opcode, is_data_opcode, handle_data_payload,
  assert_continuation, assert_message_length, set_payload_type, copy_payload, prepare_continuation,
  received_status, has_complete_data_message, is_data_message_complete, get_message_type,
}
use librcom.WebSocket.RoundTrip.{make_message-read_message, make_message_lem, frame_bytes}
use librcom.WebSocket.Sent.{send-frame_bytes, SendsFrame}
use librcom.WebSocket.State.{WebSocket, server, client, ok, throws, recv_error, ◌>>◌}
use librcom.WebSocket.Termination.{Terminates, read_message-Terminates}
use librcom.WebSocket.Status.{recv-StatusHolds, recv-recv_error, StatusHolds}
use librcom.Tests.World.{
  World, quiet, test_env, broken_env, test_stream, test_sink, test_fills, test_closes,
  test_websocket, zeros, length-zeros,
}

abbrev hello : Bytes
hello = codes "Hello"

abbrev idle : WebSocket World
idle = test_websocket quiet

abbrev with_unread : Bytes → WebSocket World
with_unread bytes = test_websocket (record quiet { unread = bytes })

-- The byte behind a whole round of the mask.
apply_mask-get_elem_example :
    (get_elem? (apply_mask (0x37 ∷ 0xfa ∷ 0x21 ∷ 0x3d ∷ []) hello) 4 ≡ some 0x58)
    × (length (apply_mask (0x37 ∷ 0xfa ∷ 0x21 ∷ 0x3d ∷ []) hello) ≡ 5)
apply_mask-get_elem_example = apply_mask-get_elem (0x37 ∷ 0xfa ∷ 0x21 ∷ 0x3d ∷ []) hello 4

-- The frame of section 5.7 of RFC 6455.
abbrev masked_hello : Bytes
masked_hello = 0x81 ∷ 0x85 ∷ 0x37 ∷ 0xfa ∷ 0x21 ∷ 0x3d ∷ 0x7f ∷ 0x9f ∷ 0x4d ∷ 0x51 ∷ 0x58 ∷ []

masked_hello_made :
    make_message test_env client text hello idle
    ≡ (ok masked_hello, record idle { output_mask = 0x37 ∷ 0xfa ∷ 0x21 ∷ 0x3d ∷ [] })
unfolding make_message output_append_header output_append_payload client_header mask_blocks
    apply_mask
masked_hello_made = refl

make_message-read_message_example :
    (w' : WebSocket World) × (read_message test_env server
        (with_unread (masked_hello ++ codes "rest"))
      ≡ (ok tt, w'))
    × (w'.frame_header ≡ final_header text server 5)
    × (w'.input_payload_buffer ≡ hello)
    × (w'.socket.unread ≡ codes "rest")
make_message-read_message_example =
    make_message-read_message test_env test_stream low_first-IsNetworkOrder test_fills client text
      hello masked_hello (codes "rest") idle
      (record idle { output_mask = 0x37 ∷ 0xfa ∷ 0x21 ∷ 0x3d ∷ [] })
      (with_unread (masked_hello ++ codes "rest")) (omega arith, omega arith) masked_hello_made refl

send-frame_bytes_example :
    SendsFrame test_env test_sink client text hello idle (send test_env client hello text_message)
send-frame_bytes_example =
    send-frame_bytes test_env test_sink client hello text_message idle (omega arith)

abbrev lost_frame : Bytes
lost_frame = frame_bytes test_env server [] binary (zeros 65536)

make_message-lost_length_example :
    (w' : WebSocket World) × (read_message test_env client (with_unread (lost_frame ++ []))
      ≡ (ok tt, w'))
    × (w'.frame_header.fin ≡ true)
    × (w'.frame_header.opcode ≡ opcode_value binary)
    × (w'.input_payload_buffer ≡ [])
    × (w'.socket.unread ≡ zeros 65536 ++ [])
make_message-lost_length_example =
    make_message-lost_length test_env test_stream low_first-IsNetworkOrder binary (zeros 65536)
      lost_frame [] idle idle (with_unread (lost_frame ++ [])) (length-zeros 65536)
      (make_message_lem test_env server binary (zeros 65536) idle) refl

process_frames-concat_example :
    (w' : WebSocket World) × (process_frames test_env client 1
        (codes "He" ∷ codes "l" ∷ [])
        (codes "lo")
        idle
      ≡ (ok tt, w'))
    × IsAssembled test_env client recv_text hello idle w'
process_frames-concat_example =
    process_frames-concat test_env client text_message (codes "He" ∷ codes "l" ∷ []) (codes "lo")
      idle refl (omega arith)

-- The close frame with code 1002 that a server sends.
abbrev close_frame : Bytes
close_frame = 0x88 ∷ 0x02 ∷ 0x03 ∷ 0xea ∷ []

close_frame_sent : (send_close_message test_env server 1002 idle).1.socket.written ≡ close_frame
unfolding send_close_message make_message output_append_header output_append_payload socket_send
    server_header uint16_bytes
close_frame_sent = refl

send_close_message-get_close_code_example :
    ((send_close_message test_env server 1002 idle).0 ≡ ok true)
    × (w' : WebSocket World) × ((read_message test_env client >> get_close_code)
          (with_unread close_frame)
        ≡ (ok tt, w'))
    × (w'.frame_header ≡ final_header close client 2)
    × (w'.remote_close_reason ≡ 1002)
    × (w'.socket.unread ≡ [])
send_close_message-get_close_code_example =
    send_close_message-get_close_code test_env test_stream test_sink low_first-IsNetworkOrder
      test_fills server 1002 close_frame [] idle (with_unread close_frame) (omega arith)
      close_frame_sent refl

abbrev pinged : WebSocket World
pinged = record idle {
  frame_header = record { fin = true; opcode = 9; mask = true; payload_len = 5 };
  input_payload_buffer = hello;
}

process_message-ping_example :
    (w' : WebSocket World) × (process_message test_env server pinged ≡ (ok tt, w'))
    × (w'.socket.written ≡ frame_bytes test_env server w'.output_mask pong hello)
    × (w'.message ≡ [])
    × (w'.is_continuation ≡ false)
process_message-ping_example = process_message-ping test_env test_sink server pinged refl

-- A continuation that continues nothing.
abbrev continued : WebSocket World
continued = record idle {
  frame_header = record { fin = true; opcode = 0; mask = true; payload_len = 5 };
  input_payload_buffer = hello;
}

process_message-out_of_order_example :
    process_message test_env server continued
    ≡ (throws (recv_error close_protocol_error), continued)
unfolding is_data_opcode
process_message-out_of_order_example =
    process_message-out_of_order test_env server continued refl refl

abbrev received_hello : WebSocket World
received_hello = record idle {
  input_payload_buffer = hello;
  frame_header = record { fin = true; opcode = 1; mask = true; payload_len = 5 };
  is_text = true;
  input_message_length = 5;
  input_mask = 0x37 ∷ 0xfa ∷ 0x21 ∷ 0x3d ∷ [];
  message = hello;
}

recv_hello : recv test_env server 2 0 (with_unread masked_hello) ≡ (ok recv_text, received_hello)
unfolding recv try_recv try_recv_loop wait_and_handle_one_message wait_for_data rcom_time
    handle_one_message read_message input_read_header input_read_frame_header socket_read
    input_read_payload_length payload_length_for decode_frame_header input_read_payload_mask
    input_assert_valid_message input_assert_mask_flag input_assert_opcode is_valid_opcode
    input_assert_payload_length input_read_payload input_read_payload_loop input_append_payload
    apply_mask process_message is_control_opcode is_data_opcode handle_data_payload
    assert_continuation assert_message_length set_payload_type copy_payload prepare_continuation
    received_status has_complete_data_message is_data_message_complete get_message_type
recv_hello = refl

recv-StatusHolds_example : StatusHolds test_env test_closes recv_text received_hello
recv-StatusHolds_example =
    recv-StatusHolds test_env test_closes server 2 0 recv_text (with_unread masked_hello)
      received_hello recv_hello

recv-recv_error_example : (recv broken_env client 2 0 idle).0 ≢ throws (recv_error 1011)
recv-recv_error_example = recv-recv_error broken_env (λ s. refl) client 2 0 1011 idle

abbrev last_fragment : WebSocket World
last_fragment = record idle {
  frame_header = record { fin = true; opcode = 0; mask = true; payload_len = 2 };
  input_payload_buffer = codes "lo";
  message = codes "Hel";
  is_continuation = true;
}

handle_data_payload-length_example :
    length (handle_data_payload last_fragment).1.message ≤ maximum_message_length
unfolding is_data_opcode
handle_data_payload-length_example = handle_data_payload-length last_fragment refl (omega arith)

read_message-Terminates_example :
    Terminates (read_message test_env server (with_unread masked_hello))
read_message-Terminates_example = read_message-Terminates test_env server (with_unread masked_hello)
