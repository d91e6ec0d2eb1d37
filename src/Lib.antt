-- ===== src/Lib.antt =====
-- Verification of librcom, a light-weight library of websockets and remote calls between nodes.
--
-- The parts of the program and the files that model them. Paths are from the root of the
-- repository; the sources stand in librcom/src, the headers in librcom/include/rcom.
--
-- - HostOrder: the conversions between the byte orders of host and network (htons, ntohs, htobe64,
--   be64toh), which are parameters, with the laws of the manual pages.
-- - Frame: Frames.h, WebSocketConstants.h, the limits of WebSocket.h, and the bytes of a frame:
--   `decode_frame_header` is the shifting in WebSocket::input_read_frame_header, `apply_mask` is
--   WebSocket::apply_mask, `server_header` and `client_header` are the bytes that the two
--   output_append_header append. Frame/Mask and Frame/Header prove their laws.
-- - Env: the interface ISocket.h, the calls of ILinux.h that a websocket makes, and rcom_time and
--   rcom_sleep of util.cpp. They act on one state of the outside world, a parameter. The laws that a
--   theorem needs of them are records: `IsStream` (read delivers in order), `IsSink` (send writes
--   behind what was written), `FillsMask`.
-- - WebSocket: WebSocket.cpp with the classes of ServerSideWebSocket.cpp and ClientSideWebSocket.cpp,
--   which are the two values of `Side`. WebSocket/State has the fields of the class and the
--   outcomes of a method: a result, an exception (RecvError with its code, or runtime_error), or, in
--   the model alone, a loop out of rounds. WebSocket/Input reads a frame, WebSocket/Output writes,
--   WebSocket/Close closes, WebSocket/Recv is recv. Each method keeps its name. The other files
--   there are proofs: Payload, FrameStart, FrameRead and RoundTrip for reading what was written,
--   Sent for send, Fragments and Control for process_message, Ends, Received and Status for the way in
--   which recv ends, Bounds for the length of a message,
--   Termination for the end of read_message, CloseCode for the close frame, LostLength for the length 65536.
-- - Http: HttpParser.cpp (Http/Characters, Http/Parser), Request.cpp and Response.cpp (Http/Request,
--   Http/Response), RequestParser.cpp and ResponseParser.cpp (Http/RequestParser,
--   Http/ResponseParser). `handle_in` is the switch of handle_char, with a function
--   for each case. Http/WellFormed, Http/RoundTrip, Http/Stream,
--   Http/FirstHeader, Http/Upgrade and Http/UpgradeRequest are proofs.
-- - BaseSocket: BaseSocket.cpp over the system calls, which are parameters (`Linux`). `none` stands for
--   a descriptor of -1. BaseSocket/Read, BaseSocket/Write and BaseSocket/Descriptor are proofs.
-- - Registry: Registry.cpp, with Registry/Table for its proofs. The type of addresses is a parameter.
-- - Base64: encode_base64 of util.cpp; Base64/Decode has a decoder after RFC 4648 to read it against.
-- - MemBuffer: MemBuffer.cpp, as far as it is more than a list of bytes.
-- - Handshake: the opening handshake, ServerSideWebSocket::handshake and ClientSideWebSocket::handshake
--   with what they call, and WebSocket::make_accept_string. SHA1 is a parameter. Handshake/Duplex says
--   what is asked of the socket; the other files are proofs.
-- - Action: methods that may throw, as functions on a state, for the classes below.
-- - Address: Address.cpp and is_valid_name of util.cpp; arpa/inet.h is a parameter.
-- - Json: the interface to the library nlohmann::json with its documented laws. Json/Plain: texts of
--   objects whose members are plain strings and Booleans.
-- - RegistryLookup: the class of that name, over the calls of the system.
-- - RegistryServer, RegistryProxy: the classes of that name. RegistryProxy/Wire puts the server at the
--   other end of the websocket of the proxy.
-- - WebSocketServer: the class of that name; a link is a number. MessageLink: recv and send of
--   MessageLink.cpp. MessageHub: how a hub registers its topic (MessageHub.cpp) and how the constructor
--   of a link finds it (MessageLink.cpp), with MessageHub/Meeting for the proof.
-- - Rpc: RPCError.h, MessageFields.h and IRPCHandler.h. Rpc/MessageHandler is RcomMessageHandler.cpp,
--   Rpc/Client is RcomClient.cpp with RemoteStub.cpp, Rpc/Adaptor is RemoteObjectsAdaptor.cpp; the
--   other files there are proofs.
-- - Base: names of the libraries, Boolean tests, lists, bytes and bits. Tests: the theorems at concrete
--   inputs.
--
-- How the parts interact: a websocket calls its socket by `Env.ISocket`, the HTTP parser reads the
-- same interface a byte at a time, and BaseSocket is what stands behind that interface. The server of
-- websockets keeps its links by `IWebSockets` and hands their messages to a listener, which is the
-- message handler of the remote calls or the server of the registry; the client of the remote calls
-- and the proxy of the registry write to the other end by `ClientWebSocket`.
--
-- Numbers are natural numbers; lengths of 16 and 64 bits are reduced where the sources cast them, and
-- the counter of BaseSocket::read wraps around at 2^64. Times are the `double` seconds of the sources:
-- a number of this type is known by its 64 bits, and the arithmetic on it is a parameter
-- (`Env.Double`) of which nothing is assumed.
--
-- Loops on fuel. `input_read_payload_loop`, `mask_blocks` and `send_payload_blocks` have as many
-- rounds as there are bytes; each round takes one byte or more. `BaseSocket.write` has as
-- many rounds as bytes. `BaseSocket.read`, `drain` and the loop of the HTTP parser depend on how the
-- other end behaves, and take the number of rounds as an argument. So do the loops of recv and of
-- closing_wait_reply, which watch the clock, the loop of RegistryProxy::get, which does too, and the loop
-- of handle_new_connections, which ends when nobody is left to accept. So does the loop of the
-- client's close_connection, whose rounds are the field `rounds` of `Env`: how many it takes depends on
-- the clock and on the rounding of the differences of its times.
--
-- Not modelled: SHA1, of which sha1.cpp is a copy of a public implementation; the copy of the JSON
-- library json.hpp; the functions that make the objects, in the hubs, the links and the factories; the
-- server that answers lookups by UDP; logs, mutexes and threads; the wrappers of system calls in Linux.cpp and the
-- interfaces of the network in ip.cpp; the applications, the examples and the Python client.
pub mod Base
pub mod HostOrder
pub mod Base64
pub mod Frame
pub mod Env
pub mod Action
pub mod WebSocket
pub mod Http
pub mod MemBuffer
pub mod Handshake
pub mod WebSocketServer
pub mod Address
pub mod Json
pub mod MessageLink
pub mod Rpc
pub mod BaseSocket
pub mod Registry
pub mod RegistryServer
pub mod RegistryLookup
pub mod RegistryProxy
pub mod MessageHub
pub mod Tests
