-- ===== src/Tests.antt =====
-- The theorems at concrete inputs.
mod World
mod WebSocketTest
mod HttpTest
mod SocketTest
mod HandshakeTest
mod ServerTest
mod AddressTest
mod JsonWorld
mod RpcTest
mod ObjectReader
mod RegistryTest
mod MeetingTest
mod LookupTest
