-- ===== src/WebSocket.antt =====
-- librcom/src/WebSocket.cpp with its two derived classes.
pub mod State
pub mod Input
pub mod Output
pub mod Close
pub mod Recv
pub mod Fragments
pub mod Bounds
pub mod Ends
pub mod Received
pub mod Termination
pub mod Status
pub mod CloseCode
pub mod Control
pub mod LostLength
pub mod Payload
pub mod FrameStart
pub mod FrameRead
pub mod RoundTrip
pub mod Sent
