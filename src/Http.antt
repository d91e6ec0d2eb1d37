-- ===== src/Http.antt =====
-- The HTTP part of the opening handshake: librcom/src/HttpParser.cpp, RequestParser.cpp,
-- Request.cpp, ResponseParser.cpp and Response.cpp.
pub mod Characters
pub mod Parser
pub mod Request
pub mod RequestParser
pub mod WellFormed
pub mod Lines
pub mod RoundTrip
pub mod Stream
pub mod Response
pub mod ResponseParser
pub mod FirstHeader
pub mod Upgrade
pub mod UpgradeRequest
