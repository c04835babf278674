-- ===== src/Protocol.antt =====
-- internal/protocol/resp.go: the commands that a client sends and the replies that it gets, in
-- the RESP wire format.
pub mod Encode
pub mod Parse
pub mod RoundTrip
pub mod Inline
pub mod Inputs
pub mod Grammar
pub mod Complete
mod Tests
