-- ===== src/Stomp.antt =====
-- crates/oa-gateway-stomp: the wire format (codec.rs) and the destination map (dest.rs).
pub mod Frame
pub mod Decode
pub mod Escape
pub mod Lines
pub mod Headers
pub mod RoundTrip
pub mod Limits
pub mod Dest
pub mod Sniff
pub mod Adapter
pub mod Session
pub mod Client
pub mod Reading
pub mod Echo
pub mod Confined
pub mod Cleared
mod Tests
mod AdapterTests
