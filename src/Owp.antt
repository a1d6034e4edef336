-- ===== src/Owp.antt =====
-- crates/oa-gateway-owp: the text frames of OWP 1.0 over WebSocket.
pub mod Hex
pub mod Errors
pub mod Codec
pub mod Tokens
pub mod Wire
pub mod Printer
pub mod Grammar
pub mod Session
pub mod Convert
mod Tests
mod ConvertTests
