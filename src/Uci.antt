-- ===== src/Uci.antt =====
-- crates/oa-gateway-uci: the model of a UCI schema and the check of a message against it. The floating
-- point numbers and the regular expressions are those of Rust and of the `regex` crate, as `Calls`.
pub mod Pattern
pub mod Schema
pub mod Errors
pub mod Extension
pub mod Acyclic
pub mod Made
pub mod Instance
pub mod Violation
pub mod Primitive
pub mod Lexical
pub mod Rules
pub mod Values
pub mod Check
pub mod Reports
pub mod Valid
pub mod Sound
pub mod Leaves
pub mod Follows
pub mod Sniff
pub mod Json
pub mod Facets
pub mod Narrowing
pub mod Plain
mod Tests
