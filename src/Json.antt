-- ===== src/Json.antt =====
-- service/src/json.rs: the JSON document, its serializer and its recursive-descent parser.
pub mod Syntax
pub mod Printer
pub mod Strings
pub mod Numbers
pub mod Parser
pub mod Canonical
pub mod RoundTrip
pub mod Total
pub mod NumberRoundTrip
pub mod StringRoundTrip
