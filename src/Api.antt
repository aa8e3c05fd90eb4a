-- ===== src/Api.antt =====
-- The API of service/src/api.rs: its state, its setup and its handlers.
pub mod State
pub mod Auth
pub mod Readings
pub mod Ingest
pub mod Lease
pub mod Routes
pub mod Laws
pub mod Server
