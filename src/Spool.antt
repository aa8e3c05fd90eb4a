-- ===== src/Spool.antt =====
-- service/src/spool.rs: bounded on-disk spools of reading lines.
pub mod Names
pub mod Disk
pub mod Model
mod Listing
pub mod Cap
pub mod WellFormed
pub mod Append
pub mod Delivery
pub mod Acknowledge
pub mod Drain
pub mod Queue
