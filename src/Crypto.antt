-- ===== src/Crypto.antt =====
-- The primitives of service/src/crypto.rs: the hashes, AES-128-CBC, base64 and the comparison of
-- tokens.
pub mod Words
pub mod Hash
pub mod Aes
pub mod Cbc
pub mod Base64
pub mod Compare
pub mod CompareLaws
pub mod Base64Laws
