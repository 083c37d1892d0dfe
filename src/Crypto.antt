-- ===== src/Crypto.antt =====
-- The symmetric cryptography of a node: the folder Cryptography.
pub mod Primitives
pub mod Pkcs7
pub mod Token
pub mod RoundTrip
pub mod Laws
pub mod Answers
mod Tests
