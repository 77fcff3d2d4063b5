-- ===== src/Pairing.antt =====
-- internal/pairing: the node's side of automated device pairing.
pub mod PinStore
pub mod Jwks
pub mod Crypto
pub mod Assertion
pub mod Responder
