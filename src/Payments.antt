-- ===== src/Payments.antt =====
-- sdk-python/intermesh/payments: prices, signed proofs, the deferred-settlement ledger.
pub mod Errors
pub mod Price
pub mod Challenge
pub mod Proof
pub mod Keyring
pub mod Ledger
pub mod Gate
