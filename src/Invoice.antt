-- ===== src/Invoice.antt =====
-- The numbers of an RGB invoice (invoice/src/amount.rs).
pub mod Precision
pub mod Amount
pub mod CoinAmount
pub mod Decimal
pub mod AmountText
