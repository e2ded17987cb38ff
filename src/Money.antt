-- ===== src/Money.antt =====
-- Money (platform/money): exact decimals with explicit rounding, settled amounts at the minor unit
-- of their currency, and the allocation of an amount to shares.
pub mod Rounding
pub mod Decimal
pub mod Currency
pub mod Amount
pub mod Allocation
