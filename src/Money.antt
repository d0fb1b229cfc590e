-- ===== src/Money.antt =====
-- packages/domain/src/money: the split math, room weights and the balance function.
pub mod Number
pub mod Split
pub mod Rooms
pub mod Balances
pub mod Examples
