-- ===== src/Mobile.antt =====
-- apps/mobile: the logic of the app that handles money.
pub mod Amount
pub mod Preview
pub mod Examples
