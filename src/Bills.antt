-- ===== src/Bills.antt =====
-- Recurring bills: packages/domain/src/bills/schedule.ts, apps/api/src/ledger/bills.service.ts and
-- apps/worker/src/bills/post-due-bills.ts.
pub mod Calendar
pub mod Fields
pub mod Iso
pub mod Schedule
pub mod Service
pub mod Worker
pub mod Examples
