-- ===== src/Ledger.antt =====
-- The double-entry engine (internal/ledger): amounts, the chart's classes, verifikat and reports.
pub mod Money
pub mod Chart
pub mod Verification
pub mod Reports
