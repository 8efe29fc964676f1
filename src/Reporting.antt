-- ===== src/Reporting.antt =====
-- products/reporting-service: the cores of the reporting service, which decide over values.
pub mod Auth
pub mod Ledger
pub mod Correction
pub mod Retention
mod Tests
