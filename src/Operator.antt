-- ===== src/Operator.antt =====
-- products/reporting-operator: the local pages of the reviewer of reports.
pub mod Actions
mod Tests
