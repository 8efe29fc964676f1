-- ===== src/Capability.antt =====
-- lib/capability-core: one-use leases, the bindings of a capability and its receipt.
pub mod Lease
pub mod Bindings
pub mod Receipt
mod Tests
