-- ===== src/Issues.antt =====
-- The reports of issues in products/connector: the draft, its publication, and its moderation.
pub mod Model
pub mod Draft
pub mod Publication
pub mod Moderation
pub mod Candidate
pub mod Review
pub mod External
pub mod Tests
