-- ===== src/Connector.antt =====
-- products/connector: the pairing of a page, and the tokens that open the connector's local pages.
pub mod Bridge
pub mod Challenges
pub mod SaveActions
pub mod Access
pub mod Receipts
mod Tests
