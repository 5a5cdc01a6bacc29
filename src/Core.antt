-- ===== src/Core.antt =====
-- src/core: the text of JSON documents, and the services on the stores.
pub mod Json
pub mod Auth
pub mod Accounts
pub mod Users
mod Tests
