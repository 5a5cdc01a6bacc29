-- ===== src/Data.antt =====
-- src/data: the stores of users, accounts and identities on top of the tables.
pub mod Models
pub mod Fields
pub mod Users
pub mod Accounts
pub mod Identity
pub mod Setup
pub mod Tests
