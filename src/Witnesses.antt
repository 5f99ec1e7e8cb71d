-- ===== src/Witnesses.antt =====
-- A small server to try the theorems on: a user with an account, one row in each table that the
-- calls read, and stand-ins for the code outside the repository.
pub mod Fixtures
pub mod Tokens
pub mod Access
pub mod Accounts
pub mod Pairing
pub mod Settings
pub mod Hubs
pub mod Replays
pub mod Terminals
pub mod SignIns
pub mod Requests
pub mod Startup
