-- ===== src/Examples.antt =====
-- Each theorem on concrete inputs: small databases as the program would hold them.
pub mod Data
mod Sessions
mod Jobs
mod Artifacts
mod Cipher
mod Accounts
mod History
mod Migrations
mod Worker
mod Answers
