-- ===== src/Auth.antt =====
-- backend/app/auth and backend/app/dependencies.py: registration, login, and the user behind a token.
pub mod Crypto
pub mod Slug
pub mod Router
pub mod Keeps
pub mod Accounts
pub mod Slugs
