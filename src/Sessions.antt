-- ===== src/Sessions.antt =====
-- backend/app/sessions: the state machine of a session, the requests that drive it, and the
-- retraction saga.
pub mod Machine
pub mod Service
pub mod Schemas
pub mod Router
pub mod Lifecycle
pub mod Keeps
pub mod Pending
pub mod Requests
pub mod StatusChange
pub mod Retraction
pub mod Processing
pub mod Listing
pub mod Upload
pub mod Consent
pub mod Recording
