-- ===== src/Artifacts.antt =====
-- backend/app/artifacts: the documents that the pipeline distils, their review and publication.
pub mod Service
pub mod Router
pub mod Review
pub mod Keeps
pub mod Pending
