-- ===== src/Agents.antt =====
-- backend/app/agents: the handlers that the worker dispatches to, and their registry.
pub mod Providers
pub mod Prompts
pub mod OpenAi
pub mod Whisper
pub mod Capture
pub mod Distiller
pub mod Integration
pub mod Deletion
pub mod Answers
pub mod Structured
pub mod Registry
pub mod Keeps
pub mod Erasure
pub mod Extraction
pub mod Pipeline
pub mod Polling
pub mod SagaRun
