-- ===== src/Trust.antt =====
-- backend/app/trust: the redlines and the policy engine that raises where a hard one fails.
pub mod Redlines
pub mod Policy
pub mod Checks
pub mod Sensitive
pub mod Findings
