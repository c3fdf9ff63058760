-- ===== src/Output.antt =====
-- src/runtime/output-router.ts
pub mod Split
pub mod Router
