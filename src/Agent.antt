-- ===== src/Agent.antt =====
-- The bounded research agent: src/cranus/agent.
pub mod Guardrails
pub mod Loop
pub mod Tools
