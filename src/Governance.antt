-- ===== src/Governance.antt =====
-- The governance plane: src/cranus/governance.
pub mod Errors
pub mod Access
pub mod KillSwitch
pub mod Engagements
pub mod Audit
mod Tests
