-- ===== src/Collaboration/Model.antt =====
-- The types of internal/collaboration.
pub mod Records
pub mod Planned
pub mod States
