-- ===== src/Collaboration/Examples.antt =====
-- Concrete States, tests and applications for internal/collaboration.
pub mod Rounds
pub mod Turns
