-- ===== src/Collaboration/Inputs.antt =====
-- The inputs of internal/collaboration/model.go: their admission and their delivery.
pub mod Accepting
pub mod Delivering
pub mod Projecting
