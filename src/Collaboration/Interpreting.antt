-- ===== src/Collaboration/Interpreting.antt =====
-- The agent's explicit interpretations in internal/collaboration: Resolve, Assess and the proofs of
-- their effects.
pub mod Resolving
pub mod Assessing
pub mod Effects
