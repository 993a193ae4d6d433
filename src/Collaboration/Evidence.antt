-- ===== src/Collaboration/Evidence.antt =====
-- Which accepted input bears on which interpretation: amendments, corrections, the lineage of evidence,
-- and whether a Resolution and an Assessment are current.
pub mod Lineage
pub mod Currency
pub mod Priors
pub mod Reach
pub mod Amending
