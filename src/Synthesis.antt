-- ===== src/Synthesis.antt =====
-- Synthesis of src/ats_lab/database_synthesis.py and src/ats_lab/synthesis.py: the cohorts of planned chains
-- (Cohorts), what every operation on them keeps (Lifecycle), and the control of false discoveries.
pub mod Cohorts
pub mod Lifecycle
pub mod Planning
pub mod Activation
pub mod Fdr
mod Samples
