-- ===== src/Gates.antt =====
-- The deterministic research gates of src/ats_lab/gates.py: the evidence that they read (Evidence), the
-- lists that they fill (Findings), windows and trade floors (Windows), robustness of one row
-- (Robustness), the quality gates (Quality), promotion (Promotion) and HPO candidates (Candidate).
pub mod Evidence
pub mod Findings
pub mod Windows
pub mod Robustness
pub mod Quality
pub mod Promotion
pub mod Candidate
pub mod Sound
pub mod Samples
