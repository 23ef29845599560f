-- ===== src/Gates/Sound.antt =====
-- What the verdicts of src/ats_lab/gates.py promise: no gate raises, and a pass or a promotion had
-- every gate pass.
pub mod Metrics
pub mod Verdicts
pub mod Promotions
pub mod Candidates
pub mod Robust
pub mod Overlaps
