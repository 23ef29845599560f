-- ===== src/Supervisor.antt =====
-- The decisions of src/ats_lab/supervisor.py that compute without processes or agents: the cohorts of an
-- analysis (Chunks, Analysis) and the requests of a synthesis (Requests).
pub mod Chunks
pub mod Retry
pub mod Analysis
mod Samples
