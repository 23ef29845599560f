-- ===== src/Executor.antt =====
-- The decisions of src/ats_lab/direct_mcp_executor.py that compute on decoded messages: the classification of
-- a session (Session, Justified) and the check of a result (Results).
pub mod Session
pub mod Justified
pub mod Results
pub mod Requests
mod Samples
