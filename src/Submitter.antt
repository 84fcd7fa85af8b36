-- ===== src/Submitter.antt =====
-- The submitter: one module for each file under submitter/.
pub mod Types
pub mod LogList
pub mod Request
pub mod CompatibleLogs
pub mod Ctlint
pub mod Handler
pub mod Strategy
pub mod Quorum
pub mod Orchestrate
pub mod SubmitToLog
