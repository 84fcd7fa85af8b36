-- ===== src/Pki.antt =====
-- Package pki: the chains and the certificates around a submission.
pub mod Chain
pub mod Discovery
pub mod FinalTbs
