-- ===== src/Tests.antt =====
-- Runs of the models on concrete inputs, and each theorem at an input that meets its hypotheses.
pub mod RaftRuns
pub mod NodeRuns
pub mod CpRuns
pub mod ObjectRuns
pub mod GroupRuns
pub mod DurableRuns
pub mod SpscRuns
pub mod WanRuns
pub mod PersistenceRuns
pub mod ProtocolRuns
pub mod StoreRuns
