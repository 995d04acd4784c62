-- ===== src/Tests.antt =====
-- Concrete data, and the theorems of the other modules at them.
pub mod DepositData
pub mod GuardianData
pub mod DepositRuns
pub mod GuardianRuns
pub mod ServiceRuns
pub mod UtilRuns
pub mod ContractRuns
pub mod StompRuns
pub mod ServiceStarts
pub mod CycleRuns
