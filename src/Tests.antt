-- ===== src/Tests.antt =====
-- Concrete runs and schedules, and each theorem that has conditions at one of them.
pub mod Data
mod LedgerCases
mod ExecutorCases
mod ScheduleCases
mod ViewCases
mod ThreadCases
mod AcpCases
mod SessionCases
