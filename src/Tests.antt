-- ===== src/Tests.antt =====
-- Runs of the operator's functions on small inputs, and instances of the theorems.
mod Data
mod RaftRuns
mod Store
mod OperatorRuns
mod CreationRuns
mod MonitorRuns
mod Labels
mod WorldRuns
mod TotalRuns
mod ListRuns
mod Failovers
mod RoundRuns
mod EntryRuns
mod StuckRuns
