-- ===== src/Tests.antt =====
-- Runs at concrete inputs, one module for each part of the program.
mod PoolRuns
mod RegistryRuns
mod ClusterRuns
mod DnsRuns
mod SqlRuns
mod InstallRuns
mod ReportRuns
