-- ===== src/Tests.antt =====
-- Runs of the modelled code at concrete inputs: tests, and the theorems applied where their
-- hypotheses hold.
pub mod CacheRuns
pub mod ProxyRuns
pub mod StorageRuns
pub mod AccessRuns
pub mod AuthRuns
pub mod ResourceRuns
pub mod PreheatRuns
pub mod ApiRuns
