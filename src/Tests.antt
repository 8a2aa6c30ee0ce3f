-- ===== src/Tests.antt =====
-- Concrete runs of the modules, at which the theorems are applied.
mod Lifecycles
mod Queue
mod Pools
mod Publishing
mod Allocation
mod Documents
mod Limits
mod Gate
mod Handler
mod Reviews
mod Identities
mod Work
mod Sources
mod Agents
mod Models
mod Flow
mod Alerts
mod Snapshots
mod Nonces
