-- ===== src/Examples.antt =====
-- The theorems at concrete inputs, and tests of the definitions, by component.
mod Sessions
mod Workflows
mod Locks
mod Agents
mod Policies
mod Schedulers
mod Tenants
mod Billings
mod Merges
mod Worktrees
