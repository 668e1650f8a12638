-- ===== src/Lib.antt =====
-- sessionweft: durable AI sessions, workflows with resource locks, agents under a tool policy, and a
-- merge queue over Git worktrees; tenants with quotas, and the billing of their usage.
--
-- How the parts fit. A Session is the durable conversation; every operation names the version that its
-- caller has seen, and yields an event. A workflow belongs to a session: its nodes run under owners that
-- take locks on resources of a workspace. A lock is a lease with a fencing token, and what writes to
-- the workspace shows the token. Agents own tasks and call tools, each call admitted by the policy.
-- What an agent did in its worktree reaches the target branch through the merge queue.
--
-- Which file models which part:
--   Session, Session/          crates/sessionweft-core/src/lib.rs: Session::new, append_message,
--                              select_provider, archive.
--   Lock, Lock/                crates/sessionweft-orchestration/src/lib.rs: LockResource, LockRequest,
--                              LockLease.
--   LockTable, LockTable/      crates/sessionweft-orchestration-sqlite/src/lib.rs: acquire_lock,
--                              heartbeat_lock, release_lock, validate_fence over the tables
--                              lock_leases, lock_sequence and outbox.
--   LockService, LockService/  crates/sessionweft-orchestration/src/lib.rs: the lock methods of
--                              OrchestrationService, and histories of calls of them.
--   Definition, Definition/    the same file: WorkflowDefinition::validate; its children describe the
--                              graph and the loop of its traversal.
--   Workflow, Workflow/        the same file: WorkflowExecution.
--   Scheduler                  crates/sessionweft-scheduler/src/lib.rs: TaskRequirement, SchedulerPlan,
--                              TaskClaim.
--   Scheduler/Store            crates/sessionweft-scheduler-sqlite/src/lib.rs: register_plan, claim_next,
--                              complete_claim, fail_claim over the tables of plans, claims, workflows,
--                              agents and events.
--   Scheduler/Store/Recovery   crates/sessionweft-scheduler-sqlite/src/recovery.rs: recover_stale_claim.
--   Tenancy, Tenancy/Service   crates/sessionweft-tenancy/src/lib.rs: tenants, roles, quotas, and
--                              TenantService over the record TenantRepository.
--   Tenancy/Store              crates/sessionweft-saas-postgres/src/tenancy.rs and database.rs:
--                              PostgresTenantRepository, which fills that record.
--   Billing, Billing/Service   crates/sessionweft-billing/src/lib.rs: plans, subscriptions, usage records,
--                              and BillingService::record_usage.
--   Billing/Store              crates/sessionweft-saas-postgres/src/billing.rs:
--                              PostgresBillingRepository.
--   Agent, Agent/              crates/sessionweft-execution/src/lib.rs: AgentManifest, AgentRecord.
--   Policy, Policy/            the same file: PolicyEngine, ApprovalGrant, ToolRegistry, ToolGateway,
--                              McpGateway.
--   Worktree, Worktree/        crates/sessionweft-git/src/lib.rs: WorktreeAllocationRequest,
--                              GitWorktreeRecord.
--   MergeQueue, MergeQueue/    crates/sessionweft-git/src/merge_queue.rs: MergeQueueEntry.
--   MergeQueue/Recovery        crates/sessionweft-git/src/merge_execution.rs: MergeQueueRecoveryTransition;
--                              crates/sessionweft-git-sqlite/src/merge_queue.rs: what claim_next_merge
--                              writes to an entry whose fence is not live.
--   Common, Common/            what they share: tests, lists, text, maps, actions, events.
--   Examples, Examples/        concrete runs.
--
-- How the code is read. A method on `&mut self` is an action `Exec S E A`, a function from the state to
-- a result and the state that it leaves, so a write before an early return stays. Utc::now and
-- Uuid::new_v4 are the fields of `Io`, indexed by the order of the reads. Identifiers and instants are
-- numbers; u32 and u64 counters saturate at their bounds as the source writes it; an instant plus a
-- duration does not overflow. A TIMESTAMPTZ column keeps an instant, which is in nanoseconds, to the
-- microsecond; a JSON column keeps all of it. Text is a string of characters whose length is that of
-- its UTF-8 bytes; str::trim and the tests on characters are written out on it. A SQL statement is the
-- function on the rows that its text says, and a transaction that is not committed leaves no change.
-- Calls that hold `lock_guard` run one after another, so a history is a list of calls; a process that
-- stops in between, and faults of the database other than its constraints, are not modelled.
--
-- Agents claim the ready nodes of a workflow through the scheduler: a claim starts the node, gives the
-- agent its task and is stored, all in one transaction, and finishing it undoes both; the claim of an
-- agent whose heartbeat has expired is released, and the agent fails. Calls that hold `claim_guard` run
-- one after another. In the SaaS deployment the rows that a Postgres transaction locks
-- order it among the others, so a history is a list of transactions there too.
--
-- Parameters. `show_id` is the uuid library's Display, a function of the identifier; what it prints is
-- used only in texts. `answer` is what a billing provider says to a report, after the reports before it.
--
-- Fuel. Only the traversal in Definition runs on fuel: one more than the number of nodes. A node enters
-- the queue when the last of its dependencies is visited, so at most once.
--
-- Not modelled: the storage of sessions, workflows, agents and worktrees apart from the tables above,
-- network, processes, providers, plugins, row-level security, the knowledge store, the execution of
-- merges and tasks, the handover of released claims, claims under lock requirements and the loop that
-- polls the scheduler (handover.rs, prerequisites.rs, polling.rs), and the programs' user interfaces.
-- They are input and output, or wait for a later extension.
mod Common
pub mod Session
pub mod Lock
pub mod LockTable
pub mod LockService
pub mod Definition
pub mod Workflow
pub mod Scheduler
pub mod Tenancy
pub mod Billing
pub mod Agent
pub mod Policy
pub mod Worktree
pub mod MergeQueue
mod Examples
