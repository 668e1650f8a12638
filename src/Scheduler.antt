-- ===== src/Scheduler.antt =====
-- crates/sessionweft-scheduler/src/lib.rs: plans, requirements and claims of tasks. A plan's
-- requirements are a map by node. `show_id` is the text that the library of identifiers gives for one.
pub mod Store
use Prim.Native.String.{◌++◌ as append_text}
use sessionweft.Common.{
  ℕ, String, Bool, true, false, not, ◌&&◌, ◌||◌, Option, none, some, List, [], ◌∷◌, any, all,
  str_eq, if◌then◌else◌, is_blank, Map, lookup, decimal, Result, ok, err, Io,
}
use sessionweft.Agent.{
  AgentRole, planner, architect, worker, reviewer, tester, merger, Capability, AgentRecord,
}
use sessionweft.Policy.{same_capability}
use sessionweft.Definition.{WorkflowNodeDefinition, WorkflowNodeKind, task, approval}
use sessionweft.Workflow.{WorkflowExecution}

pub record TaskRequirement : Type 0 where
  pub role : Option AgentRole
  pub capabilities : List Capability

pub data SchedulerError : Type 0 where
  validation : String → SchedulerError

abbrev is_unnamed_tool : Capability → Bool
is_unnamed_tool (Capability.tool name) = is_blank name
is_unnamed_tool _ = false

-- `TaskRequirement::validate`.
validate_requirement : TaskRequirement → Result SchedulerError Unit
validate_requirement r =
    if any is_unnamed_tool r.capabilities
    then err (validation "tool capability name cannot be empty")
    else ok tt

same_role : AgentRole → AgentRole → Bool
same_role planner planner = true
same_role architect architect = true
same_role worker worker = true
same_role reviewer reviewer = true
same_role tester tester = true
same_role merger merger = true
same_role _ _ = false

role_fits : Option AgentRole → AgentRole → Bool
unfolding same_role
role_fits none role = true
role_fits (some wanted) role = same_role wanted role

-- `TaskRequirement::matches`.
unfoldable pub matches : TaskRequirement → AgentRecord → Bool
unfolding role_fits
matches r a =
    role_fits r.role a.manifest.role
    && all (λ c. any (same_capability c) a.manifest.capabilities) r.capabilities

pub record SchedulerPlan : Type 0 where
  pub schema_version : ℕ
  pub workflow_id : ℕ
  pub session_id : ℕ
  pub requirements : Map TaskRequirement
  pub created_at : ℕ
  pub updated_at : ℕ

abbrev is_task : WorkflowNodeKind → Bool
is_task task = true
is_task approval = false

is_task_node : List WorkflowNodeDefinition → String → Bool
is_task_node nodes id = any (λ (d : WorkflowNodeDefinition). is_task d.kind && str_eq d.id id) nodes

check_requirements : List WorkflowNodeDefinition → Map TaskRequirement → Result SchedulerError Unit
unfolding is_task_node validate_requirement
check_requirements nodes [] = ok tt
check_requirements nodes ((id, r) ∷ rest) =
    let later = check_requirements nodes rest in
    if not (is_task_node nodes id)
    then err (
        validation (
          append_text "scheduler requirement references non-task or missing node '"
            (append_text id "'")))
    else elim (validate_requirement r) [ ok _ ↦ later | err e ↦ err e ]

-- `SchedulerPlan::new`.
unfoldable pub new_plan :
    Io → WorkflowExecution → Map TaskRequirement → Result SchedulerError SchedulerPlan
unfolding check_requirements
new_plan io w requirements = elim (check_requirements w.definition.nodes requirements) [
  | err e ↦ err e
  | ok _ ↦ ok (record {
    schema_version = 1;
    workflow_id = w.id;
    session_id = w.session_id;
    requirements = requirements;
    created_at = io.clock 0;
    updated_at = io.clock 0;
  })
]

abbrev pub unrestricted : TaskRequirement
unrestricted = record { role = none; capabilities = [] }

-- `SchedulerPlan::requirement_for`.
unfoldable pub requirement_for : SchedulerPlan → String → TaskRequirement
requirement_for p id = elim (lookup id p.requirements) [ none ↦ unrestricted | some r ↦ r ]

pub data TaskClaimStatus : Type 0 where
  active completed failed released : TaskClaimStatus

pub record TaskClaim : Type 0 where
  pub schema_version : ℕ
  pub id : ℕ
  pub session_id : ℕ
  pub workflow_id : ℕ
  pub node_id : String
  pub attempt : ℕ
  pub agent_id : ℕ
  pub task_id : String
  pub idempotency_key : String
  pub status : TaskClaimStatus
  pub workflow_version : ℕ
  pub agent_version : ℕ
  pub created_at : ℕ
  pub updated_at : ℕ

-- `format!("{}:{node_id}:{attempt}", workflow.id)`.
unfoldable pub task_name : (ℕ → String) → ℕ → String → ℕ → String
task_name show_id workflow_id node_id attempt =
    append_text (show_id workflow_id)
      (append_text ":" (append_text node_id (append_text ":" (decimal attempt))))

-- `TaskClaim::new`.
unfoldable pub new_claim :
    (ℕ → String) → Io → WorkflowExecution → String → ℕ → AgentRecord → TaskClaim
new_claim show_id io w node_id attempt a = record {
  schema_version = 1;
  id = io.uuid 0;
  session_id = w.session_id;
  workflow_id = w.id;
  node_id = node_id;
  attempt = attempt;
  agent_id = a.id;
  task_id = task_name show_id w.id node_id attempt;
  idempotency_key = task_name show_id w.id node_id attempt;
  status = active;
  workflow_version = w.version;
  agent_version = a.version;
  created_at = io.clock 0;
  updated_at = io.clock 0;
}

-- `TaskClaim::complete` and `TaskClaim::fail`.
unfoldable pub complete : ℕ → ℕ → ℕ → TaskClaim → TaskClaim
complete workflow_version agent_version now c = record c {
  status = completed;
  workflow_version = workflow_version;
  agent_version = agent_version;
  updated_at = now;
}

unfoldable pub fail : ℕ → ℕ → ℕ → TaskClaim → TaskClaim
fail workflow_version agent_version now c = record c {
  status = failed;
  workflow_version = workflow_version;
  agent_version = agent_version;
  updated_at = now;
}
