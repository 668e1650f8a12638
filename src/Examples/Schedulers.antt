-- ===== src/Examples/Schedulers.antt =====
-- Two agents that claim the nodes of one workflow: crates/sessionweft-scheduler-sqlite/src/lib.rs.
use sessionweft.Common.{
  ℕ, ◌+◌, String, ◌≡◌, refl, false, none, List, [], ◌∷◌, Io, Trace, decimal, map, find_by,
  replace_by, any, all, lookup, set_entry, saturating_suc, trim, new_event,
}
use sessionweft.Definition.{WorkflowDefinition, WorkflowNodeDefinition, task}
use sessionweft.Workflow.{
  WorkflowExecution, start_node, complete_node, fail_node, idle, ready, find_definition,
  satisfies_dependency,
}
use sessionweft.Workflow
use sessionweft.Agent.{AgentRecord, assign_task, release_task, fail, is_stale_at, worker}
use sessionweft.Agent
use sessionweft.Scheduler.{
  SchedulerPlan, TaskClaim, completed, failed, released, matches, requirement_for,
}
use sessionweft.Scheduler.Store.{
  Store, claim_next, finish_claim, register_plan, transaction, active_claim_exists,
}
use sessionweft.Scheduler.Store.Recovery.{recover_stale_claim}
use sessionweft.Scheduler.Store.Consistent.{IsConsistent}
use sessionweft.Scheduler.Store.Claims.{
  Request, Call, registers, claims, completes, fails, recovers, run, run_scheduler-IsConsistent,
}

abbrev trace : Trace
trace = record { correlation_id = 1; actor_id = none }

abbrev at : ℕ → Io
at n = record { clock = λ k. n + k; uuid = λ k. n + k }

abbrev node : String → List String → WorkflowNodeDefinition
node id dependencies = record {
  id = id;
  kind = task;
  dependencies = dependencies;
  max_attempts = 2;
  continue_on_failure = false;
  fallback = none;
}

abbrev flow : WorkflowDefinition
flow = record {
  name = "flow";
  version = 1;
  nodes = node "build" [] ∷ node "test" ("build" ∷ []) ∷ [];
}

abbrev execution : WorkflowExecution
execution = record {
  schema_version = 1;
  id = 4;
  session_id = 5;
  version = 0;
  status = Workflow.running;
  definition = flow;
  nodes = ("build", record idle { status = ready }) ∷ ("test", idle) ∷ [];
  created_at = 0;
  updated_at = 0;
}

abbrev agent : ℕ → AgentRecord
agent id = record {
  schema_version = 1;
  id = id;
  session_id = 5;
  version = 0;
  manifest = record {
    name = "worker";
    role = worker;
    capabilities = [];
    heartbeat_timeout_seconds = 30;
  };
  status = Agent.running;
  heartbeat_at = 0;
  current_task_id = none;
  last_error = none;
  created_at = 0;
  updated_at = 0;
}

abbrev plan : SchedulerPlan
plan = record {
  schema_version = 1;
  workflow_id = 4;
  session_id = 5;
  requirements = [];
  created_at = 0;
  updated_at = 0;
}

abbrev store : Store
store = record {
  plans = [];
  workflows = execution ∷ [];
  agents = agent 7 ∷ agent 8 ∷ [];
  claims = [];
  outbox = [];
}

abbrev call : ℕ → Request → Call
call n r = record { io = at n; trace = trace; request = r }

-- One agent claims the first node, the other finds none; then the node fails, is claimed again by the
-- other agent, and completes.
abbrev history : List Call
history =
    call 100 (registers plan)
    ∷ call 200 (claims (record { workflow_id = 4; agent_id = 7 }))
    ∷ call 300 (claims (record { workflow_id = 4; agent_id = 8 }))
    ∷ call 400 (fails 205 "disk full")
    ∷ call 500 (claims (record { workflow_id = 4; agent_id = 8 }))
    ∷ call 600 (completes 505)
    ∷ call 700 (claims (record { workflow_id = 4; agent_id = 7 }))
    ∷ call 800 (recovers 705 30000000000)
    ∷ call 900 (recovers 705 31000000000)
    ∷ []

run_scheduler-IsConsistent_example : IsConsistent (run decimal store history)
run_scheduler-IsConsistent_example = run_scheduler-IsConsistent decimal store history refl

-- After the history the first claim has failed, the second has completed, and the third was released
-- once its agent was stale.
statuses :
    map (λ (c : TaskClaim). c.status) (run decimal store history).claims
    ≡ failed ∷ completed ∷ released ∷ []
unfolding run claim_next finish_claim recover_stale_claim is_stale_at fail register_plan transaction
    all any lookup set_entry find_definition satisfies_dependency saturating_suc start_node
    complete_node fail_node assign_task release_task find_by replace_by decimal matches
    requirement_for active_claim_exists trim new_event
statuses = refl
