-- ===== src/Examples/Workflows.antt =====
-- A workflow of three nodes: crates/sessionweft-orchestration/src/lib.rs.
use sessionweft.Common.{
  ℕ, ◌+◌, String, ◌≡◌, ◌≤◌, refl, inl, inr, true, false, List, [], ◌∷◌, none, some, arith, ok, Io,
  Trace, In, ◌↔◌, is_ok, lookup, set_entry, any, all, is_blank, insert, saturating_suc,
}
use sessionweft.Definition.{
  WorkflowDefinition, WorkflowNodeDefinition, task, validate, count_visited, dependents, indegrees,
  sources, visit_all,
}
use sessionweft.Definition.Graph.{Resolvable}
use sessionweft.Definition.Acyclic.{IsLinked, validate_iff, visit_all_terminates}
use sessionweft.Workflow.{
  WorkflowExecution, WorkflowNodeExecution, new, running, succeeded, ready, find_definition,
  satisfies_dependency, idle, ready_nodes, fail_node, is_successfully_complete,
  has_recoverable_work,
}
use sessionweft.Workflow.{refresh_ready_nodes, dependency_satisfied}
use sessionweft.Workflow.Commands.{
  Command, Operation, starts, completes, fails, perform, run, accepts,
}
use sessionweft.Workflow.Settled.{settled_stays}
use sessionweft.Workflow.Starts.{starts_of}
use sessionweft.Workflow.Attempts.{IsBudgeted, run-IsBudgeted}
use sessionweft.Workflow.Readiness.{Reason, run-Reason}
use sessionweft.Workflow.Refreshed.{refresh_ready_nodes-IsBlocked}
use sessionweft.Workflow.Stuck.{fail_node_continues}
use sessionweft.Workflow.Versions.{second_command_refused}

abbrev trace : Trace
trace = record { correlation_id = 1; actor_id = none }

abbrev at : ℕ → Io
at n = record { clock = λ k. n + k; uuid = λ k. n + k }

abbrev node : String → List String → WorkflowNodeDefinition
node id dependencies = record {
  id = id;
  kind = task;
  dependencies = dependencies;
  max_attempts = 2;
  continue_on_failure = false;
  fallback = none;
}

abbrev build : WorkflowNodeDefinition
build = node "build" []

abbrev test : WorkflowNodeDefinition
test = node "test" ("build" ∷ [])

abbrev flow : WorkflowDefinition
flow = record { name = "flow"; version = 1; nodes = build ∷ test ∷ [] }

abbrev waiting_node : WorkflowNodeExecution
waiting_node = idle

abbrev ready_node : WorkflowNodeExecution
ready_node = record idle { status = ready }

abbrev execution : WorkflowExecution
execution = record {
  schema_version = 1;
  id = 0;
  session_id = 5;
  version = 0;
  status = running;
  definition = flow;
  nodes = ("build", ready_node) ∷ ("test", waiting_node) ∷ [];
  created_at = 0;
  updated_at = 0;
}

created : new (at 0) 5 flow ≡ ok execution
unfolding new validate any all lookup insert set_entry is_blank find_definition satisfies_dependency
created = refl

valid : validate flow ≡ ok tt
unfolding validate any is_blank insert lookup
valid = refl

linked : IsLinked flow
linked = ((validate_iff flow).0 valid).0

validate_iff_example : (validate flow ≡ ok tt) ↔ (
    IsLinked flow × ((d : WorkflowNodeDefinition) → In d flow.nodes → Resolvable flow.nodes d.id))
validate_iff_example = validate_iff flow

-- Two nodes that wait for each other.
cyclic : is_ok (validate (record flow { nodes = node "build" ("test" ∷ []) ∷ test ∷ [] })) ≡ false
unfolding validate any is_blank lookup insert set_entry
cyclic = refl

visit_all_terminates_example :
    (count_visited 9
        (dependents flow.nodes [])
        (indegrees flow.nodes [])
        (sources (indegrees flow.nodes []))
        0
      ≡ visit_all flow.nodes)
    × (is_ok (visit_all flow.nodes) ≡ true)
visit_all_terminates_example = visit_all_terminates flow 9 linked (omega arith)

abbrev command : ℕ → String → Operation → Command
command expected id o = record {
  io = at 10;
  trace = trace;
  expected = expected;
  node_id = id;
  operation = o;
}

abbrev history : List Command
history =
    command 0 "build" (starts "one")
    ∷ command 1 "build" (fails "disk full")
    ∷ command 2 "build" (starts "one")
    ∷ command 3 "build" completes
    ∷ []

-- The nodes after the history: one has succeeded at its second try, the other is ready.
abbrev built : WorkflowNodeExecution
built = record {
  status = succeeded;
  attempts = 2;
  owner_id = none;
  started_at = some 10;
  completed_at = some 10;
  last_error = none;
}

built_found : lookup "build" (run execution history).nodes ≡ some built
unfolding run all any lookup set_entry find_definition satisfies_dependency saturating_suc
built_found = refl

test_found : lookup "test" (run execution history).nodes ≡ some ready_node
unfolding run all any lookup set_entry find_definition satisfies_dependency saturating_suc
test_found = refl

ready_after : ready_nodes (run execution history) ≡ "test" ∷ []
unfolding ready_nodes run all any lookup set_entry find_definition satisfies_dependency
    saturating_suc
ready_after = refl

started_twice : starts_of "build" execution history ≡ 2
unfolding starts_of run accepts all any lookup set_entry find_definition satisfies_dependency
    saturating_suc
started_twice = refl

run-IsBudgeted_example : (starts_of "build" execution history ≤ 2) × IsBudgeted 2 built
unfolding find_definition
run-IsBudgeted_example =
    run-IsBudgeted (at 0) 5 flow execution history "build" build built created refl built_found

run-Reason_example : Reason (run execution history) test
run-Reason_example =
    run-Reason (at 0) 5 flow execution history test ready_node created (inr (inl refl)) test_found
      refl

settled_stays_example : lookup "build" (run (run execution history) history).nodes ≡ some built
settled_stays_example = settled_stays (run execution history) history "build" built built_found refl

second_command_refused_example :
    (accepts
        (command 0 "build" (starts "two"))
        (starts "two")
        (perform (command 0 "build" (starts "one")) (starts "one") execution)
      ≡ false)
    × (perform
          (command 0 "build" (starts "two"))
          (starts "two")
          (perform (command 0 "build" (starts "one")) (starts "one") execution)
        ≡ perform (command 0 "build" (starts "one")) (starts "one") execution)
unfolding accepts lookup
second_command_refused_example =
    second_command_refused (command 0 "build" (starts "one")) (command 0 "build" (starts "two"))
      execution refl (ground arith) refl

-- One node that lets its workflow continue, in its last try.
abbrev optional : WorkflowNodeDefinition
optional = record (node "lint" []) { continue_on_failure = true }

abbrev last_try : WorkflowNodeExecution
last_try = record {
  status = running;
  attempts = 2;
  owner_id = some "one";
  started_at = some 3;
  completed_at = none;
  last_error = none;
}

abbrev linting : WorkflowExecution
linting = record execution {
  definition = record { name = "lint"; version = 1; nodes = optional ∷ [] };
  nodes = ("lint", last_try) ∷ [];
}

fail_node_continues_example :
    (fail_node (at 10) 0 "lint" "warnings" trace linting).1.status ≡ running
unfolding find_definition
fail_node_continues_example =
    fail_node_continues (at 10) 0 "lint" "warnings" trace linting optional refl refl

-- The workflow of the last theorem is complete, and has no work left, and yet it runs.
complete_but_running :
    (is_successfully_complete (fail_node (at 10) 0 "lint" "warnings" trace linting).1 ≡ true)
    × (has_recoverable_work (fail_node (at 10) 0 "lint" "warnings" trace linting).1 ≡ false)
unfolding is_successfully_complete has_recoverable_work fail_node all any lookup set_entry
    find_definition satisfies_dependency
complete_but_running = (refl, refl)

-- The workflow before its nodes are looked at.
abbrev unread : WorkflowExecution
unread = record execution { nodes = ("build", idle) ∷ ("test", idle) ∷ [] }

refresh_ready_nodes-IsBlocked_example :
    all (dependency_satisfied (refresh_ready_nodes unread).1) ("build" ∷ []) ≡ false
unfolding refresh_ready_nodes all any lookup set_entry find_definition satisfies_dependency
refresh_ready_nodes-IsBlocked_example =
    refresh_ready_nodes-IsBlocked unread test idle refl (inr (inl refl)) refl refl
