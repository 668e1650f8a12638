-- ===== src/Workflow.antt =====
-- crates/sessionweft-orchestration/src/lib.rs: the execution of a workflow. The methods on
-- `&mut self` are actions of `Exec WorkflowExecution`: a write that precedes an early return stays.
pub mod Commands
pub mod Steps
pub mod Outcomes
pub mod Moves
pub mod Settled
pub mod Checks
pub mod Starts
pub mod Attempts
pub mod Readiness
pub mod Versions
pub mod Stuck
pub mod Refreshed
pub mod Others
use sessionweft.Common.{
  ℕ, ◌+◌, String, Bool, true, false, not, ◌&&◌, Option, none, some, List, [], ◌∷◌, ◌++◌, any, all,
  length, ltb, ◌==◌, str_eq, if◌then◌else◌, u32_max, u64_max, saturating_suc, Map, lookup, insert,
  set_entry, values, Result, ok, err, Exec, pure, gets, modify, refuse_if, or_raise, ◌>>=◌, ◌>>◌,
  Io, Trace, Value, Fields, num, uuid, str, flag, obj, field, end, EventEnvelope, new_event,
}
use sessionweft.Definition.{
  WorkflowNodeKind, task, approval, WorkflowNodeDefinition, WorkflowDefinition, OrchestrationError,
  validation, node_not_found, version_conflict, invalid_transition, format, validate,
}

pub data WorkflowStatus : Type 0 where
  running succeeded failed cancelled : WorkflowStatus

pub data WorkflowNodeStatus : Type 0 where
  pending ready running waiting_approval succeeded failed skipped : WorkflowNodeStatus

pub record WorkflowNodeExecution : Type 0 where
  pub status : WorkflowNodeStatus
  pub attempts : ℕ
  pub owner_id : Option String
  pub started_at : Option ℕ
  pub completed_at : Option ℕ
  pub last_error : Option String

pub record WorkflowExecution : Type 0 where
  pub schema_version : ℕ
  pub id : ℕ
  pub session_id : ℕ
  pub version : ℕ
  pub status : WorkflowStatus
  pub definition : WorkflowDefinition
  pub nodes : Map WorkflowNodeExecution
  pub created_at : ℕ
  pub updated_at : ℕ

abbrev pub Method : Type 0 → Type 0
Method A = Exec WorkflowExecution OrchestrationError A

-- `WorkflowNodeStatus::satisfies_dependency`.
unfoldable pub satisfies_dependency : WorkflowNodeStatus → Bool → Bool
satisfies_dependency succeeded continue_on_failure = true
satisfies_dependency skipped continue_on_failure = true
satisfies_dependency failed continue_on_failure = continue_on_failure
satisfies_dependency _ continue_on_failure = false

-- `WorkflowNodeExecution::default`.
abbrev pub idle : WorkflowNodeExecution
idle = record {
  status = pending;
  attempts = 0;
  owner_id = none;
  started_at = none;
  completed_at = none;
  last_error = none;
}

abbrev pub is_pending : WorkflowNodeStatus → Bool
is_pending pending = true
is_pending _ = false

abbrev pub is_ready : WorkflowNodeStatus → Bool
is_ready ready = true
is_ready _ = false

abbrev pub is_running : WorkflowNodeStatus → Bool
is_running running = true
is_running _ = false

abbrev pub is_waiting : WorkflowNodeStatus → Bool
is_waiting waiting_approval = true
is_waiting _ = false

abbrev pub is_approval : WorkflowNodeKind → Bool
is_approval approval = true
is_approval task = false

abbrev pub is_live : WorkflowStatus → Bool
is_live running = true
is_live _ = false

unfoldable pub find_definition :
    String → List WorkflowNodeDefinition → Option WorkflowNodeDefinition
find_definition id [] = none
find_definition id (d ∷ ds) = if str_eq d.id id then some d else find_definition id ds

pub node_definition : String → Method WorkflowNodeDefinition
node_definition id e = or_raise (node_not_found id) (find_definition id e.definition.nodes) e

pub node_state : String → Method WorkflowNodeExecution
node_state id e = or_raise (node_not_found id) (lookup id e.nodes) e

-- A write through `node_state_mut(id)?`, which has found the entry.
unfoldable pub put_node : String → WorkflowNodeExecution → WorkflowExecution → WorkflowExecution
put_node id n e = record e { nodes = set_entry id n e.nodes }

pub set_status : WorkflowStatus → WorkflowExecution → WorkflowExecution
set_status status e = record e { status = status }

pub advance_version : ℕ → WorkflowExecution → WorkflowExecution
advance_version now e = record e { version = saturating_suc u64_max e.version; updated_at = now }

pub ensure_running : ℕ → Method Unit
ensure_running expected e =
    if not (e.version == expected)
    then (err (version_conflict expected e.version), e)
    else if not (is_live e.status)
    then (err (invalid_transition "workflow is not running"), e)
    else (ok tt, e)

pub dependency_satisfied : WorkflowExecution → String → Bool
dependency_satisfied e dependency = elim (find_definition dependency e.definition.nodes) [
  | none ↦ false
  | some d ↦ elim (lookup dependency e.nodes) [
    | none ↦ false
    | some n ↦ satisfies_dependency n.status d.continue_on_failure
  ]
]

abbrev pub activated : WorkflowNodeKind → WorkflowNodeStatus
activated approval = waiting_approval
activated task = ready

pub activate_if : Bool → WorkflowNodeDefinition → WorkflowNodeExecution → Method Unit
unfolding put_node
activate_if false d n e = (ok tt, e)
activate_if true d n e = (ok tt, put_node d.id (record n { status = activated d.kind }) e)

-- The body of the loop of `refresh_ready_nodes` for one definition.
pub refresh_node : WorkflowNodeDefinition → Method Unit
unfolding node_state dependency_satisfied activate_if
refresh_node d = do
  n ← node_state d.id
  e ← gets (λ e. e)
  activate_if (is_pending n.status && all (dependency_satisfied e) d.dependencies) d n

pub refresh_each : List WorkflowNodeDefinition → Method Unit
unfolding refresh_node
refresh_each [] = pure tt
refresh_each (d ∷ ds) = refresh_node d >> refresh_each ds

unfoldable pub refresh_ready_nodes : Method Unit
unfolding refresh_each
refresh_ready_nodes e = refresh_each e.definition.nodes e

unfoldable pub is_successfully_complete : WorkflowExecution → Bool
unfolding dependency_satisfied
is_successfully_complete e =
    all
      (λ (d : WorkflowNodeDefinition). elim (lookup d.id e.nodes) [
        | none ↦ false
        | some n ↦ satisfies_dependency n.status d.continue_on_failure
      ])
      e.definition.nodes

abbrev is_recoverable : WorkflowNodeStatus → Bool
is_recoverable ready = true
is_recoverable running = true
is_recoverable waiting_approval = true
is_recoverable _ = false

unfoldable pub has_recoverable_work : WorkflowExecution → Bool
has_recoverable_work e =
    any (λ (n : WorkflowNodeExecution). is_recoverable n.status) (values e.nodes)

pub initial_nodes :
    List WorkflowNodeDefinition → Map WorkflowNodeExecution → Map WorkflowNodeExecution
initial_nodes [] m = m
initial_nodes (d ∷ ds) m = initial_nodes ds (insert d.id idle m)

pub initial : Io → ℕ → WorkflowDefinition → WorkflowExecution
unfolding initial_nodes
initial io session_id w = record {
  schema_version = 1;
  id = io.uuid 0;
  session_id = session_id;
  version = 0;
  status = running;
  definition = w;
  nodes = initial_nodes w.nodes [];
  created_at = io.clock 0;
  updated_at = io.clock 0;
}

pub refreshed :
    Result OrchestrationError Unit × WorkflowExecution → Result OrchestrationError WorkflowExecution
refreshed (ok u, e) = ok e
refreshed (err x, e) = err x

-- `WorkflowExecution::new`.
unfoldable pub new : Io → ℕ → WorkflowDefinition → Result OrchestrationError WorkflowExecution
unfolding initial refresh_ready_nodes refreshed
new io session_id w = elim (validate w) [
  | ok _ ↦ refreshed (refresh_ready_nodes (initial io session_id w))
  | err x ↦ err x
]

-- Identifiers of the nodes that are ready, in the order of the map.
ready_in : Map WorkflowNodeExecution → List String
ready_in [] = []
ready_in ((id, n) ∷ m) = let rest = ready_in m in if is_ready n.status then id ∷ rest else rest

unfoldable pub ready_nodes : WorkflowExecution → List String
unfolding ready_in
ready_nodes e = ready_in e.nodes

-- The details of the events, which `Io` numbers from `k` on.
pub node_event : Io → ℕ → ℕ → String → String → Trace → Value → WorkflowExecution → EventEnvelope
node_event io k c event_type id trace details e =
    new_event (io.uuid k) (io.clock c) event_type (some e.session_id) trace (
      obj (
        field "workflow_id" (uuid e.id) (
          field "workflow_version" (num e.version)
            (field "node_id" (str id) (field "details" details end)))))

workflow_event : Io → ℕ → ℕ → String → Trace → Fields → WorkflowExecution → EventEnvelope
workflow_event io k c event_type trace rest e =
    new_event (io.uuid k) (io.clock c) event_type (some e.session_id) trace
      (obj (field "workflow_id" (uuid e.id) rest))

versioned : WorkflowExecution → Fields → Fields
versioned e rest = field "workflow_version" (num e.version) rest

pub attempts_of : String → WorkflowExecution → ℕ
attempts_of id e = elim (lookup id e.nodes) [ none ↦ 0 | some n ↦ n.attempts ]

abbrev not_in_state : String → String → OrchestrationError
not_in_state id what = invalid_transition (format "node '" id what)

pub started : Io → String → WorkflowNodeExecution → WorkflowNodeExecution
started io owner n = record n {
  status = running;
  attempts = saturating_suc u32_max n.attempts;
  owner_id = some owner;
  started_at = some (io.clock 0);
  completed_at = none;
  last_error = none;
}

unfoldable pub start_node : Io → ℕ → String → String → Trace → Method EventEnvelope
unfolding ensure_running node_state put_node advance_version started node_event attempts_of
start_node io expected id owner trace = do
  ensure_running expected
  n ← node_state id
  refuse_if (not (is_ready n.status)) (not_in_state id "' is not ready")
  modify (put_node id (started io owner n))
  modify (advance_version (io.clock 1))
  gets (λ e.
      node_event io 0 2 "workflow.node_started" id trace
        (obj (field "attempt" (num (attempts_of id e)) end)) e)

pub completed : Io → WorkflowNodeExecution → WorkflowNodeExecution
completed io n = record n { status = succeeded; completed_at = some (io.clock 0); owner_id = none }

-- `workflow.completed`, once every node is satisfied.
pub finish_if_complete : Bool → Io → Trace → List EventEnvelope → Method (List EventEnvelope)
unfolding set_status workflow_event versioned
finish_if_complete false io trace events e = (ok events, e)
finish_if_complete true io trace events e = (
  ok (events ++ workflow_event io 1 3 "workflow.completed" trace (versioned e end) e ∷ []),
  set_status succeeded e,
)

unfoldable pub complete_node : Io → ℕ → String → Trace → Method (List EventEnvelope)
unfolding ensure_running node_state put_node advance_version completed refresh_ready_nodes
    is_successfully_complete finish_if_complete node_event
complete_node io expected id trace = do
  ensure_running expected
  n ← node_state id
  refuse_if (not (is_running n.status)) (not_in_state id "' is not running")
  modify (put_node id (completed io n))
  modify (advance_version (io.clock 1))
  refresh_ready_nodes
  event ← gets (node_event io 0 2 "workflow.node_completed" id trace (obj end))
  done ← gets is_successfully_complete
  finish_if_complete done io trace (event ∷ [])

-- A node that fails is ready again while it has attempts left.
pub failed_once : Io → String → Bool → WorkflowNodeExecution → WorkflowNodeExecution
failed_once io error retry n = record n {
  last_error = some error;
  owner_id = none;
  completed_at = some (io.clock 0);
  status = if retry then ready else failed;
}

pub failure_details : ℕ → WorkflowNodeDefinition → String → Value
failure_details attempts d error = obj (
    field "attempt" (num attempts)
      (field "max_attempts" (num d.max_attempts) (field "error" (str error) end)))

-- The fallback of a node that has failed for good: it becomes ready if it was pending.
pub wake_fallback : WorkflowNodeExecution → WorkflowNodeExecution
wake_fallback n = if is_pending n.status then record n { status = ready } else n

pub activate_fallback : Io → String → Trace → Option String → Method (List EventEnvelope)
unfolding node_state put_node wake_fallback node_event
activate_fallback io id trace none = pure []
activate_fallback io id trace (some fallback) = do
  n ← node_state fallback
  modify (put_node fallback (wake_fallback n))
  gets (λ e.
      node_event io 1 3 "workflow.fallback_activated" fallback trace
        (obj (field "failed_node" (str id) end)) e
      ∷ [])

-- `workflow.failed`, if the node does not let the workflow go on and no other node can.
pub fail_if_stuck : Bool → Io → String → Trace → List EventEnvelope → Method (List EventEnvelope)
unfolding set_status workflow_event versioned
fail_if_stuck false io id trace events e = (ok events, e)
fail_if_stuck true io id trace events e = (
  ok (
      events
      ++ workflow_event io (length events) (2 + length events) "workflow.failed" trace
          (versioned e (field "failed_node" (str id) end)) e
        ∷ []),
  set_status failed e,
)

-- What follows a failure without retry.
pub give_up :
    Io → WorkflowNodeDefinition → String → Trace → List EventEnvelope → Method (List EventEnvelope)
unfolding activate_fallback refresh_ready_nodes has_recoverable_work fail_if_stuck
give_up io d id trace events = do
  woken ← activate_fallback io id trace d.fallback
  refresh_ready_nodes
  busy ← gets has_recoverable_work
  fail_if_stuck (not d.continue_on_failure && not busy) io id trace (events ++ woken)

pub after_failure :
    Bool
    → Io
    → WorkflowNodeDefinition
    → String
    → Trace
    → List EventEnvelope
    → Method (List EventEnvelope)
unfolding give_up
after_failure true io d id trace events = pure events
after_failure false io d id trace events = give_up io d id trace events

unfoldable pub fail_node : Io → ℕ → String → String → Trace → Method (List EventEnvelope)
unfolding ensure_running node_definition node_state put_node advance_version failed_once
    failure_details node_event attempts_of after_failure
fail_node io expected id error trace = do
  ensure_running expected
  d ← node_definition id
  n ← node_state id
  refuse_if (not (is_running n.status)) (not_in_state id "' is not running")
  let retry = ltb n.attempts d.max_attempts
  modify (put_node id (failed_once io error retry n))
  modify (advance_version (io.clock 1))
  event ← gets (λ e.
      node_event io 0 2 (if retry then "workflow.node_retry_scheduled" else "workflow.node_failed")
        id trace (failure_details (attempts_of id e) d error) e)
  after_failure retry io d id trace (event ∷ [])

pub decided : Io → Bool → WorkflowNodeExecution → WorkflowNodeExecution
decided io approved n = record n {
  status = if approved then succeeded else failed;
  completed_at = some (io.clock 0);
}

-- An approval may complete the workflow; a rejection fails it.
pub settle : Bool → Io → String → Trace → List EventEnvelope → Method (List EventEnvelope)
unfolding set_status workflow_event is_successfully_complete finish_if_complete
settle true io id trace events e = finish_if_complete (is_successfully_complete e) io trace events e
settle false io id trace events e = (
  ok (
      events
      ++ workflow_event io 1 3 "workflow.failed" trace (field "rejected_node" (str id) end) e ∷ []),
  set_status failed e,
)

pub decide_approval : Io → ℕ → String → Bool → Trace → Method (List EventEnvelope)
unfolding ensure_running node_definition node_state put_node advance_version decided
    refresh_ready_nodes node_event settle
decide_approval io expected id approved trace = do
  ensure_running expected
  d ← node_definition id
  refuse_if (not (is_approval d.kind)) (validation (format "node '" id "' is not an approval node"))
  n ← node_state id
  refuse_if (not (is_waiting n.status)) (not_in_state id "' is not waiting for approval")
  modify (put_node id (decided io approved n))
  modify (advance_version (io.clock 1))
  refresh_ready_nodes
  event ← gets (
      node_event io 0 2
        (if approved then "workflow.approval_granted" else "workflow.approval_rejected") id trace
        (obj (field "approved" (flag approved) end)))
  settle approved io id trace (event ∷ [])
