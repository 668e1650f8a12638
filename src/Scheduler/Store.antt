-- ===== src/Scheduler/Store.antt =====
-- crates/sessionweft-scheduler-sqlite/src/lib.rs: the scheduler's transactions over the tables
-- scheduler_plans, scheduler_claims, workflow_executions, agent_records and outbox. `claim_guard` is
-- held by the methods that claim and finish, so they run one after another. A row is its JSON.
-- `domain` turns the errors of workflows and agents to text; here they are kept.
pub mod Outcome
pub mod Consistent
pub mod Claimed
pub mod Finished
pub mod Recovery
pub mod Claims
use sessionweft.Common.{
  ℕ, ◌+◌, String, Bool, true, false, not, ◌&&◌, ◌||◌, Option, none, some, List, [], ◌∷◌, ◌++◌, any,
  ltb, ◌==◌, str_eq, if◌then◌else◌, Result, ok, err, Exec, pure, raise, gets, modify, refuse_if,
  or_raise, ◌>>=◌, ◌>>◌, Io, Trace, lookup, Fields, num, uuid, str, obj, field, end, EventEnvelope,
  new_event, find_by, replace_by,
}
use sessionweft.Agent.{AgentRecord, ExecutionError, assign_task, release_task, is_running, is_some}
use sessionweft.Agent
use sessionweft.Definition.{OrchestrationError}
use sessionweft.Workflow.{
  WorkflowExecution, start_node, complete_node, fail_node, ready_nodes, attempts_of,
}
use sessionweft.Workflow
use sessionweft.Scheduler.{
  SchedulerPlan, TaskClaim, TaskClaimStatus, active, completed, failed, released, matches,
  requirement_for, task_name, new_claim, complete, fail,
}

pub record Store : Type 0 where
  pub plans : List SchedulerPlan
  pub workflows : List WorkflowExecution
  pub agents : List AgentRecord
  pub claims : List TaskClaim
  pub outbox : List EventEnvelope

pub data RepositoryError : Type 0 where
  plan_not_found claim_not_found claim_not_active workflow_not_found agent_not_found :
      ℕ → RepositoryError
  session_mismatch agent_unavailable : RepositoryError
  conflict backend : String → RepositoryError
  workflow_refused : OrchestrationError → RepositoryError
  agent_refused : ExecutionError → RepositoryError

pub record ClaimRequest : Type 0 where
  pub workflow_id : ℕ
  pub agent_id : ℕ

pub record ClaimState : Type 0 where
  pub claim : TaskClaim
  pub workflow : WorkflowExecution
  pub agent : AgentRecord

abbrev pub Action : Type 0 → Type 0
Action A = Exec Store RepositoryError A

-- A transaction that is not committed is rolled back.
unfoldable pub transaction : {A : Type 0} → Action A → Action A
transaction m s = elim (m s).0 [ ok a ↦ m s | err e ↦ (err e, s) ]

-- The primary keys.
abbrev pub plan_key : SchedulerPlan → ℕ
plan_key p = p.workflow_id

abbrev pub workflow_key : WorkflowExecution → ℕ
workflow_key w = w.id

abbrev pub agent_key : AgentRecord → ℕ
agent_key a = a.id

abbrev pub claim_key : TaskClaim → ℕ
claim_key c = c.id

pub load_plan : ℕ → Action SchedulerPlan
load_plan id s = or_raise (plan_not_found id) (find_by plan_key id s.plans) s

pub load_workflow : ℕ → Action WorkflowExecution
load_workflow id s = or_raise (workflow_not_found id) (find_by workflow_key id s.workflows) s

pub load_agent : ℕ → Action AgentRecord
load_agent id s = or_raise (agent_not_found id) (find_by agent_key id s.agents) s

pub load_claim : ℕ → Action TaskClaim
load_claim id s = or_raise (claim_not_found id) (find_by claim_key id s.claims) s

abbrev pub is_active : TaskClaimStatus → Bool
is_active active = true
is_active _ = false

-- The unique index on the active claims, and the count that is taken before.
unfoldable pub active_claim_exists : ℕ → String → List TaskClaim → Bool
active_claim_exists workflow_id node_id cs =
    any
      (λ (c : TaskClaim).
        c.workflow_id == workflow_id && str_eq c.node_id node_id && is_active c.status)
      cs

abbrev i64_max : ℕ
i64_max = 9223372036854775807

-- UPDATE workflow_executions .. WHERE id = ? AND version = ?
pub save_workflow : ℕ → WorkflowExecution → Action Unit
save_workflow expected w s =
    if ltb i64_max w.version || ltb i64_max expected
    then (err (backend "out of range integral type conversion attempted"), s)
    else elim (find_by workflow_key w.id s.workflows) [
      | none ↦ (err (conflict "workflow changed while claiming task"), s)
      | some row ↦
          if row.version == expected
          then (ok tt, record s { workflows = replace_by workflow_key w.id w s.workflows })
          else (err (conflict "workflow changed while claiming task"), s)
    ]

-- UPDATE agent_records .. WHERE id = ? AND version = ?
pub save_agent : ℕ → AgentRecord → Action Unit
save_agent expected a s =
    if ltb i64_max a.version || ltb i64_max expected
    then (err (backend "out of range integral type conversion attempted"), s)
    else elim (find_by agent_key a.id s.agents) [
      | none ↦ (err (conflict "agent changed while claiming task"), s)
      | some row ↦
          if row.version == expected
          then (ok tt, record s { agents = replace_by agent_key a.id a s.agents })
          else (err (conflict "agent changed while claiming task"), s)
    ]

pub clashes : TaskClaim → List TaskClaim → Bool
clashes c = any λ (x : TaskClaim). x.id == c.id || str_eq x.idempotency_key c.idempotency_key

-- The primary key, the unique idempotency key and the unique index on active claims.
pub insert_claim : TaskClaim → Action Unit
unfolding clashes active_claim_exists
insert_claim c s =
    if clashes c s.claims
      || (is_active c.status && active_claim_exists c.workflow_id c.node_id s.claims)
    then (err (backend "UNIQUE constraint failed: scheduler_claims"), s)
    else (ok tt, record s { claims = s.claims ++ c ∷ [] })

-- UPDATE scheduler_claims .. WHERE claim_id = ?
pub save_claim : TaskClaim → Store → Store
save_claim c s = record s { claims = replace_by claim_key c.id c s.claims }

-- `event_id` is the primary key of the outbox.
pub insert_events : List EventEnvelope → Action Unit
insert_events [] s = (ok tt, s)
insert_events (e ∷ es) s =
    let rest = insert_events es (record s { outbox = s.outbox ++ e ∷ [] }) in
    if any (λ (x : EventEnvelope). x.event_id == e.event_id) s.outbox
    then (err (backend "UNIQUE constraint failed: outbox.event_id"), s)
    else rest

-- What an operation reads after `n` readings; a number may stay unused.
abbrev pub later : ℕ → Io → Io
later n io = record { clock = λ k. io.clock (n + k); uuid = λ k. io.uuid (n + k) }

-- A method on the copy that was loaded, and the copy that it leaves.
abbrev pub on_workflow :
    {A : Type 0} → Workflow.Method A → WorkflowExecution → Action (A × WorkflowExecution)
on_workflow m w s = elim (m w).0 [
  | ok a ↦ (ok (a, (m w).1), s)
  | err e ↦ (err (workflow_refused e), s)
]

abbrev pub on_agent : {A : Type 0} → Agent.Method A → AgentRecord → Action (A × AgentRecord)
on_agent m a s = elim (m a).0 [ ok x ↦ (ok (x, (m a).1), s) | err e ↦ (err (agent_refused e), s) ]

pub claim_event : Io → Trace → String → Fields → TaskClaim → EventEnvelope
claim_event io trace event_type details c =
    new_event (io.uuid 0) (io.clock 0) event_type (some c.session_id) trace (
      obj (
        field "claim_id" (uuid c.id)
          (field "workflow_id" (uuid c.workflow_id) (field "node_id" (str c.node_id) details))))

claimed_details : TaskClaim → Fields
claimed_details c = field "attempt" (num c.attempt) (
    field "agent_id" (uuid c.agent_id)
      (field "task_id" (str c.task_id) (field "idempotency_key" (str c.idempotency_key) end)))

finished_details : TaskClaim → Fields
finished_details c =
    field "agent_id" (uuid c.agent_id) (field "idempotency_key" (str c.idempotency_key) end)

-- The first ready node, in the order of the map, without an active claim and for this agent.
pub select : SchedulerPlan → AgentRecord → ℕ → List TaskClaim → List String → Option String
unfolding active_claim_exists matches requirement_for
select p a workflow_id cs [] = none
select p a workflow_id cs (id ∷ ids) =
    let rest = select p a workflow_id cs ids in
    if active_claim_exists workflow_id id cs
    then rest
    else if matches (requirement_for p id) a
    then some id
    else rest

pub claimed_events : Io → Trace → EventEnvelope → EventEnvelope → TaskClaim → List EventEnvelope
unfolding claim_event claimed_details
claimed_events io trace workflow_event agent_event c =
    workflow_event
    ∷ agent_event
    ∷ claim_event io trace "scheduler.task_claimed" (claimed_details c) c
    ∷ []

-- The writes at the end of `claim_next`.
pub store_claim :
    ℕ → WorkflowExecution → ℕ → AgentRecord → TaskClaim → List EventEnvelope → Action Unit
unfolding save_workflow save_agent insert_claim insert_events
store_claim v w u a c events = do
  save_workflow v w
  save_agent u a
  insert_claim c
  insert_events events

-- The writes at the end of `finish_claim`.
pub store_finish :
    ℕ → WorkflowExecution → ℕ → AgentRecord → TaskClaim → List EventEnvelope → Action Unit
unfolding save_workflow save_agent save_claim insert_events
store_finish v w u a c events = do
  save_workflow v w
  save_agent u a
  modify (save_claim c)
  insert_events events

module _ (show_id : ℕ → String) where
  -- What is left of `claim_next` once a node is selected.
  pub claim_node :
      Io → Trace → WorkflowExecution → AgentRecord → String → Action (Option ClaimState)
  unfolding store_claim claimed_events task_name new_claim
  claim_node io trace w a node = do
    (workflow_event, w') ← on_workflow (start_node io w.version node (show_id a.id) trace) w
    let attempt = attempts_of node w'
    (agent_event, a') ←
        on_agent (assign_task (later 3 io) a.version (task_name show_id w'.id node attempt) trace) a
    let claim = new_claim show_id (later 5 io) w' node attempt a'
    store_claim w.version w' a.version a' claim
        (claimed_events (later 6 io) trace workflow_event agent_event claim)
    pure (some (record { claim = claim; workflow = w'; agent = a' }))

  pub proceed :
      Io → Trace → WorkflowExecution → AgentRecord → Option String → Action (Option ClaimState)
  unfolding claim_node
  proceed io trace w a none = pure none
  proceed io trace w a (some node) = claim_node io trace w a node

  pub claim_steps : Io → Trace → ClaimRequest → Action (Option ClaimState)
  unfolding load_plan load_workflow load_agent select proceed ready_nodes
  claim_steps io trace r = do
    p ← load_plan r.workflow_id
    w ← load_workflow r.workflow_id
    a ← load_agent r.agent_id
    refuse_if (not (w.session_id == a.session_id) || not (p.session_id == w.session_id))
        session_mismatch
    refuse_if (not (is_running a.status) || is_some a.current_task_id) agent_unavailable
    chosen ← gets (λ s. select p a w.id s.claims (ready_nodes w))
    proceed io trace w a chosen

  unfoldable pub claim_next : Io → Trace → ClaimRequest → Action (Option ClaimState)
  unfolding transaction claim_steps
  claim_next io trace r = transaction (claim_steps io trace r)

-- How a claim is finished: by success, or by failure with its text.
abbrev pub Finish : Type 0
Finish = Option String

abbrev pub is_settled_as : Finish → TaskClaimStatus → Bool
is_settled_as none completed = true
is_settled_as (some error) failed = true
is_settled_as _ _ = false

pub current_state : TaskClaim → Action ClaimState
unfolding load_workflow load_agent
current_state c = do
  w ← load_workflow c.workflow_id
  a ← load_agent c.agent_id
  pure (record { claim = c; workflow = w; agent = a })

pub finish_node :
    Io → Trace → Finish → TaskClaim → WorkflowExecution → Workflow.Method (List EventEnvelope)
finish_node io trace none c w = complete_node io w.version c.node_id trace
finish_node io trace (some error) c w = fail_node io w.version c.node_id error trace

pub settle_claim : Finish → ℕ → ℕ → ℕ → TaskClaim → TaskClaim
unfolding complete fail
settle_claim none = complete
settle_claim (some error) = fail

finish_type : Finish → String
finish_type none = "scheduler.claim_completed"
finish_type (some error) = "scheduler.claim_failed"

pub finished_events :
    Io → Trace → Finish → List EventEnvelope → EventEnvelope → TaskClaim → List EventEnvelope
unfolding claim_event finished_details finish_type
finished_events io trace how events released_event c =
    events ++ released_event ∷ claim_event io trace (finish_type how) (finished_details c) c ∷ []

pub owns : AgentRecord → String → Bool
owns a task = elim a.current_task_id [ none ↦ false | some t ↦ str_eq t task ]

-- What is left of `finish_claim` for an active claim.
pub finish_active : Io → Trace → Finish → TaskClaim → Action ClaimState
unfolding load_workflow load_agent owns finish_node settle_claim store_finish finished_events
finish_active io trace how c = do
  w ← load_workflow c.workflow_id
  a ← load_agent c.agent_id
  refuse_if (not (owns a c.task_id))
      (conflict "agent task ownership does not match scheduler claim")
  (events, w') ← on_workflow (finish_node io trace how c w) w
  (released_event, a') ← on_agent (release_task (later 5 io) a.version trace) a
  let c' = settle_claim how w'.version a'.version (io.clock 7) c
  store_finish w.version w' a.version a' c'
      (finished_events (later 8 io) trace how events released_event c')
  pure (record { claim = c'; workflow = w'; agent = a' })

pub finish_loaded : Io → Trace → Finish → TaskClaim → Action ClaimState
unfolding current_state finish_active
finish_loaded io trace how c s =
    if is_settled_as how c.status
    then current_state c s
    else if is_active c.status
    then finish_active io trace how c s
    else (err (claim_not_active c.id), s)

-- `finish_claim`, which `complete_claim` and `fail_claim` call.
unfoldable pub finish_claim : Io → Trace → Finish → ℕ → Action ClaimState
unfolding transaction load_claim finish_loaded
finish_claim io trace how id = transaction (load_claim id >>= finish_loaded io trace how)

-- INSERT INTO scheduler_plans .. ON CONFLICT(workflow_id) DO UPDATE SET .. data_json = excluded.data_json
pub put_plan : SchedulerPlan → Store → Store
put_plan p s = elim (find_by plan_key p.workflow_id s.plans) [
  | none ↦ record s { plans = s.plans ++ p ∷ [] }
  | some old ↦ record s { plans = replace_by plan_key p.workflow_id p s.plans }
]

unfoldable pub register_plan : SchedulerPlan → Action SchedulerPlan
unfolding transaction load_workflow put_plan
register_plan p = transaction (do
  w ← load_workflow p.workflow_id
  refuse_if (not (w.session_id == p.session_id)) session_mismatch
  modify (put_plan p)
  pure p)
