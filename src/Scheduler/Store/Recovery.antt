-- ===== src/Scheduler/Store/Recovery.antt =====
-- The claims of stale agents: crates/sessionweft-scheduler-sqlite/src/recovery.rs,
-- `recover_stale_claim`, which holds `claim_guard`.
use sessionweft.Common.{
  ℕ, String, ◌≡◌, refl, ◌∙◌, true, not, ◌&&◌, ◌⊎◌, inl, inr, Option, none, some, List, [], ◌∷◌,
  ◌++◌, arith, is_ok, Result-cases, Option-cases, Bool-cases, Io, Trace, Fields, num, uuid, str,
  obj, field, end, EventEnvelope, new_event, find_by, find_by-key, find_by_own, lookup, pure,
  refuse_if, or_raise, ◌>>=◌, ◌>>◌, u32_max, saturating_suc, if◌then◌else◌,
}
use sessionweft.Agent.{AgentRecord, is_stale_at}
use sessionweft.Agent.Tasks.{fail-id}
use sessionweft.Agent
use sessionweft.Workflow.{
  WorkflowExecution, WorkflowNodeExecution, WorkflowNodeStatus, pending, ready, running,
  waiting_approval, succeeded, failed, skipped, is_ready, attempts_of, fail_node,
}
use sessionweft.Workflow.Others.{fail_node-id}
use sessionweft.Scheduler.{TaskClaim, released}
use sessionweft.Scheduler.Store.{
  Store, Action, ClaimState, conflict, transaction, workflow_key, agent_key, claim_key,
  load_workflow, load_agent, load_claim, is_active, claim_event, on_workflow, on_agent, owns, later,
  store_finish, finish_node,
}
use sessionweft.Scheduler.Store.Outcome.{Finished, store_finish-Stored}

node_status_text : WorkflowNodeStatus → String
node_status_text pending = "pending"
node_status_text ready = "ready"
node_status_text running = "running"
node_status_text waiting_approval = "waiting_approval"
node_status_text succeeded = "succeeded"
node_status_text failed = "failed"
node_status_text skipped = "skipped"

abbrev pub reason : String
reason = "agent heartbeat expired while owning scheduler claim"

pub release : ℕ → ℕ → ℕ → TaskClaim → TaskClaim
release workflow_version agent_version now c = record c {
  status = released;
  workflow_version = workflow_version;
  agent_version = agent_version;
  updated_at = now;
}

released_details : WorkflowNodeStatus → TaskClaim → Fields
unfolding node_status_text
released_details status c = field "stale_agent_id" (uuid c.agent_id) (
    field "idempotency_key" (str c.idempotency_key) (
      field "reason" (str "stale_agent") (field "node_status" (str (node_status_text status)) end)))

handover_event : Io → Trace → WorkflowExecution → TaskClaim → EventEnvelope
handover_event io trace w c =
    new_event (io.uuid 0) (io.clock 0) "scheduler.handover_required" (some c.session_id) trace (
      obj (
        field "workflow_id" (uuid c.workflow_id) (
          field "node_id" (str c.node_id) (
            field "previous_claim_id" (uuid c.id) (
              field "previous_agent_id" (uuid c.agent_id) (
                field "next_attempt" (num (saturating_suc u32_max (attempts_of c.node_id w)))
                  end))))))

-- A node that is ready again waits for another agent.
released_events :
    Io
    → Trace
    → List EventEnvelope
    → EventEnvelope
    → WorkflowExecution
    → WorkflowNodeExecution
    → TaskClaim
    → List EventEnvelope
unfolding claim_event released_details handover_event
released_events io trace events agent_event w n c =
    events
    ++ agent_event
      ∷ claim_event io trace "scheduler.claim_released" (released_details n.status c) c
      ∷ (if is_ready n.status then handover_event (later 1 io) trace w c ∷ [] else [])

-- What is left for an active claim whose agent is stale and owns its task.
recover_owned : Io → Trace → ℕ → TaskClaim → AgentRecord → Action (Option ClaimState)
unfolding load_workflow release released_events store_finish
recover_owned io trace now c a = do
  w ← load_workflow c.workflow_id
  (events, w') ← on_workflow (fail_node io w.version c.node_id reason trace) w
  (agent_event, a') ← on_agent (Agent.fail (later 5 io) a.version reason trace) a
  let c' = release w'.version a'.version now c
  n ← or_raise (conflict "claimed workflow node is missing") (lookup c.node_id w'.nodes)
  store_finish w.version w' a.version a' c'
      (released_events (later 8 io) trace events agent_event w' n c')
  pure (some (record { claim = c'; workflow = w'; agent = a' }))

recover_active : Io → Trace → ℕ → TaskClaim → Action (Option ClaimState)
unfolding load_agent is_stale_at owns recover_owned
recover_active io trace now c = do
  a ← load_agent c.agent_id
  (if is_stale_at a now
      then (do
        refuse_if (not (owns a c.task_id))
            (conflict "stale agent task ownership does not match scheduler claim")
        recover_owned io trace now c a)
      else pure none)

recover_loaded : Io → Trace → ℕ → TaskClaim → Action (Option ClaimState)
unfolding recover_active
recover_loaded io trace now c =
    if is_active c.status then recover_active io trace now c else pure none

unfoldable pub recover_stale_claim : Io → Trace → ℕ → ℕ → Action (Option ClaimState)
unfolding transaction load_claim recover_loaded
recover_stale_claim io trace id now = transaction (load_claim id >>= recover_loaded io trace now)

-- The claim is released as it is finished by a failure: its node fails once, its agent is no longer
-- running, and the claim is no longer active.
recover_owned-Finished :
    (io : Io) (trace : Trace) (now : ℕ) (c : TaskClaim) (a : AgentRecord) (s : Store)
    → find_by claim_key c.id s.claims ≡ some c
    → is_active c.status ≡ true
    → find_by agent_key c.agent_id s.agents ≡ some a
    → is_ok (recover_owned io trace now c a s).0 ≡ true
    → (c' : TaskClaim) × Finished s (recover_owned io trace now c a s).1 (some reason) c c'
unfolding recover_owned load_workflow release finish_node
recover_owned-Finished io trace now c a s at live l h =
    elim (Option-cases (find_by workflow_key c.workflow_id s.workflows)) [
      | inl k ↦ absurd (ground arith)
      | inr (w, k) ↦ elim (Result-cases (fail_node io w.version c.node_id reason trace w).0) [
        | inr (x, e) ↦ absurd (ground arith)
        | inl (x, e) ↦
            let w' : WorkflowExecution = (fail_node io w.version c.node_id reason trace w).1 in
            elim (Result-cases (Agent.fail (later 5 io) a.version reason trace a).0) [
              | inr (y, f) ↦ absurd (ground arith)
              | inl (y, f) ↦ elim (Option-cases (lookup c.node_id w'.nodes)) [
                | inl missing ↦ absurd (ground arith)
                | inr (n, held) ↦
                    let a' : AgentRecord = (Agent.fail (later 5 io) a.version reason trace a).1 in
                    let c' : TaskClaim = release w'.version a'.version now c in
                    let events : List EventEnvelope =
                      released_events (later 8 io) trace x y w' n c' in
                    let same : (recover_owned io trace now c a s).1
                        ≡ (store_finish w.version w' a.version a' c' events s).1 =
                      ground arith in
                    let stored =
                      store_finish-Stored w.version a.version w' a' c' events s (ground arith) in
                    (
                      c',
                      record {
                        w = w;
                        w' = w';
                        a = a;
                        a' = a';
                        io = io;
                        trace = trace;
                        found = at;
                        live = live;
                        found_w = k;
                        found_a = l;
                        ended = refl;
                        workflow_id =
                            fail_node-id io w.version c.node_id reason trace w
                            ∙ find_by-key workflow_key c.workflow_id w s.workflows k;
                        agent_id =
                            fail-id (later 5 io) a.version reason trace a
                            ∙ find_by-key agent_key c.agent_id a s.agents l;
                        claim_id = refl;
                        closed = refl;
                        stored = rw same stored;
                      },
                    )
              ]
            ]
      ]
    ]

pub recover_outcome :
    (io : Io) (trace : Trace) (id now : ℕ) (s : Store)
    → ((recover_stale_claim io trace id now s).1 ≡ s)
      ⊎ ((c : TaskClaim) × (c' : TaskClaim) × Finished s
            (recover_stale_claim io trace id now s).1
            (some reason)
            c
            c')
unfolding recover_stale_claim transaction load_claim recover_loaded recover_active load_agent
recover_outcome io trace id now s = elim (Option-cases (find_by claim_key id s.claims)) [
  | inl k ↦ inl (ground arith)
  | inr (c, k) ↦
      let at : find_by claim_key c.id s.claims ≡ some c = find_by_own claim_key id c s.claims k in
      elim (Option-cases (find_by agent_key c.agent_id s.agents)) [
        | inl l ↦ inl (ground arith)
        | inr (a, l) ↦
            elim (Bool-cases (
              is_active c.status
              && is_stale_at a now
              && owns a c.task_id
              && is_ok (recover_owned io trace now c a s).0)) [
                | inr stayed ↦ inl (ground arith)
                | inl went ↦
                    let (c', done) =
                      recover_owned-Finished io trace now c a s at (ground arith) l
                        (ground arith) in
                    let same : (recover_stale_claim io trace id now s).1
                        ≡ (recover_owned io trace now c a s).1 =
                      ground arith in
                    inr (c, c', rw same done)
              ]
      ]
]
