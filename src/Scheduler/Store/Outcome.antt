-- ===== src/Scheduler/Store/Outcome.antt =====
-- How a transaction of the scheduler ends: crates/sessionweft-scheduler-sqlite/src/lib.rs.
use sessionweft.Common.{
  ℕ, String, ◌≡◌, refl, ◌∙◌, true, false, ◌⊎◌, inl, inr, none, some, List, [], ◌∷◌, ◌++◌, any,
  arith, is_ok, Result-cases, Option-cases, Bool-cases, Io, Trace, EventEnvelope, find_by,
  replace_by, find_by-key, find_by_own, ◌&&◌,
}
use sessionweft.Agent.{AgentRecord, assign_task, release_task}
use sessionweft.Agent.Tasks.{
  IsAssigned, assign_task-IsAssigned, IsReleased, release_task-IsReleased,
}
use sessionweft.Workflow.{WorkflowExecution, start_node, ready_nodes, attempts_of}
use sessionweft.Workflow.Others.{IsStarted, start_node-IsStarted, complete_node-id, fail_node-id}
use sessionweft.Scheduler.{TaskClaim, new_claim, task_name, complete, fail}
use sessionweft.Scheduler.Store.{
  Store, ClaimRequest, transaction, plan_key, workflow_key, agent_key, claim_key, load_plan,
  load_workflow, load_agent, load_claim, is_active, save_workflow, save_agent, insert_claim,
  save_claim, insert_events, store_claim, store_finish, claimed_events, finished_events, later,
  select, claim_node, proceed, claim_steps, claim_next, Finish, is_settled_as, finish_node,
  settle_claim, finish_active, finish_loaded, finish_claim, current_state, clashes,
}

-- Events go to the outbox only.
insert_events-tables :
    (es : List EventEnvelope) (s : Store)
    → ((insert_events es s).1.workflows ≡ s.workflows)
      × ((insert_events es s).1.agents ≡ s.agents)
      × ((insert_events es s).1.claims ≡ s.claims)
unfolding insert_events
insert_events-tables [] s = (refl, refl, refl)
insert_events-tables (e ∷ es) s =
    let rest = insert_events-tables es (record s { outbox = s.outbox ++ e ∷ [] }) in
    ground (arith, rest)

clashes-find :
    (c : TaskClaim) (cs : List TaskClaim) → clashes c cs ≡ false → find_by claim_key c.id cs ≡ none
unfolding clashes any find_by
clashes-find c [] h = refl
clashes-find c (x ∷ xs) h = let rest = clashes-find c xs in ground arith

pub record Stored (s s' : Store) (w : WorkflowExecution) (a : AgentRecord) (claims : List TaskClaim)
    : Type 0 where
  pub workflows : s'.workflows ≡ replace_by workflow_key w.id w s.workflows
  pub agents : s'.agents ≡ replace_by agent_key a.id a s.agents
  pub rows : s'.claims ≡ claims

store_claim-Stored :
    (v u : ℕ) (w : WorkflowExecution) (a : AgentRecord) (c : TaskClaim)
    (events : List EventEnvelope) (s : Store)
    → is_ok (store_claim v w u a c events s).0 ≡ true
    → Stored s (store_claim v w u a c events s).1 w a (s.claims ++ c ∷ [])
      × (find_by claim_key c.id s.claims ≡ none)
unfolding store_claim save_workflow save_agent insert_claim
store_claim-Stored v u w a c events s h =
    let t : Store = record s {
      workflows = replace_by workflow_key w.id w s.workflows;
      agents = replace_by agent_key a.id a s.agents;
      claims = s.claims ++ c ∷ [];
    } in
    let out = insert_events-tables events t in
    let new = clashes-find c s.claims in
    elim (Option-cases (find_by workflow_key w.id s.workflows)) [
      | inl p ↦ absurd (ground arith)
      | inr (x, p) ↦ elim (Option-cases (find_by agent_key a.id s.agents)) [
        | inl q ↦ absurd (ground arith)
        | inr (y, q) ↦ (
          record {
            workflows = ground (arith, out);
            agents = ground (arith, out);
            rows = ground (arith, out);
          },
          ground (arith, new),
        )
      ]
    ]

pub store_finish-Stored :
    (v u : ℕ) (w : WorkflowExecution) (a : AgentRecord) (c : TaskClaim)
    (events : List EventEnvelope) (s : Store)
    → is_ok (store_finish v w u a c events s).0 ≡ true
    → Stored s (store_finish v w u a c events s).1 w a (replace_by claim_key c.id c s.claims)
unfolding store_finish save_workflow save_agent save_claim
store_finish-Stored v u w a c events s h =
    let t : Store = record s {
      workflows = replace_by workflow_key w.id w s.workflows;
      agents = replace_by agent_key a.id a s.agents;
      claims = replace_by claim_key c.id c s.claims;
    } in
    let out = insert_events-tables events t in
    elim (Option-cases (find_by workflow_key w.id s.workflows)) [
      | inl p ↦ absurd (ground arith)
      | inr (x, p) ↦ elim (Option-cases (find_by agent_key a.id s.agents)) [
        | inl q ↦ absurd (ground arith)
        | inr (y, q) ↦ record {
          workflows = ground (arith, out);
          agents = ground (arith, out);
          rows = ground (arith, out);
        }
      ]
    ]

-- A task is claimed: its node is started, its agent gets the task, and the claim is stored with both.
pub record Claimed (s s' : Store) (c : TaskClaim) : Type 0 where
  pub w : WorkflowExecution
  pub w' : WorkflowExecution
  pub a : AgentRecord
  pub a' : AgentRecord
  pub found_w : find_by workflow_key c.workflow_id s.workflows ≡ some w
  pub found_a : find_by agent_key c.agent_id s.agents ≡ some a
  pub started : IsStarted w w' c.node_id
  pub assigned : IsAssigned a a' c.task_id
  pub attempt : c.attempt ≡ attempts_of c.node_id w'
  pub live : is_active c.status ≡ true
  pub workflow_id : w'.id ≡ c.workflow_id
  pub agent_id : a'.id ≡ c.agent_id
  pub new : find_by claim_key c.id s.claims ≡ none
  pub stored : Stored s s' w' a' (s.claims ++ c ∷ [])

module _ (show_id : ℕ → String) where
  claim_node-Claimed :
      (io : Io) (trace : Trace) (w : WorkflowExecution) (a : AgentRecord) (node : String)
      (s : Store)
      → find_by workflow_key w.id s.workflows ≡ some w
      → find_by agent_key a.id s.agents ≡ some a
      → is_ok (claim_node show_id io trace w a node s).0 ≡ true
      → (c : TaskClaim) × Claimed s (claim_node show_id io trace w a node s).1 c
  unfolding claim_node new_claim
  claim_node-Claimed io trace w a node s at_w at_a h =
      elim (Result-cases (start_node io w.version node (show_id a.id) trace w).0) [
        | inr (x, e) ↦ absurd (ground arith)
        | inl (x, e) ↦
            let w' : WorkflowExecution = (start_node io w.version node (show_id a.id) trace w).1 in
            let task : String = task_name show_id w'.id node (attempts_of node w') in
            let started : IsStarted w w' node =
              start_node-IsStarted io w.version node (show_id a.id) trace w (ground arith) in
            elim (Result-cases (assign_task (later 3 io) a.version task trace a).0) [
              | inr (y, f) ↦ absurd (ground arith)
              | inl (y, f) ↦
                  let a' : AgentRecord = (assign_task (later 3 io) a.version task trace a).1 in
                  let c : TaskClaim =
                    new_claim show_id (later 5 io) w' node (attempts_of node w') a' in
                  let assigned : IsAssigned a a' task =
                    assign_task-IsAssigned (later 3 io) a.version task trace a (ground arith) in
                  let events : List EventEnvelope = claimed_events (later 6 io) trace x y c in
                  let same : (claim_node show_id io trace w a node s).1
                      ≡ (store_claim w.version w' a.version a' c events s).1 =
                    ground arith in
                  let (stored, new) =
                    store_claim-Stored w.version a.version w' a' c events s (ground arith) in
                  (
                    c,
                    record {
                      w = w;
                      w' = w';
                      a = a;
                      a' = a';
                      found_w = rw started.kept at_w;
                      found_a = rw assigned.kept at_a;
                      started = started;
                      assigned = assigned;
                      attempt = refl;
                      live = refl;
                      workflow_id = refl;
                      agent_id = refl;
                      new = new;
                      stored = rw same stored;
                    },
                  )
            ]
      ]

  pub claim_outcome :
      (io : Io) (trace : Trace) (r : ClaimRequest) (s : Store)
      → ((claim_next show_id io trace r s).1 ≡ s)
        ⊎ ((c : TaskClaim) × Claimed s (claim_next show_id io trace r s).1 c)
  unfolding claim_next transaction claim_steps load_plan load_workflow load_agent proceed
  claim_outcome io trace r s = elim (Option-cases (find_by plan_key r.workflow_id s.plans)) [
    | inl h ↦ inl (ground arith)
    | inr (p, h) ↦ elim (Option-cases (find_by workflow_key r.workflow_id s.workflows)) [
      | inl k ↦ inl (ground arith)
      | inr (w, k) ↦ elim (Option-cases (find_by agent_key r.agent_id s.agents)) [
        | inl l ↦ inl (ground arith)
        | inr (a, l) ↦ elim (Option-cases (select p a w.id s.claims (ready_nodes w))) [
          | inl q ↦ inl (ground arith)
          | inr (node, q) ↦ elim (Bool-cases (is_ok (claim_node show_id io trace w a node s).0)) [
            | inr o ↦ inl (ground arith)
            | inl o ↦
                let at_w : find_by workflow_key w.id s.workflows ≡ some w =
                  find_by_own workflow_key r.workflow_id w s.workflows k in
                let at_a : find_by agent_key a.id s.agents ≡ some a =
                  find_by_own agent_key r.agent_id a s.agents l in
                let (c, done) = claim_node-Claimed io trace w a node s at_w at_a o in
                elim (Bool-cases (is_ok (claim_steps show_id io trace r s).0)) [
                  | inr stayed ↦ inl (ground arith)
                  | inl went ↦
                      let same : (claim_next show_id io trace r s).1
                          ≡ (claim_node show_id io trace w a node s).1 =
                        ground arith in
                      inr (c, rw same done)
                ]
          ]
        ]
      ]
    ]
  ]

-- A claim is finished: its node ends, its agent is free, and the claim is no longer active.
pub record Finished (s s' : Store) (how : Finish) (c c' : TaskClaim) : Type 0 where
  pub w : WorkflowExecution
  pub w' : WorkflowExecution
  pub a : AgentRecord
  pub a' : AgentRecord
  pub io : Io
  pub trace : Trace
  pub found : find_by claim_key c.id s.claims ≡ some c
  pub live : is_active c.status ≡ true
  pub found_w : find_by workflow_key c.workflow_id s.workflows ≡ some w
  pub found_a : find_by agent_key c.agent_id s.agents ≡ some a
  pub ended : w' ≡ (finish_node io trace how c w w).1
  pub workflow_id : w'.id ≡ c.workflow_id
  pub agent_id : a'.id ≡ c.agent_id
  pub claim_id : c'.id ≡ c.id
  pub closed : is_active c'.status ≡ false
  pub stored : Stored s s' w' a' (replace_by claim_key c'.id c' s.claims)

finish_node-id :
    (io : Io) (trace : Trace) (how : Finish) (c : TaskClaim) (v w : WorkflowExecution)
    → (finish_node io trace how c v w).1.id ≡ w.id
unfolding finish_node
finish_node-id io trace none c v w = complete_node-id io v.version c.node_id trace w
finish_node-id io trace (some error) c v w = fail_node-id io v.version c.node_id error trace w

settle_claim-closed :
    (how : Finish) (v u now : ℕ) (c : TaskClaim)
    → (is_active (settle_claim how v u now c).status ≡ false)
      × ((settle_claim how v u now c).id ≡ c.id)
unfolding settle_claim complete fail
settle_claim-closed none v u now c = (refl, refl)
settle_claim-closed (some error) v u now c = (refl, refl)

finish_active-Finished :
    (io : Io) (trace : Trace) (how : Finish) (c : TaskClaim) (s : Store)
    → find_by claim_key c.id s.claims ≡ some c
    → is_active c.status ≡ true
    → is_ok (finish_active io trace how c s).0 ≡ true
    → (c' : TaskClaim) × Finished s (finish_active io trace how c s).1 how c c'
unfolding finish_active load_workflow load_agent
finish_active-Finished io trace how c s at live h =
    elim (Option-cases (find_by workflow_key c.workflow_id s.workflows)) [
      | inl k ↦ absurd (ground arith)
      | inr (w, k) ↦ elim (Option-cases (find_by agent_key c.agent_id s.agents)) [
        | inl l ↦ absurd (ground arith)
        | inr (a, l) ↦ elim (Result-cases (finish_node io trace how c w w).0) [
          | inr (x, e) ↦ absurd (ground arith)
          | inl (x, e) ↦ elim (Result-cases (release_task (later 5 io) a.version trace a).0) [
            | inr (y, f) ↦ absurd (ground arith)
            | inl (y, f) ↦
                let w' : WorkflowExecution = (finish_node io trace how c w w).1 in
                let a' : AgentRecord = (release_task (later 5 io) a.version trace a).1 in
                let c' : TaskClaim = settle_claim how w'.version a'.version (io.clock 7) c in
                let events : List EventEnvelope = finished_events (later 8 io) trace how x y c' in
                let released : IsReleased a a' =
                  release_task-IsReleased (later 5 io) a.version trace a (ground arith) in
                let closed = settle_claim-closed how w'.version a'.version (io.clock 7) c in
                let same : (finish_active io trace how c s).1
                    ≡ (store_finish w.version w' a.version a' c' events s).1 =
                  ground arith in
                let stored =
                  store_finish-Stored w.version a.version w' a' c' events s (ground arith) in
                (
                  c',
                  record {
                    w = w;
                    w' = w';
                    a = a;
                    a' = a';
                    io = io;
                    trace = trace;
                    found = at;
                    live = live;
                    found_w = k;
                    found_a = l;
                    ended = refl;
                    workflow_id =
                        finish_node-id io trace how c w w
                        ∙ find_by-key workflow_key c.workflow_id w s.workflows k;
                    agent_id = released.kept ∙ find_by-key agent_key c.agent_id a s.agents l;
                    claim_id = closed.1;
                    closed = closed.0;
                    stored = rw same stored;
                  },
                )
          ]
        ]
      ]
    ]

current_state-same : (c : TaskClaim) (s : Store) → (current_state c s).1 ≡ s
unfolding current_state load_workflow load_agent
current_state-same c s = elim (Option-cases (find_by workflow_key c.workflow_id s.workflows)) [
  | inl k ↦ ground arith
  | inr (w, k) ↦ elim (Option-cases (find_by agent_key c.agent_id s.agents)) [
    | inl l ↦ ground arith
    | inr (a, l) ↦ ground arith
  ]
]

pub finish_outcome :
    (io : Io) (trace : Trace) (how : Finish) (id : ℕ) (s : Store)
    → ((finish_claim io trace how id s).1 ≡ s)
      ⊎ ((c : TaskClaim) × (c' : TaskClaim) × Finished s
            (finish_claim io trace how id s).1
            how
            c
            c')
unfolding finish_claim transaction load_claim finish_loaded
finish_outcome io trace how id s = elim (Option-cases (find_by claim_key id s.claims)) [
  | inl k ↦ inl (ground arith)
  | inr (c, k) ↦
      let at : find_by claim_key c.id s.claims ≡ some c = find_by_own claim_key id c s.claims k in
      elim (Bool-cases (is_settled_as how c.status)) [
        | inl done ↦ inl (ground (arith, current_state-same c s))
        | inr open_yet ↦
            elim (Bool-cases (is_active c.status && is_ok (finish_active io trace how c s).0)) [
              | inr stayed ↦ inl (ground arith)
              | inl went ↦
                  let (c', done) =
                    finish_active-Finished io trace how c s at (ground arith) (ground arith) in
                  let same : (finish_claim io trace how id s).1
                      ≡ (finish_active io trace how c s).1 =
                    ground arith in
                  inr (c, c', rw same done)
            ]
      ]
]
