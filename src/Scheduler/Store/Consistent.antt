-- ===== src/Scheduler/Store/Consistent.antt =====
-- Claims, agents and nodes agree: crates/sessionweft-scheduler-sqlite/src/lib.rs.
use sessionweft.Common.{
  ℕ, ◌≡◌, refl, sym, ◌∙◌, subst, true, inl, inr, some, List, arith, Bool-cases, find_by,
  find_by-replace_by, ◌==◌, trim, lookup, if◌then◌else◌,
}
use sessionweft.Agent.{AgentRecord}
use sessionweft.Workflow.{WorkflowExecution, WorkflowNodeExecution, running}
use sessionweft.Scheduler.{TaskClaim}
use sessionweft.Scheduler.Store.{Store, workflow_key, agent_key, claim_key, is_active}
use sessionweft.Scheduler.Store.Outcome.{Stored}

-- An active claim: its agent runs and owns the claim's task, and its node runs, at the claim's attempt.
pub record IsHeld (s : Store) (c : TaskClaim) : Type 0 where
  pub agent : AgentRecord
  pub workflow : WorkflowExecution
  pub node : WorkflowNodeExecution
  pub found_a : find_by agent_key c.agent_id s.agents ≡ some agent
  pub owns : agent.current_task_id ≡ some (trim c.task_id)
  pub found_w : find_by workflow_key c.workflow_id s.workflows ≡ some workflow
  pub found_n : lookup c.node_id workflow.nodes ≡ some node
  pub runs : node.status ≡ running
  pub tries : node.attempts ≡ c.attempt

pub record IsConsistent (s : Store) : Type 0 where
  pub held :
      (i : ℕ) (c : TaskClaim)
      → find_by claim_key i s.claims ≡ some c
      → is_active c.status ≡ true
      → IsHeld s c
  pub one_agent :
      (i j : ℕ) (c d : TaskClaim)
      → find_by claim_key i s.claims ≡ some c
      → find_by claim_key j s.claims ≡ some d
      → is_active c.status ≡ true
      → is_active d.status ≡ true
      → c.agent_id ≡ d.agent_id
      → i ≡ j
  pub one_node :
      (i j : ℕ) (c d : TaskClaim)
      → find_by claim_key i s.claims ≡ some c
      → find_by claim_key j s.claims ≡ some d
      → is_active c.status ≡ true
      → is_active d.status ≡ true
      → c.workflow_id ≡ d.workflow_id
      → c.node_id ≡ d.node_id
      → i ≡ j

pub same_tables :
    (s s' : Store)
    → s'.workflows ≡ s.workflows
    → s'.agents ≡ s.agents
    → s'.claims ≡ s.claims
    → IsConsistent s
    → IsConsistent s'
same_tables s s' workflows agents rows v = record {
  held = λ i c at live.
      let h = v.held i c (rw (← rows) at) live in
      record {
        agent = h.agent;
        workflow = h.workflow;
        node = h.node;
        found_a = rw agents h.found_a;
        owns = h.owns;
        found_w = rw workflows h.found_w;
        found_n = h.found_n;
        runs = h.runs;
        tries = h.tries;
      };
  one_agent = λ i j c d at_c at_d. v.one_agent i j c d (rw (← rows) at_c) (rw (← rows) at_d);
  one_node = λ i j c d at_c at_d. v.one_node i j c d (rw (← rows) at_c) (rw (← rows) at_d);
}

-- Where an active claim of an earlier store still holds.
pub still_held :
    (s s' : Store) (c : TaskClaim) (h : IsHeld s c)
    → find_by agent_key c.agent_id s'.agents ≡ find_by agent_key c.agent_id s.agents
    → (w : WorkflowExecution) → find_by workflow_key c.workflow_id s'.workflows ≡ some w
    → lookup c.node_id w.nodes ≡ some h.node
    → IsHeld s' c
still_held s s' c h same w at node_at = record {
  agent = h.agent;
  workflow = w;
  node = h.node;
  found_a = same ∙ h.found_a;
  owns = h.owns;
  found_w = at;
  found_n = node_at;
  runs = h.runs;
  tries = h.tries;
}

module _ (s s' : Store) (w : WorkflowExecution) (a : AgentRecord) (cs : List TaskClaim)
    (m : Stored s s' w a cs) where
  pub stored_agents :
      (id : ℕ) (old : AgentRecord)
      → a.id ≡ id
      → find_by agent_key id s.agents ≡ some old
      → (k : ℕ)
      → find_by agent_key k s'.agents ≡ (if id == k then some a else find_by agent_key k s.agents)
  stored_agents id old same found k =
      subst
        (λ i.
          find_by agent_key k s'.agents ≡ (if i == k then some a else find_by agent_key k s.agents))
        same
        (rw m.agents (
          find_by-replace_by agent_key a.id k old a s.agents
            (subst (λ i. find_by agent_key i s.agents ≡ some old) (sym same) found) refl))

  pub stored_workflows :
      (id : ℕ) (old : WorkflowExecution)
      → w.id ≡ id
      → find_by workflow_key id s.workflows ≡ some old
      → (k : ℕ)
      → find_by workflow_key k s'.workflows
        ≡ (if id == k then some w else find_by workflow_key k s.workflows)
  stored_workflows id old same found k =
      subst
        (λ i.
          find_by workflow_key k s'.workflows
          ≡ (if i == k then some w else find_by workflow_key k s.workflows))
        same
        (rw m.workflows (
          find_by-replace_by workflow_key w.id k old w s.workflows
            (subst (λ i. find_by workflow_key i s.workflows ≡ some old) (sym same) found) refl))

  -- A claim of another agent, whose node was not touched in the workflow that was written.
  pub stored_held :
      (aid wid : ℕ) (old_a : AgentRecord) (old_w : WorkflowExecution)
      → a.id ≡ aid
      → w.id ≡ wid
      → find_by agent_key aid s.agents ≡ some old_a
      → find_by workflow_key wid s.workflows ≡ some old_w
      → (d : TaskClaim) (h : IsHeld s d) → (aid ≡ d.agent_id → ⊥)
      → (wid ≡ d.workflow_id
          → lookup d.node_id old_w.nodes ≡ some h.node
          → lookup d.node_id w.nodes ≡ some h.node)
      → IsHeld s' d
  stored_held aid wid old_a old_w ea ew fa fw d h apart untouched =
      let agents = stored_agents aid old_a ea fa d.agent_id in
      let workflows = stored_workflows wid old_w ew fw d.workflow_id in
      let same : find_by agent_key d.agent_id s'.agents ≡ find_by agent_key d.agent_id s.agents =
        ground arith in
      elim (Bool-cases (wid == d.workflow_id)) [
        | inr no_match ↦
            still_held s s' d h same h.workflow (ground (arith, h.found_w, workflows)) h.found_n
        | inl match ↦
            let e : wid ≡ d.workflow_id = ground arith in
            let at = subst (λ k. find_by workflow_key k s.workflows ≡ some old_w) e fw in
            let found_w = h.found_w in
            let found_n = h.found_n in
            still_held s s' d h same w (ground (arith, workflows)) (untouched e (ground arith))
      ]
