-- ===== src/Scheduler/Store/Claimed.antt =====
-- A claim that is taken keeps the claims, agents and nodes in agreement:
-- crates/sessionweft-scheduler-sqlite/src/lib.rs, `claim_next`.
use sessionweft.Common.{
  ℕ, ◌≡◌, sym, ◌∙◌, ap, subst, ◌⊎◌, inl, inr, some, [], ◌∷◌, ◌++◌, arith, find_by, find_by-append,
  ◌==◌, lookup, lookup-set_entry, eq_iff, eq_refl, if◌then◌else◌,
}
use sessionweft.Workflow.{put_node}
use sessionweft.Scheduler.{TaskClaim}
use sessionweft.Scheduler.Store.{Store, workflow_key, agent_key, claim_key}
use sessionweft.Scheduler.Store.Outcome.{Claimed}
use sessionweft.Scheduler.Store.Consistent.{
  IsHeld, IsConsistent, stored_agents, stored_workflows, stored_held,
}

module _ (s s' : Store) (c : TaskClaim) (v : IsConsistent s) (m : Claimed s s' c) where
  -- The agent of the new claim had no task, so it has no other active claim.
  claimed_apart : (d : TaskClaim) → IsHeld s d → c.agent_id ≡ d.agent_id → ⊥
  claimed_apart d h e =
      let found = subst (λ k. find_by agent_key k s.agents ≡ some m.a) e m.found_a in
      let free = m.assigned.free in let owns = h.owns in let at = h.found_a in ground arith

  -- Its node was ready, so no active claim is on it.
  claimed_node :
      (d : TaskClaim) → IsHeld s d → c.workflow_id ≡ d.workflow_id → c.node_id ≡ d.node_id → ⊥
  claimed_node d h e f =
      let found = subst (λ k. find_by workflow_key k s.workflows ≡ some m.w) e m.found_w in
      let node_at = subst (λ k. lookup k m.w.nodes ≡ some m.started.before) f m.started.found in
      let was = m.started.was in
      let runs = h.runs in let at = h.found_w in let node_was = h.found_n in ground arith

  rows :
      (j : ℕ)
      → find_by claim_key j s'.claims ≡ (if c.id == j then some c else find_by claim_key j s.claims)
  rows j = rw m.stored.rows (find_by-append claim_key j c s.claims m.new)

  new_held : IsHeld s' c
  unfolding put_node
  new_held = record {
    agent = m.a';
    workflow = m.w';
    node = m.started.after;
    found_a = ground (
      arith,
      stored_agents s s' m.w' m.a' (s.claims ++ c ∷ []) m.stored c.agent_id m.a m.agent_id m.found_a
          c.agent_id,
    );
    owns = m.assigned.owns;
    found_w = ground (
      arith,
      stored_workflows s s' m.w' m.a' (s.claims ++ c ∷ []) m.stored c.workflow_id m.w m.workflow_id
          m.found_w c.workflow_id,
    );
    found_n = rw m.started.written (
        ground (
          arith,
          lookup-set_entry c.node_id c.node_id m.started.after m.started.before m.w.nodes
              m.started.found,
          eq_refl c.node_id,
        ));
    runs = m.started.runs;
    tries = sym (m.attempt ∙ m.started.tries);
  }

  old_held : (d : TaskClaim) → IsHeld s d → IsHeld s' d
  unfolding put_node
  old_held d h =
      stored_held s s' m.w' m.a' (s.claims ++ c ∷ []) m.stored c.agent_id c.workflow_id m.a m.w
        m.agent_id m.workflow_id m.found_a m.found_w d h (claimed_apart d h)
        (λ e at. rw m.started.written (
          let was = m.started.was in
          let runs = h.runs in
          let found = m.started.found in
          ground (
            arith,
            eq_iff c.node_id d.node_id,
            lookup-set_entry c.node_id d.node_id m.started.after m.started.before m.w.nodes
                m.started.found,
          )))

  -- A row of the new table is the new claim or an old one.
  row_cases :
      (j : ℕ) (d : TaskClaim)
      → find_by claim_key j s'.claims ≡ some d
      → ((c.id ≡ j) × (c ≡ d)) ⊎ (find_by claim_key j s.claims ≡ some d)
  row_cases j d h = let at = rows j in ground arith

  pub claimed-IsConsistent : IsConsistent s'
  claimed-IsConsistent = record {
    held = λ i d at live. elim (row_cases i d at) [
      | inl (e, f) ↦ subst (IsHeld s') f new_held
      | inr old ↦ old_held d (v.held i d old live)
    ];
    one_agent = λ i j d f at_i at_j live_d live_f same. elim (row_cases i d at_i) [
      | inl (e, g) ↦ elim (row_cases j f at_j) [
        | inl (e', g') ↦ sym e ∙ e'
        | inr old ↦
            absurd (
              claimed_apart f (v.held j f old live_f) (ap (λ (x : TaskClaim). x.agent_id) g ∙ same))
      ]
      | inr old_i ↦ elim (row_cases j f at_j) [
        | inl (e', g') ↦ absurd (
            claimed_apart d (v.held i d old_i live_d)
              (ap (λ (x : TaskClaim). x.agent_id) g' ∙ sym same))
        | inr old_j ↦ v.one_agent i j d f old_i old_j live_d live_f same
      ]
    ];
    one_node = λ i j d f at_i at_j live_d live_f same there. elim (row_cases i d at_i) [
      | inl (e, g) ↦ elim (row_cases j f at_j) [
        | inl (e', g') ↦ sym e ∙ e'
        | inr old ↦ absurd (
            claimed_node f (v.held j f old live_f) (ap (λ (x : TaskClaim). x.workflow_id) g ∙ same)
              (ap (λ (x : TaskClaim). x.node_id) g ∙ there))
      ]
      | inr old_i ↦ elim (row_cases j f at_j) [
        | inl (e', g') ↦ absurd (
            claimed_node d (v.held i d old_i live_d)
              (ap (λ (x : TaskClaim). x.workflow_id) g' ∙ sym same)
              (ap (λ (x : TaskClaim). x.node_id) g' ∙ sym there))
        | inr old_j ↦ v.one_node i j d f old_i old_j live_d live_f same there
      ]
    ];
  }
