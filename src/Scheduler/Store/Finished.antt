-- ===== src/Scheduler/Store/Finished.antt =====
-- A claim that is finished keeps the claims, agents and nodes in agreement:
-- crates/sessionweft-scheduler-sqlite/src/lib.rs, `finish_claim`.
use sessionweft.Common.{
  ℕ, String, ◌≡◌, refl, sym, subst, true, false, inl, inr, none, some, arith, Bool-cases, Io, Trace,
  find_by, replace_by, find_by-replace_by, ◌==◌, lookup, str_eq, eq_iff,
}
use sessionweft.Workflow.{WorkflowExecution, WorkflowNodeExecution, running}
use sessionweft.Workflow.Others.{complete_node-others, fail_node-others}
use sessionweft.Scheduler.{TaskClaim}
use sessionweft.Scheduler.Store.{Store, claim_key, is_active, Finish, finish_node}
use sessionweft.Scheduler.Store.Outcome.{Finished}
use sessionweft.Scheduler.Store.Consistent.{IsHeld, IsConsistent, stored_held}

finish_node-others :
    (io : Io) (trace : Trace) (how : Finish) (c : TaskClaim) (w : WorkflowExecution) (j : String)
    (n : WorkflowNodeExecution)
    → str_eq c.node_id j ≡ false
    → lookup j w.nodes ≡ some n
    → n.status ≡ running
    → lookup j (finish_node io trace how c w w).1.nodes ≡ some n
unfolding finish_node
finish_node-others io trace none c w j n apart at runs =
    complete_node-others io w.version c.node_id trace w j n apart at runs
finish_node-others io trace (some error) c w j n apart at runs =
    fail_node-others io w.version c.node_id error trace w j n apart at runs

module _ (s s' : Store) (how : Finish) (c c' : TaskClaim) (v : IsConsistent s)
    (m : Finished s s' how c c') where
  -- A row that is active after the finish is another active row of before.
  finished_row :
      (j : ℕ) (d : TaskClaim)
      → find_by claim_key j s'.claims ≡ some d
      → is_active d.status ≡ true
      → ((c.id ≡ j) → ⊥) × (find_by claim_key j s.claims ≡ some d)
  finished_row j d at live =
      let row =
        find_by-replace_by claim_key c'.id j c c' s.claims
          (subst (λ i. find_by claim_key i s.claims ≡ some c) (sym m.claim_id) m.found) refl in
      let held = subst (λ cs. find_by claim_key j cs ≡ some d) m.stored.rows at in
      let closed = m.closed in
      let id = m.claim_id in
      elim (Bool-cases (c'.id == j)) [
        | inl e ↦ absurd (ground arith)
        | inr e ↦ (λ same. ground arith, ground arith)
      ]

  finished_held :
      (j : ℕ) (d : TaskClaim)
      → ((c.id ≡ j) → ⊥)
      → find_by claim_key j s.claims ≡ some d
      → is_active d.status ≡ true
      → IsHeld s' d
  finished_held j d apart at live =
      let h = v.held j d at live in
      stored_held s s' m.w' m.a' (replace_by claim_key c'.id c' s.claims) m.stored c.agent_id
        c.workflow_id m.a m.w m.agent_id m.workflow_id m.found_a m.found_w d h
        (λ e. apart (v.one_agent c.id j c d m.found at m.live live e))
        (λ e there. elim (Bool-cases (str_eq c.node_id d.node_id)) [
          | inl same ↦ absurd (
              apart (
                v.one_node c.id j c d m.found at m.live live e
                  (ground (arith, eq_iff c.node_id d.node_id))))
          | inr other ↦
              subst (λ (x : WorkflowExecution). lookup d.node_id x.nodes ≡ some h.node)
                (sym m.ended)
                (finish_node-others m.io m.trace how c m.w d.node_id h.node other there h.runs)
        ])

  pub finished-IsConsistent : IsConsistent s'
  finished-IsConsistent = record {
    held = λ i d at live.
        let (apart, old) = finished_row i d at live in finished_held i d apart old live;
    one_agent = λ i j d f at_i at_j live_d live_f same.
        v.one_agent i j d f ((finished_row i d at_i live_d).1) ((finished_row j f at_j live_f).1)
          live_d live_f same;
    one_node = λ i j d f at_i at_j live_d live_f same there.
        v.one_node i j d f ((finished_row i d at_i live_d).1) ((finished_row j f at_j live_f).1)
          live_d live_f same there;
  }
