-- ===== src/Workflow/Others.antt =====
-- What a method leaves alone: the identity of the workflow, and the nodes that run and are not its own.
-- crates/sessionweft-orchestration/src/lib.rs.
use sessionweft.Common.{
  ℕ, String, ◌≡◌, refl, ◌∙◌, true, false, inl, inr, some, List, [], ◌∷◌, lookup, lookup-set_entry,
  str_eq, eq_iff, eq_refl, arith, Result-cases, Option-cases, is_ok, EventEnvelope, Io, Trace,
}
use sessionweft.Definition.{WorkflowNodeDefinition}
use sessionweft.Workflow.{
  WorkflowExecution, WorkflowNodeExecution, ready, running, refresh_node, refresh_each,
  refresh_ready_nodes, ensure_running, node_state, advance_version, put_node, finish_if_complete,
  set_status, give_up, activate_fallback, fail_if_stuck, wake_fallback, started, completed,
  failed_once, attempts_of, start_node, complete_node, fail_node, activated,
}
use sessionweft.Workflow.Outcomes.{
  refresh_node_outcome, complete_outcome, fail_outcome, give_up_outcome,
}

refresh_node-id :
    (d : WorkflowNodeDefinition) (e : WorkflowExecution) → (refresh_node d e).1.id ≡ e.id
unfolding put_node
refresh_node-id d e = elim (refresh_node_outcome d e) [
  | inl h ↦ rw h refl
  | inr (n, found, p, k, h) ↦ rw h refl
]

refresh_each-id :
    (ds : List WorkflowNodeDefinition) (e : WorkflowExecution) → (refresh_each ds e).1.id ≡ e.id
unfolding refresh_each
refresh_each-id [] e = refl
refresh_each-id (d ∷ ds) e = elim (Result-cases (refresh_node d e).0) [
  | inr (x, h) ↦ rw (h, refresh_each) (refresh_node-id d e)
  | inl (u, h) ↦
      rw (h, refresh_each) (refresh_each-id ds (refresh_node d e).1 ∙ refresh_node-id d e)
]

refresh-id : (e : WorkflowExecution) → (refresh_ready_nodes e).1.id ≡ e.id
unfolding refresh_ready_nodes
refresh-id e = refresh_each-id e.definition.nodes e

-- A refresh touches pending nodes only.
refresh_node-lookup :
    (d : WorkflowNodeDefinition) (e : WorkflowExecution) (j : String) (m : WorkflowNodeExecution)
    → lookup j e.nodes ≡ some m
    → m.status ≡ running
    → lookup j (refresh_node d e).1.nodes ≡ some m
unfolding put_node
refresh_node-lookup d e j m at runs = elim (refresh_node_outcome d e) [
  | inl h ↦ rw h at
  | inr (n, found, p, k, h) ↦ rw h (
      ground (
        arith,
        lookup-set_entry d.id j (record n { status = activated d.kind }) n e.nodes found,
        eq_iff d.id j,
      ))
]

refresh_each-lookup :
    (ds : List WorkflowNodeDefinition) (e : WorkflowExecution) (j : String)
    (m : WorkflowNodeExecution)
    → lookup j e.nodes ≡ some m
    → m.status ≡ running
    → lookup j (refresh_each ds e).1.nodes ≡ some m
unfolding refresh_each
refresh_each-lookup [] e j m at runs = at
refresh_each-lookup (d ∷ ds) e j m at runs = elim (Result-cases (refresh_node d e).0) [
  | inr (x, h) ↦ rw (h, refresh_each) (refresh_node-lookup d e j m at runs)
  | inl (u, h) ↦
      rw (h, refresh_each)
        (refresh_each-lookup ds (refresh_node d e).1 j m (refresh_node-lookup d e j m at runs) runs)
]

refresh-lookup :
    (e : WorkflowExecution) (j : String) (m : WorkflowNodeExecution)
    → lookup j e.nodes ≡ some m
    → m.status ≡ running
    → lookup j (refresh_ready_nodes e).1.nodes ≡ some m
unfolding refresh_ready_nodes
refresh-lookup e = refresh_each-lookup e.definition.nodes e

put_other :
    (id j : String) (n n' m : WorkflowNodeExecution) (e : WorkflowExecution)
    → lookup id e.nodes ≡ some n
    → str_eq id j ≡ false
    → lookup j e.nodes ≡ some m
    → lookup j (put_node id n' e).nodes ≡ some m
unfolding put_node
put_other id j n n' m e found apart at = ground (arith, lookup-set_entry id j n' n e.nodes found)

pub complete_node-others :
    (io : Io) (expected : ℕ) (id : String) (trace : Trace) (e : WorkflowExecution) (j : String)
    (m : WorkflowNodeExecution)
    → str_eq id j ≡ false
    → lookup j e.nodes ≡ some m
    → m.status ≡ running
    → lookup j (complete_node io expected id trace e).1.nodes ≡ some m
unfolding advance_version
complete_node-others io expected id trace e j m apart at runs =
    elim (complete_outcome io expected id trace e) [
      | inl h ↦ rw h at
      | inr (n, found, is, same) ↦ rw same.nodes (
          refresh-lookup (advance_version (io.clock 1) (put_node id (completed io n) e)) j m
            (put_other id j n (completed io n) m e found apart at) runs)
    ]

give_up-others :
    (io : Io) (d : WorkflowNodeDefinition) (id : String) (trace : Trace)
    (events : List EventEnvelope) (e : WorkflowExecution) (j : String) (m : WorkflowNodeExecution)
    → lookup j e.nodes ≡ some m
    → m.status ≡ running
    → lookup j (give_up io d id trace events e).1.nodes ≡ some m
unfolding put_node
give_up-others io d id trace events e j m at runs = elim (give_up_outcome io d id trace events e) [
  | inl h ↦ rw h at
  | inr (inl same) ↦ rw same.nodes (refresh-lookup e j m at runs)
  | inr (inr (f, n, names, held, is, same)) ↦ rw same.nodes (
      refresh-lookup (put_node f (record n { status = ready }) e) j m
        (ground
          (arith, lookup-set_entry f j (record n { status = ready }) n e.nodes held, eq_iff f j))
        runs)
]

pub fail_node-others :
    (io : Io) (expected : ℕ) (id error : String) (trace : Trace) (e : WorkflowExecution)
    (j : String) (m : WorkflowNodeExecution)
    → str_eq id j ≡ false
    → lookup j e.nodes ≡ some m
    → m.status ≡ running
    → lookup j (fail_node io expected id error trace e).1.nodes ≡ some m
unfolding advance_version
fail_node-others io expected id error trace e j m apart at runs =
    elim (fail_outcome io expected id error trace e) [
      | inl h ↦ rw h at
      | inr (n, d, found, known, is, inl (again, h)) ↦
          rw h (put_other id j n (failed_once io error true n) m e found apart at)
      | inr (n, d, found, known, is, inr (over, events, h)) ↦ rw h (
          give_up-others io d id trace events
            (advance_version (io.clock 1) (put_node id (failed_once io error false n) e)) j m
            (put_other id j n (failed_once io error false n) m e found apart at) runs)
    ]

pub complete_node-id :
    (io : Io) (expected : ℕ) (id : String) (trace : Trace) (e : WorkflowExecution)
    → (complete_node io expected id trace e).1.id ≡ e.id
unfolding complete_node ensure_running node_state put_node advance_version finish_if_complete
    set_status
complete_node-id io expected id trace e = elim (Option-cases (lookup id e.nodes)) [
  | inl k ↦ ground arith
  | inr (n, k) ↦
      ground (arith, refresh-id (advance_version (io.clock 1) (put_node id (completed io n) e)))
]

give_up-id :
    (io : Io) (d : WorkflowNodeDefinition) (id : String) (trace : Trace)
    (events : List EventEnvelope) (e : WorkflowExecution)
    → (give_up io d id trace events e).1.id ≡ e.id
unfolding give_up activate_fallback node_state fail_if_stuck set_status put_node
give_up-id io d id trace events e = elim (Option-cases d.fallback) [
  | inl h ↦ ground (arith, refresh-id e)
  | inr (f, h) ↦ elim (Option-cases (lookup f e.nodes)) [
    | inl k ↦ ground arith
    | inr (n, k) ↦ ground (arith, refresh-id (put_node f (wake_fallback n) e))
  ]
]

pub fail_node-id :
    (io : Io) (expected : ℕ) (id error : String) (trace : Trace) (e : WorkflowExecution)
    → (fail_node io expected id error trace e).1.id ≡ e.id
unfolding advance_version put_node
fail_node-id io expected id error trace e = elim (fail_outcome io expected id error trace e) [
  | inl h ↦ rw h refl
  | inr (n, d, found, known, is, inl (again, h)) ↦ rw h refl
  | inr (n, d, found, known, is, inr (over, events, h)) ↦ rw h (
      give_up-id io d id trace events
        (advance_version (io.clock 1) (put_node id (failed_once io error false n) e)))
]

-- What a node and its workflow are after it was started.
pub record IsStarted (w w' : WorkflowExecution) (id : String) : Type 0 where
  pub before : WorkflowNodeExecution
  pub after : WorkflowNodeExecution
  pub found : lookup id w.nodes ≡ some before
  pub was : before.status ≡ ready
  pub written : w'.nodes ≡ (put_node id after w).nodes
  pub runs : after.status ≡ running
  pub tries : attempts_of id w' ≡ after.attempts
  pub kept : w'.id ≡ w.id

pub start_node-IsStarted :
    (io : Io) (expected : ℕ) (id owner : String) (trace : Trace) (w : WorkflowExecution)
    → is_ok (start_node io expected id owner trace w).0 ≡ true
    → IsStarted w (start_node io expected id owner trace w).1 id
unfolding start_node ensure_running node_state advance_version put_node attempts_of started
start_node-IsStarted io expected id owner trace w h = elim (Option-cases (lookup id w.nodes)) [
  | inl k ↦ absurd (ground arith)
  | inr (n, k) ↦ record {
    before = n;
    after = started io owner n;
    found = k;
    was = ground arith;
    written = ground arith;
    runs = refl;
    tries = ground (arith, lookup-set_entry id id (started io owner n) n w.nodes k, eq_refl id);
    kept = ground arith;
  }
]
