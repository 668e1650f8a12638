-- ===== src/Workflow/Stuck.antt =====
-- Where a workflow stays although it has ended, and where an approval is not asked for:
-- crates/sessionweft-orchestration/src/lib.rs, `fail_node`.
use sessionweft.Common.{
  ℕ, String, ◌≡◌, true, false, inl, inr, some, List, [], ◌∷◌, lookup, arith, Option-cases,
  EventEnvelope, Io, Trace,
}
use sessionweft.Definition.{WorkflowNodeDefinition}
use sessionweft.Workflow.{
  WorkflowExecution, ensure_running, node_state, node_definition, advance_version, put_node,
  after_failure, give_up, activate_fallback, fail_if_stuck, find_definition, fail_node,
  wake_fallback, failed_once, node_event, failure_details, attempts_of,
}
use sessionweft.Workflow.Versions.{refresh-version}

give_up_continues :
    (io : Io) (d : WorkflowNodeDefinition) (id : String) (trace : Trace)
    (events : List EventEnvelope) (e : WorkflowExecution)
    → d.continue_on_failure ≡ true
    → (give_up io d id trace events e).1.status ≡ e.status
unfolding give_up activate_fallback node_state fail_if_stuck put_node
give_up_continues io d id trace events e goes = elim (Option-cases d.fallback) [
  | inl h ↦ ground (arith, refresh-version e)
  | inr (f, h) ↦ elim (Option-cases (lookup f e.nodes)) [
    | inl k ↦ ground arith
    | inr (n, k) ↦ ground (arith, refresh-version (put_node f (wake_fallback n) e))
  ]
]

-- A failure of a node that lets its workflow continue leaves the status of the workflow as it was:
-- not even the failure of the last open node ends it.
pub fail_node_continues :
    (io : Io) (expected : ℕ) (id error : String) (trace : Trace) (e : WorkflowExecution)
    (d : WorkflowNodeDefinition)
    → find_definition id e.definition.nodes ≡ some d
    → d.continue_on_failure ≡ true
    → (fail_node io expected id error trace e).1.status ≡ e.status
unfolding fail_node ensure_running node_state node_definition advance_version put_node after_failure
fail_node_continues io expected id error trace e d known goes =
    elim (Option-cases (lookup id e.nodes)) [
      | inl k ↦ ground arith
      | inr (n, k) ↦
          let e' : WorkflowExecution =
            advance_version (io.clock 1) (put_node id (failed_once io error false n) e) in
          ground (
            arith,
            give_up_continues io d id trace
                (node_event io 0 2 "workflow.node_failed" id trace
                    (failure_details (attempts_of id e') d error) e'
                  ∷ [])
                e' goes,
          )
    ]
