-- ===== src/Workflow/Versions.antt =====
-- Versions of a workflow, and workflows that are over: crates/sessionweft-orchestration/src/lib.rs,
-- `ensure_running` and `advance_version`.
use sessionweft.Common.{
  ◌<◌, String, ◌≡◌, refl, ◌∙◌, true, false, inl, inr, List, [], ◌∷◌, lookup, arith, Result-cases,
  Option-cases, u64_max, saturating_suc, saturating_suc-eq, ◌&&◌, ◌==◌, EventEnvelope, Io, Trace,
}
use sessionweft.Definition.{WorkflowNodeDefinition}
use sessionweft.Workflow.{
  WorkflowExecution, is_live, refresh_node, refresh_each, refresh_ready_nodes, ensure_running,
  node_state, node_definition, advance_version, put_node, finish_if_complete, set_status, settle,
  after_failure, give_up, wake_fallback, completed, decided, failed_once, node_event,
  failure_details, attempts_of, activate_fallback, fail_if_stuck, find_definition, start_node,
  complete_node, fail_node, decide_approval,
}
use sessionweft.Workflow.Commands.{
  Command, Operation, starts, completes, fails, decides, perform, run, accepts,
}
use sessionweft.Workflow.Outcomes.{refresh_node_outcome}

refresh_node-version :
    (d : WorkflowNodeDefinition) (e : WorkflowExecution)
    → ((refresh_node d e).1.version ≡ e.version) × ((refresh_node d e).1.status ≡ e.status)
unfolding put_node
refresh_node-version d e = elim (refresh_node_outcome d e) [
  | inl h ↦ rw h (refl, refl)
  | inr (n, found, p, k, h) ↦ rw h (refl, refl)
]

refresh_each-version :
    (ds : List WorkflowNodeDefinition) (e : WorkflowExecution)
    → ((refresh_each ds e).1.version ≡ e.version) × ((refresh_each ds e).1.status ≡ e.status)
unfolding refresh_each
refresh_each-version [] e = (refl, refl)
refresh_each-version (d ∷ ds) e = elim (Result-cases (refresh_node d e).0) [
  | inr (x, h) ↦ rw (h, refresh_each) (refresh_node-version d e)
  | inl (u, h) ↦
      rw (h, refresh_each)
        (
          (refresh_each-version ds (refresh_node d e).1).0 ∙ (refresh_node-version d e).0,
          (refresh_each-version ds (refresh_node d e).1).1 ∙ (refresh_node-version d e).1,
        )
]

pub refresh-version :
    (e : WorkflowExecution)
    → ((refresh_ready_nodes e).1.version ≡ e.version)
      × ((refresh_ready_nodes e).1.status ≡ e.status)
unfolding refresh_ready_nodes
refresh-version e = refresh_each-version e.definition.nodes e

give_up-version :
    (io : Io) (d : WorkflowNodeDefinition) (id : String) (trace : Trace)
    (events : List EventEnvelope) (e : WorkflowExecution)
    → (give_up io d id trace events e).1.version ≡ e.version
unfolding give_up activate_fallback node_state fail_if_stuck set_status put_node
give_up-version io d id trace events e = elim (Option-cases d.fallback) [
  | inl h ↦ ground (arith, refresh-version e)
  | inr (f, h) ↦ elim (Option-cases (lookup f e.nodes)) [
    | inl k ↦ ground arith
    | inr (n, k) ↦ ground (arith, refresh-version (put_node f (wake_fallback n) e))
  ]
]

-- What a command that succeeds says of the version, before and after.
perform_version :
    (c : Command) (o : Operation) (e : WorkflowExecution)
    → accepts c o e ≡ true
    → (e.version ≡ c.expected) × ((perform c o e).version ≡ saturating_suc u64_max e.version)
unfolding accepts perform start_node complete_node fail_node decide_approval ensure_running
    node_state node_definition advance_version put_node finish_if_complete set_status settle
    after_failure
perform_version c (starts owner) e h = elim (Option-cases (lookup c.node_id e.nodes)) [
  | inl k ↦ ground arith
  | inr (n, k) ↦ ground arith
]
perform_version c completes e h = elim (Option-cases (lookup c.node_id e.nodes)) [
  | inl k ↦ ground arith
  | inr (n, k) ↦ ground (
    arith,
    refresh-version (advance_version (c.io.clock 1) (put_node c.node_id (completed c.io n) e)),
  )
]
perform_version c (fails error) e h = elim (Option-cases (lookup c.node_id e.nodes)) [
  | inl k ↦ ground arith
  | inr (n, k) ↦ elim (Option-cases (find_definition c.node_id e.definition.nodes)) [
    | inl l ↦ ground arith
    | inr (d, l) ↦
        let e' : WorkflowExecution =
          advance_version (c.io.clock 1) (put_node c.node_id (failed_once c.io error false n) e) in
        ground (
          arith,
          give_up-version c.io d c.node_id c.trace
              (node_event c.io 0 2 "workflow.node_failed" c.node_id c.trace
                  (failure_details (attempts_of c.node_id e') d error) e'
                ∷ [])
              e',
        )
  ]
]
perform_version c (decides approved) e h = elim (Option-cases (lookup c.node_id e.nodes)) [
  | inl k ↦ ground arith
  | inr (n, k) ↦ elim (Option-cases (find_definition c.node_id e.definition.nodes)) [
    | inl l ↦ ground arith
    | inr (d, l) ↦ ground (
      arith,
      refresh-version
          (advance_version (c.io.clock 1) (put_node c.node_id (decided c.io approved n) e)),
    )
  ]
]

-- A command with another version, or on a workflow that is over, is refused and changes nothing.
perform_refused :
    (c : Command) (o : Operation) (e : WorkflowExecution)
    → ((e.version == c.expected) && is_live e.status) ≡ false
    → (accepts c o e ≡ false) × (perform c o e ≡ e)
unfolding accepts perform start_node complete_node fail_node decide_approval ensure_running
perform_refused c (starts owner) e h = ground arith
perform_refused c completes e h = ground arith
perform_refused c (fails error) e h = ground arith
perform_refused c (decides approved) e h = ground arith

-- Two commands that have seen the same version of a workflow cannot both succeed, below u64::MAX: the
-- second is refused, and changes nothing.
pub second_command_refused :
    (c d : Command) (e : WorkflowExecution)
    → d.expected ≡ c.expected
    → e.version < u64_max
    → accepts c c.operation e ≡ true
    → (accepts d d.operation (perform c c.operation e) ≡ false)
      × (perform d d.operation (perform c c.operation e) ≡ perform c c.operation e)
second_command_refused c d e same small done =
    let (before, after) = perform_version c c.operation e done in
    let next = saturating_suc-eq u64_max e.version small in
    perform_refused d d.operation (perform c c.operation e) (ground arith)

-- A workflow that has succeeded, failed or been cancelled never changes again.
pub over_stays :
    (e : WorkflowExecution) (cs : List Command) → is_live e.status ≡ false → run e cs ≡ e
unfolding run
over_stays e [] h = refl
over_stays e (c ∷ cs) h =
    rw ((perform_refused c c.operation e (ground arith)).1) (over_stays e cs h)
