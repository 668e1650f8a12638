-- ===== src/Workflow/Moves.antt =====
-- Every method of a workflow execution is a sequence of such steps, whether it succeeds or not:
-- crates/sessionweft-orchestration/src/lib.rs.
use sessionweft.Common.{
  ℕ, String, ◌≡◌, refl, subst, Bool, true, false, inl, inr, some, List, [], ◌∷◌, lookup,
  lookup-set_entry, eq_refl, ok, Io, Trace, arith, Result-cases, EventEnvelope,
}
use sessionweft.Definition.{WorkflowNodeDefinition, WorkflowDefinition, validate}
use sessionweft.Workflow.Commands.{
  Command, Operation, starts, completes, fails, decides, perform, run,
}
use sessionweft.Workflow.{
  WorkflowExecution, WorkflowNodeExecution, ready, failed, find_definition, put_node, started,
  completed, failed_once, decided, refresh_ready_nodes, advance_version, give_up, start_node,
  complete_node, fail_node, decide_approval, new, initial, refreshed,
}
use sessionweft.Workflow.Steps.{Write, Same, writes, marks, Steps, stop, ◌then◌, Steps-trans}
use sessionweft.Workflow.Outcomes.{
  refresh-Steps, start_outcome, complete_outcome, decide_outcome, give_up_outcome, fail_outcome,
}

-- One write, the marks that follow it, and a refresh.
then_refresh :
    (now : ℕ) (id : String) (n n' : WorkflowNodeExecution) (e f : WorkflowExecution)
    → lookup id e.nodes ≡ some n
    → Write e id n n'
    → Same (refresh_ready_nodes (advance_version now (put_node id n' e))).1 f
    → Steps e f
unfolding advance_version
then_refresh now id n n' e f found why same =
    writes id n n' found why
    then marks (advance_version now (put_node id n' e)) (record { nodes = refl; definition = refl })
    then Steps-trans (refresh-Steps (advance_version now (put_node id n' e)))
        (marks f same then stop f)

pub start_node-Steps :
    (io : Io) (expected : ℕ) (id owner : String) (trace : Trace) (e : WorkflowExecution)
    → Steps e (start_node io expected id owner trace e).1
start_node-Steps io expected id owner trace e = elim (start_outcome io expected id owner trace e) [
  | inl h ↦ rw h (stop e)
  | inr (n, found, is, same) ↦
      writes id n (started io owner n) found (Write.starts io id owner n is)
      then marks _ same
      then stop _
]

pub complete_node-Steps :
    (io : Io) (expected : ℕ) (id : String) (trace : Trace) (e : WorkflowExecution)
    → Steps e (complete_node io expected id trace e).1
complete_node-Steps io expected id trace e = elim (complete_outcome io expected id trace e) [
  | inl h ↦ rw h (stop e)
  | inr (n, found, is, same) ↦
      then_refresh (io.clock 1) id n (completed io n) e _ found (Write.completes io id n is) same
]

pub decide_approval-Steps :
    (io : Io) (expected : ℕ) (id : String) (approved : Bool) (trace : Trace) (e : WorkflowExecution)
    → Steps e (decide_approval io expected id approved trace e).1
decide_approval-Steps io expected id approved trace e =
    elim (decide_outcome io expected id approved trace e) [
      | inl h ↦ rw h (stop e)
      | inr (n, found, is, same) ↦
          then_refresh (io.clock 1) id n (decided io approved n) e _ found
            (Write.decides io id approved n is) same
    ]

-- What follows a failure for good, from an execution in which the node has failed.
give_up-Steps :
    (io : Io) (d : WorkflowNodeDefinition) (id : String) (trace : Trace)
    (events : List EventEnvelope) (e : WorkflowExecution) (m : WorkflowNodeExecution)
    → find_definition id e.definition.nodes ≡ some d
    → lookup id e.nodes ≡ some m
    → m.status ≡ failed
    → Steps e (give_up io d id trace events e).1
give_up-Steps io d id trace events e m known found over =
    elim (give_up_outcome io d id trace events e) [
      | inl h ↦ rw h (stop e)
      | inr (inl same) ↦ Steps-trans (refresh-Steps e) (marks _ same then stop _)
      | inr (inr (f, n, names, held, is, same)) ↦
          writes f n (record n { status = ready }) held
            (Write.wakes id f d m n known names found over is)
          then Steps-trans (refresh-Steps (put_node f (record n { status = ready }) e))
              (marks _ same then stop _)
    ]

pub fail_node-Steps :
    (io : Io) (expected : ℕ) (id error : String) (trace : Trace) (e : WorkflowExecution)
    → Steps e (fail_node io expected id error trace e).1
unfolding put_node advance_version failed_once
fail_node-Steps io expected id error trace e = elim (fail_outcome io expected id error trace e) [
  | inl h ↦ rw h (stop e)
  | inr (n, d, found, known, is, inl (again, h)) ↦ rw h (
      writes id n (failed_once io error true n) found (
        subst (λ b. Write e id n (failed_once io error b n)) again
          (Write.fails io id error d n is known))
      then marks _ (record { nodes = refl; definition = refl })
      then stop _)
  | inr (n, d, found, known, is, inr (over, events, h)) ↦ rw h (
      writes id n (failed_once io error false n) found (
        subst (λ b. Write e id n (failed_once io error b n)) over
          (Write.fails io id error d n is known))
      then marks (advance_version (io.clock 1) (put_node id (failed_once io error false n) e))
          (record { nodes = refl; definition = refl })
      then give_up-Steps io d id trace events
          (advance_version (io.clock 1) (put_node id (failed_once io error false n) e))
          (failed_once io error false n) known
          (rw (lookup-set_entry id id (failed_once io error false n) n e.nodes found, eq_refl id)
            refl)
          refl)
]

-- Every command moves a workflow by such steps.
pub perform-Steps : (c : Command) (o : Operation) (e : WorkflowExecution) → Steps e (perform c o e)
unfolding perform
perform-Steps c (starts owner) e = start_node-Steps c.io c.expected c.node_id owner c.trace e
perform-Steps c completes e = complete_node-Steps c.io c.expected c.node_id c.trace e
perform-Steps c (fails error) e = fail_node-Steps c.io c.expected c.node_id error c.trace e
perform-Steps c (decides approved) e =
    decide_approval-Steps c.io c.expected c.node_id approved c.trace e

pub run-Steps : (e : WorkflowExecution) (cs : List Command) → Steps e (run e cs)
unfolding run
run-Steps e [] = stop e
run-Steps e (c ∷ cs) =
    Steps-trans (perform-Steps c c.operation e) (run-Steps (perform c c.operation e) cs)

-- A new workflow is its idle nodes, refreshed.
pub new-Steps :
    (io : Io) (session : ℕ) (w : WorkflowDefinition) (e : WorkflowExecution)
    → new io session w ≡ ok e
    → (validate w ≡ ok tt) × Steps (initial io session w) e
unfolding new refreshed
new-Steps io session w e h = elim (Result-cases (validate w)) [
  | inr (x, k) ↦ ground arith
  | inl (u, k) ↦ elim (Result-cases (refresh_ready_nodes (initial io session w)).0) [
    | inr (x, l) ↦ ground arith
    | inl (v, l) ↦ (
      k,
      subst (Steps (initial io session w)) (ground arith) (refresh-Steps (initial io session w)),
    )
  ]
]
