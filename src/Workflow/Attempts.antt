-- ===== src/Workflow/Attempts.antt =====
-- No node runs more often than it may: crates/sessionweft-orchestration/src/lib.rs.
use sessionweft.Common.{
  ℕ, ◌≤◌, ◌<◌, String, ◌≡◌, refl, sym, subst, ◌∙◌, Bool, true, false, inl, inr, Option, none, some,
  List, [], lookup, arith, Io, ok, u32_max, saturating_suc-eq,
}
use sessionweft.Definition.{WorkflowNodeDefinition, WorkflowDefinition, validate_nodes}
use sessionweft.Workflow.{
  WorkflowExecution, WorkflowNodeExecution, find_definition, is_pending, is_ready, is_running,
  is_waiting, new, initial, started, completed, failed_once, decided, attempts_of,
}
use sessionweft.Workflow.Steps.{
  Write, Step, writes, marks, Steps-keeps, Steps-trans, lookup-put_node, activates, starts,
  completes, fails, wakes, decides,
}
use sessionweft.Workflow.Checks.{validate-nodes, nodes-bounds, initial_nodes-idle}
use sessionweft.Workflow.Settled.{Step-definition}
use sessionweft.Workflow.Commands.{Command, run}
use sessionweft.Workflow.Starts.{starts_of, starts_of-attempts_of}
use sessionweft.Workflow.Moves.{run-Steps, new-Steps}

abbrev pub is_held : Option String → Bool
is_held none = false
is_held (some owner) = true

-- The entry of a node that may be tried `budget` times.
pub record IsBudgeted (budget : ℕ) (n : WorkflowNodeExecution) : Type 0 where
  pub bounded : n.attempts ≤ budget
  pub untried : is_pending n.status ≡ true → n.attempts ≡ 0
  pub unstarted : is_waiting n.status ≡ true → n.attempts ≡ 0
  pub left : is_ready n.status ≡ true → n.attempts < budget
  pub tried : is_running n.status ≡ true → 0 < n.attempts
  pub owned : is_held n.owner_id ≡ is_running n.status

Write-IsBudgeted :
    (e : WorkflowExecution) (id : String) (n n' : WorkflowNodeExecution)
    (d : WorkflowNodeDefinition)
    → Write e id n n'
    → find_definition id e.definition.nodes ≡ some d
    → 0 < d.max_attempts
    → d.max_attempts ≤ 100
    → IsBudgeted d.max_attempts n
    → IsBudgeted d.max_attempts n'
unfolding started completed failed_once decided
Write-IsBudgeted e id n n' d (activates c m i p k) known lo hi b = ground arith
Write-IsBudgeted e id n n' d (starts io i owner m p) known lo hi b =
    let next = saturating_suc-eq u32_max n.attempts (ground arith) in ground arith
Write-IsBudgeted e id n n' d (completes io i m p) known lo hi b = ground arith
Write-IsBudgeted e id n n' d (fails io i error c m p k) known lo hi b = ground arith
Write-IsBudgeted e id n n' d (wakes i f c m o x y z w p) known lo hi b = ground arith
Write-IsBudgeted e id n n' d (decides io i approved m p) known lo hi b = ground arith

-- The definitions are within their bounds, and every entry within its budget.
record IsWithin (w : WorkflowDefinition) (e : WorkflowExecution) : Type 0 where
  pub defined : e.definition ≡ w
  pub budgeted :
      (id : String) (d : WorkflowNodeDefinition) (n : WorkflowNodeExecution)
      → find_definition id w.nodes ≡ some d
      → lookup id e.nodes ≡ some n
      → IsBudgeted d.max_attempts n

Step-IsWithin :
    (w : WorkflowDefinition) (e f : WorkflowExecution)
    → validate_nodes [] w.nodes ≡ ok tt
    → Step e f
    → IsWithin w e
    → IsWithin w f
Step-IsWithin w e f valid (marks _ same) h = record {
  defined = same.definition ∙ h.defined;
  budgeted = λ id d n known found. h.budgeted id d n known (rw (← same.nodes) found);
}
Step-IsWithin w e f valid (writes id n n' found why) h = record {
  defined = Step-definition e _ (writes id n n' found why) ∙ h.defined;
  budgeted = λ j d m known k. elim (lookup-put_node id j n n' m e found k) [
    | inr (apart, old) ↦ h.budgeted j d m known old
    | inl (same, new_entry) ↦
        let here : find_definition id w.nodes ≡ some d =
          subst (λ x. find_definition x w.nodes ≡ some d) (sym same) known in
        let (lo, hi) = nodes-bounds [] w.nodes id d valid here in
        subst (IsBudgeted d.max_attempts) new_entry (
          Write-IsBudgeted e id n n' d why
            (subst (λ (x : WorkflowDefinition). find_definition id x.nodes ≡ some d) (sym h.defined)
              here)
            lo hi (h.budgeted id d n here found))
  ];
}

initial-IsWithin :
    (io : Io) (session : ℕ) (w : WorkflowDefinition) → IsWithin w (initial io session w)
unfolding initial lookup
initial-IsWithin io session w = record {
  defined = refl;
  budgeted = λ id d n known found.
      rw (initial_nodes-idle w.nodes [] id n (λ j k g. ground arith) found) (ground arith);
}

-- Whatever commands a new workflow gets, no node has been started more than `max_attempts` times,
-- counting the starts that were accepted, and its counter of attempts is within that bound; a node
-- that is ready has a try left, a running node has an owner and has been tried, and only a running
-- node has an owner.
pub run-IsBudgeted :
    (io : Io) (session : ℕ) (w : WorkflowDefinition) (e : WorkflowExecution) (cs : List Command)
    (id : String) (d : WorkflowNodeDefinition) (n : WorkflowNodeExecution)
    → new io session w ≡ ok e
    → find_definition id w.nodes ≡ some d
    → lookup id (run e cs).nodes ≡ some n
    → (starts_of id e cs ≤ d.max_attempts) × IsBudgeted d.max_attempts n
unfolding attempts_of
run-IsBudgeted io session w e cs id d n made known found =
    let (valid, first) = new-Steps io session w e made in
    let kept : IsWithin w (run e cs) =
      Steps-keeps (IsWithin w) (λ f g step h. Step-IsWithin w f g (validate-nodes w valid) step h)
        (Steps-trans first (run-Steps e cs)) (initial-IsWithin io session w) in
    let within = kept.budgeted id d n known found in
    let (lo, hi) = nodes-bounds [] w.nodes id d (validate-nodes w valid) known in
    let tries : attempts_of id (run e cs) ≡ n.attempts = ground arith in
    let bounded = within.bounded in
    let counted = starts_of-attempts_of id e cs (omega arith) in (omega arith, within)
