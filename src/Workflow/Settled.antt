-- ===== src/Workflow/Settled.antt =====
-- A node that has ended stays as it ended: crates/sessionweft-orchestration/src/lib.rs.
use sessionweft.Common.{
  String, ◌≡◌, refl, Bool, true, false, inl, inr, some, List, [], ◌∷◌, all, lookup,
  lookup-set_entry, eq_iff, arith, Option-cases,
}
use sessionweft.Workflow.{
  WorkflowExecution, WorkflowNodeExecution, WorkflowNodeStatus, succeeded, failed, skipped,
  find_definition, put_node, dependency_satisfied, satisfies_dependency,
}
use sessionweft.Workflow.Steps.{
  Write, Step, writes, marks, Steps-keeps, activates, starts, completes, fails, wakes, decides,
}
use sessionweft.Workflow.Commands.{Command, run}
use sessionweft.Workflow.Moves.{run-Steps}

abbrev pub is_settled : WorkflowNodeStatus → Bool
is_settled succeeded = true
is_settled failed = true
is_settled skipped = true
is_settled _ = false

Write-open :
    (e : WorkflowExecution) (id : String) (n n' : WorkflowNodeExecution)
    → Write e id n n'
    → is_settled n.status ≡ false
Write-open e id n n' (activates d n2 m p k) = rw p refl
Write-open e id n n' (starts io id2 owner n2 p) = rw p refl
Write-open e id n n' (completes io id2 n2 p) = rw p refl
Write-open e id n n' (fails io id2 error d n2 p k) = rw p refl
Write-open e id n n' (wakes id2 f d m n2 a b c g p) = rw p refl
Write-open e id n n' (decides io id2 b n2 p) = rw p refl

pub Step-settled :
    (j : String) (m : WorkflowNodeExecution) (e f : WorkflowExecution)
    → is_settled m.status ≡ true
    → Step e f
    → lookup j e.nodes ≡ some m
    → lookup j f.nodes ≡ some m
unfolding put_node
Step-settled j m e f over (marks _ same) h = rw same.nodes h
Step-settled j m e f over (writes id n n' found why) h =
    ground (arith, lookup-set_entry id j n' n e.nodes found, eq_iff id j, Write-open e id n n' why)

-- A node that has succeeded, failed or was skipped never changes again, whatever commands follow.
pub settled_stays :
    (e : WorkflowExecution) (cs : List Command) (id : String) (n : WorkflowNodeExecution)
    → lookup id e.nodes ≡ some n
    → is_settled n.status ≡ true
    → lookup id (run e cs).nodes ≡ some n
settled_stays e cs id n h over =
    Steps-keeps (λ f. lookup id f.nodes ≡ some n) (λ f g step k. Step-settled id n f g over step k)
      (run-Steps e cs) h

pub Step-definition : (e f : WorkflowExecution) → Step e f → f.definition ≡ e.definition
unfolding put_node
Step-definition e f (marks _ same) = same.definition
Step-definition e f (writes id n n' found why) = refl

satisfies-settled :
    (s : WorkflowNodeStatus) (c : Bool) → satisfies_dependency s c ≡ true → is_settled s ≡ true
unfolding satisfies_dependency
satisfies-settled s c h = ground arith

-- A dependency that is satisfied stays satisfied.
pub Step-satisfied :
    (e f : WorkflowExecution) (j : String)
    → Step e f
    → dependency_satisfied e j ≡ true
    → dependency_satisfied f j ≡ true
unfolding dependency_satisfied
Step-satisfied e f j step h = elim (Option-cases (find_definition j e.definition.nodes)) [
  | inl k ↦ ground arith
  | inr (d, k) ↦ elim (Option-cases (lookup j e.nodes)) [
    | inl l ↦ ground arith
    | inr (m, l) ↦
        let over : is_settled m.status ≡ true =
          satisfies-settled m.status d.continue_on_failure (ground arith) in
        ground (arith, Step-settled j m e f over step l, Step-definition e f step)
  ]
]

pub Step-all_satisfied :
    (e f : WorkflowExecution) (ids : List String)
    → Step e f
    → all (dependency_satisfied e) ids ≡ true
    → all (dependency_satisfied f) ids ≡ true
unfolding all
Step-all_satisfied e f [] step h = refl
Step-all_satisfied e f (j ∷ js) step h =
    ground (arith, Step-satisfied e f j step, Step-all_satisfied e f js step)
