-- ===== src/Workflow/Readiness.antt =====
-- No node becomes ready before its dependencies: crates/sessionweft-orchestration/src/lib.rs,
-- `refresh_ready_nodes` and the fallbacks of `fail_node`.
use sessionweft.Common.{
  ℕ, String, ◌≡◌, refl, sym, subst, ◌∙◌, ap, true, false, inl, inr, some, List, [], all, In, lookup,
  arith, Io, ok,
}
use sessionweft.Definition.{WorkflowNodeDefinition, WorkflowDefinition, validate_nodes}
use sessionweft.Workflow.{
  WorkflowExecution, WorkflowNodeExecution, failed, is_pending, find_definition,
  dependency_satisfied, new, initial, idle,
}
use sessionweft.Workflow.Steps.{
  Write, Step, writes, marks, Steps-keeps, Steps-trans, lookup-put_node, activates, starts,
  completes, fails, wakes, decides,
}
use sessionweft.Workflow.Settled.{Step-definition, Step-settled, Step-all_satisfied}
use sessionweft.Workflow.Checks.{validate-nodes, nodes-distinct, initial_nodes-idle}
use sessionweft.Workflow.Commands.{Command, run}
use sessionweft.Workflow.Moves.{run-Steps, new-Steps}

-- Why the node of `d` is not pending: its dependencies are satisfied, or a node has failed whose
-- fallback it is.
pub data Reason (e : WorkflowExecution) (d : WorkflowNodeDefinition) : Type 0 where
  satisfied : all (dependency_satisfied e) d.dependencies ≡ true → Reason e d
  recovers :
      (id : String) (c : WorkflowNodeDefinition) (m : WorkflowNodeExecution)
      → find_definition id e.definition.nodes ≡ some c
      → c.fallback ≡ some d.id
      → lookup id e.nodes ≡ some m
      → m.status ≡ failed
      → Reason e d

Step-Reason :
    (e f : WorkflowExecution) (d : WorkflowNodeDefinition) → Step e f → Reason e d → Reason f d
Step-Reason e f d step (satisfied h) = satisfied (Step-all_satisfied e f d.dependencies step h)
Step-Reason e f d step (recovers id c m known back found over) =
    recovers id c m
      (subst (λ w. find_definition id w.nodes ≡ some c) (sym (Step-definition e f step)) known) back
      (Step-settled id m e f (rw over refl) step found) over

record IsReasoned (w : WorkflowDefinition) (e : WorkflowExecution) : Type 0 where
  pub defined : e.definition ≡ w
  pub reasoned :
      (d : WorkflowNodeDefinition) (n : WorkflowNodeExecution)
      → In d w.nodes
      → lookup d.id e.nodes ≡ some n
      → is_pending n.status ≡ false
      → Reason e d

-- What a write says of the node that it is about.
Write-Reason :
    (e : WorkflowExecution) (id : String) (n n' : WorkflowNodeExecution)
    (d : WorkflowNodeDefinition)
    → Write e id n n'
    → find_definition id e.definition.nodes ≡ some d
    → ((c : WorkflowNodeDefinition)
        → In c e.definition.nodes
        → find_definition c.id e.definition.nodes ≡ some c)
    → d.id ≡ id
    → (is_pending n.status ≡ false → Reason e d)
    → Reason e d
Write-Reason e id n n' d (activates c m i p k) known distinct same old =
    let one : c ≡ d = ground (arith, distinct c i) in
    satisfied (subst (λ x. all (dependency_satisfied e) x.dependencies ≡ true) one k)
Write-Reason e id n n' d (starts io i owner m p) known distinct same old = old (rw p refl)
Write-Reason e id n n' d (completes io i m p) known distinct same old = old (rw p refl)
Write-Reason e id n n' d (fails io i error c m p k) known distinct same old = old (rw p refl)
Write-Reason e id n n' d (wakes i f c m o x y z w p) known distinct same old =
    recovers i c m x (y ∙ ap some (sym same)) z w
Write-Reason e id n n' d (decides io i approved m p) known distinct same old = old (rw p refl)

Step-IsReasoned :
    (w : WorkflowDefinition) (e f : WorkflowExecution)
    → validate_nodes [] w.nodes ≡ ok tt
    → Step e f
    → IsReasoned w e
    → IsReasoned w f
Step-IsReasoned w e f valid (marks _ same) h = record {
  defined = same.definition ∙ h.defined;
  reasoned = λ d n m found live.
      Step-Reason e f d (marks f same) (h.reasoned d n m (rw (← same.nodes) found) live);
}
Step-IsReasoned w e f valid (writes id n n' found why) h = record {
  defined = Step-definition e _ (writes id n n' found why) ∙ h.defined;
  reasoned = λ d k m held live.
      Step-Reason e _ d (writes id n n' found why)
        (elim (lookup-put_node id d.id n n' k e found held) [
          | inr (apart, old) ↦ h.reasoned d k m old live
          | inl (same, new_entry) ↦
              let distinct : (c : WorkflowNodeDefinition)
                  → In c e.definition.nodes
                  → find_definition c.id e.definition.nodes ≡ some c =
                subst
                  (λ (x : WorkflowDefinition).
                    (c : WorkflowNodeDefinition)
                    → In c x.nodes
                    → find_definition c.id x.nodes ≡ some c)
                  (sym h.defined) (λ c i. nodes-distinct [] w.nodes c valid i) in
              Write-Reason e id n n' d why
                (subst (λ x. find_definition x e.definition.nodes ≡ some d) (sym same)
                  (distinct d (subst (λ (x : WorkflowDefinition). In d x.nodes) (sym h.defined) m)))
                distinct (sym same)
                (λ quiet.
                  h.reasoned d n m (subst (λ x. lookup x e.nodes ≡ some n) same found) quiet)
        ]);
}

initial-IsReasoned :
    (io : Io) (session : ℕ) (w : WorkflowDefinition) → IsReasoned w (initial io session w)
unfolding initial lookup
initial-IsReasoned io session w = record {
  defined = refl;
  reasoned = λ d n m found live.
      let quiet : n ≡ idle = initial_nodes-idle w.nodes [] d.id n (λ j k g. ground arith) found in
      ground arith;
}

-- Whatever commands a new workflow gets, a node that is no longer pending has all its dependencies
-- satisfied, or is the fallback of a node that has failed.
pub run-Reason :
    (io : Io) (session : ℕ) (w : WorkflowDefinition) (e : WorkflowExecution) (cs : List Command)
    (d : WorkflowNodeDefinition) (n : WorkflowNodeExecution)
    → new io session w ≡ ok e
    → In d w.nodes
    → lookup d.id (run e cs).nodes ≡ some n
    → is_pending n.status ≡ false
    → Reason (run e cs) d
run-Reason io session w e cs d n made listed found live =
    let (valid, first) = new-Steps io session w e made in
    let kept : IsReasoned w (run e cs) =
      Steps-keeps (IsReasoned w)
        (λ f g step h. Step-IsReasoned w f g (validate-nodes w valid) step h)
        (Steps-trans first (run-Steps e cs)) (initial-IsReasoned io session w) in
    kept.reasoned d n listed found live
