-- ===== src/Workflow/Refreshed.antt =====
-- A refresh leaves no node behind: crates/sessionweft-orchestration/src/lib.rs, `refresh_ready_nodes`.
use sessionweft.Common.{
  String, ◌≡◌, refl, ◌∙◌, Bool, true, false, inl, inr, some, List, [], ◌∷◌, all, In, lookup,
  lookup-set_entry, eq_iff, eq_refl, arith, Option-cases, Bool-cases, Result-cases, is_ok,
}
use sessionweft.Definition.{WorkflowNodeDefinition}
use sessionweft.Workflow.{
  WorkflowExecution, WorkflowNodeExecution, is_pending, activated, find_definition, put_node,
  dependency_satisfied, satisfies_dependency, refresh_node, refresh_each, refresh_ready_nodes,
  node_state, activate_if,
}
use sessionweft.Workflow.Steps.{lookup-put_node}
use sessionweft.Workflow.Outcomes.{refresh_node_outcome}

-- The node of `d` does not wait without need.
pub IsBlocked : WorkflowExecution → WorkflowNodeDefinition → Type 0
IsBlocked e d =
    (n : WorkflowNodeExecution)
    → lookup d.id e.nodes ≡ some n
    → is_pending n.status ≡ true
    → all (dependency_satisfied e) d.dependencies ≡ false

all_congr :
    (p q : String → Bool) (xs : List String) → ((x : String) → p x ≡ q x) → all p xs ≡ all q xs
unfolding all
all_congr p q [] h = refl
all_congr p q (x ∷ xs) h = ground (arith, h x, all_congr p q xs h)

-- To activate a node satisfies no dependency yet.
refresh_node-dependency_satisfied :
    (d : WorkflowNodeDefinition) (e : WorkflowExecution) (j : String)
    → dependency_satisfied (refresh_node d e).1 j ≡ dependency_satisfied e j
unfolding put_node dependency_satisfied satisfies_dependency
refresh_node-dependency_satisfied d e j = elim (refresh_node_outcome d e) [
  | inl h ↦ rw h refl
  | inr (n, found, p, k, h) ↦ rw h (elim (Option-cases (find_definition j e.definition.nodes)) [
    | inl l ↦ ground arith
    | inr (c, l) ↦ ground (
      arith,
      lookup-set_entry d.id j (record n { status = activated d.kind }) n e.nodes found,
      eq_iff d.id j,
    )
  ])
]

same_needs :
    (d c : WorkflowNodeDefinition) (e : WorkflowExecution)
    → all (dependency_satisfied (refresh_node d e).1) c.dependencies
      ≡ all (dependency_satisfied e) c.dependencies
same_needs d c e =
    all_congr (dependency_satisfied (refresh_node d e).1) (dependency_satisfied e) c.dependencies
      (refresh_node-dependency_satisfied d e)

refresh_node-keeps :
    (d c : WorkflowNodeDefinition) (e : WorkflowExecution)
    → IsBlocked e c
    → IsBlocked (refresh_node d e).1 c
unfolding IsBlocked
refresh_node-keeps d c e blocked m held waits = same_needs d c e ∙ elim (refresh_node_outcome d e) [
  | inl h ↦ blocked m (rw (← h) held) waits
  | inr (n, found, p, k, h) ↦
      elim (lookup-put_node d.id c.id n (record n { status = activated d.kind }) m e found
        (rw (← h) held)) [ inr (apart, old) ↦ blocked m old waits | inl (same, now) ↦ ground arith ]
]

refresh_node-IsBlocked :
    (d : WorkflowNodeDefinition) (e : WorkflowExecution)
    → is_ok (refresh_node d e).0 ≡ true
    → IsBlocked (refresh_node d e).1 d
unfolding IsBlocked refresh_node node_state activate_if put_node
refresh_node-IsBlocked d e done m held waits =
    same_needs d d e ∙ elim (Option-cases (lookup d.id e.nodes)) [
      | inl h ↦ ground arith
      | inr (n, h) ↦ elim (Bool-cases (all (dependency_satisfied e) d.dependencies)) [
        | inr k ↦ k
        | inl k ↦ ground (
          arith,
          lookup-set_entry d.id d.id (record n { status = activated d.kind }) n e.nodes h,
          eq_refl d.id,
        )
      ]
    ]

refresh_each-keeps :
    (ds : List WorkflowNodeDefinition) (c : WorkflowNodeDefinition) (e : WorkflowExecution)
    → IsBlocked e c
    → IsBlocked (refresh_each ds e).1 c
unfolding refresh_each
refresh_each-keeps [] c e h = h
refresh_each-keeps (d ∷ ds) c e h = elim (Result-cases (refresh_node d e).0) [
  | inr (x, k) ↦ rw (k, refresh_each) (refresh_node-keeps d c e h)
  | inl (u, k) ↦
      rw (k, refresh_each)
        (refresh_each-keeps ds c (refresh_node d e).1 (refresh_node-keeps d c e h))
]

refresh_each-IsBlocked :
    (ds : List WorkflowNodeDefinition) (c : WorkflowNodeDefinition) (e : WorkflowExecution)
    → is_ok (refresh_each ds e).0 ≡ true
    → In c ds
    → IsBlocked (refresh_each ds e).1 c
unfolding refresh_each
refresh_each-IsBlocked [] c e done m = absurd m
refresh_each-IsBlocked (d ∷ ds) c e done m = elim (Result-cases (refresh_node d e).0) [
  | inr (x, k) ↦ ground arith
  | inl (u, k) ↦
      rw (k, refresh_each)
        (elim m [
          | inl same ↦
              refresh_each-keeps ds c (refresh_node d e).1
                (rw same (refresh_node-IsBlocked d e (rw k refl)))
          | inr rest ↦ refresh_each-IsBlocked ds c (refresh_node d e).1 (ground arith) rest
        ])
]

-- One pass is enough: after a refresh that succeeds, a node of the definition that is still pending
-- has a dependency that is not satisfied.
pub refresh_ready_nodes-IsBlocked :
    (e : WorkflowExecution) (d : WorkflowNodeDefinition) (n : WorkflowNodeExecution)
    → is_ok (refresh_ready_nodes e).0 ≡ true
    → In d e.definition.nodes
    → lookup d.id (refresh_ready_nodes e).1.nodes ≡ some n
    → is_pending n.status ≡ true
    → all (dependency_satisfied (refresh_ready_nodes e).1) d.dependencies ≡ false
unfolding refresh_ready_nodes IsBlocked
refresh_ready_nodes-IsBlocked e d n done listed =
    refresh_each-IsBlocked e.definition.nodes d e done listed n
