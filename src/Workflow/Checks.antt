-- ===== src/Workflow/Checks.antt =====
-- What the validation of a definition gives its execution: crates/sessionweft-orchestration/src/lib.rs,
-- `WorkflowDefinition::validate` and `WorkflowExecution::new`.
use sessionweft.Common.{
  ◌≤◌, ◌<◌, String, ◌≡◌, refl, false, inl, inr, some, List, [], ◌∷◌, In, any, lookup, insert,
  lookup-insert, Map, str_eq, eq_iff, eq_refl, arith, ok, Result-cases, Bool-cases,
}
use sessionweft.Definition.{
  WorkflowNodeDefinition, WorkflowDefinition, validate, validate_node, validate_nodes, contains,
}
use sessionweft.Workflow.{WorkflowNodeExecution, find_definition, initial_nodes, idle}

pub validate-nodes :
    (w : WorkflowDefinition) → validate w ≡ ok tt → validate_nodes [] w.nodes ≡ ok tt
unfolding validate
validate-nodes w h = elim (Result-cases (validate_nodes [] w.nodes)) [
  | inl (u, e) ↦ e
  | inr (x, e) ↦ ground arith
]

pub nodes-bounds :
    (seen : List String) (ds : List WorkflowNodeDefinition) (id : String)
    (d : WorkflowNodeDefinition)
    → validate_nodes seen ds ≡ ok tt
    → find_definition id ds ≡ some d
    → (0 < d.max_attempts) × (d.max_attempts ≤ 100)
unfolding validate_nodes validate_node find_definition
nodes-bounds seen [] id d h found = ground arith
nodes-bounds seen (x ∷ xs) id d h found = elim (Result-cases (validate_nodes (x.id ∷ seen) xs)) [
  | inr (y, e) ↦ ground arith
  | inl (u, e) ↦ elim (Bool-cases (str_eq x.id id)) [
    | inl same ↦ ground arith
    | inr other ↦ nodes-bounds (x.id ∷ seen) xs id d e (ground arith)
  ]
]

later_unseen :
    (seen : List String) (ds : List WorkflowNodeDefinition) (d : WorkflowNodeDefinition)
    → validate_nodes seen ds ≡ ok tt
    → In d ds
    → contains seen d.id ≡ false
unfolding validate_nodes contains any
later_unseen seen [] d h m = absurd m
later_unseen seen (x ∷ xs) d h m = elim (Result-cases (validate_nodes (x.id ∷ seen) xs)) [
  | inr (y, e) ↦ ground arith
  | inl (u, e) ↦ elim m [
    | inl same ↦ rw same (ground arith)
    | inr rest ↦ let deeper = later_unseen (x.id ∷ seen) xs d e rest in ground arith
  ]
]

unseen_differs :
    (a b : String) (ids : List String) → contains (a ∷ ids) b ≡ false → str_eq a b ≡ false
unfolding contains any
unseen_differs a b ids h = ground (arith, eq_iff a b, eq_iff b a)

-- A definition is found under its own identifier: no other has the same.
pub nodes-distinct :
    (seen : List String) (ds : List WorkflowNodeDefinition) (d : WorkflowNodeDefinition)
    → validate_nodes seen ds ≡ ok tt
    → In d ds
    → find_definition d.id ds ≡ some d
unfolding validate_nodes find_definition
nodes-distinct seen [] d h m = absurd m
nodes-distinct seen (x ∷ xs) d h m = elim (Result-cases (validate_nodes (x.id ∷ seen) xs)) [
  | inr (y, e) ↦ ground arith
  | inl (u, e) ↦ elim m [
    | inl same ↦ rw (same, eq_refl x.id) refl
    | inr rest ↦
        let apart : str_eq x.id d.id ≡ false =
          unseen_differs x.id d.id seen (later_unseen (x.id ∷ seen) xs d e rest) in
        rw apart (nodes-distinct (x.id ∷ seen) xs d e rest)
  ]
]

-- A workflow starts with idle nodes only.
pub initial_nodes-idle :
    (ds : List WorkflowNodeDefinition) (m : Map WorkflowNodeExecution) (id : String)
    (n : WorkflowNodeExecution)
    → ((j : String) (k : WorkflowNodeExecution) → lookup j m ≡ some k → k ≡ idle)
    → lookup id (initial_nodes ds m) ≡ some n
    → n ≡ idle
unfolding initial_nodes
initial_nodes-idle [] m id n all_idle h = all_idle id n h
initial_nodes-idle (d ∷ ds) m id n all_idle h =
    initial_nodes-idle ds (insert d.id idle m) id n
      (λ j k g. elim (Bool-cases (str_eq d.id j)) [
        | inl e ↦ ground (arith, lookup-insert d.id j idle m)
        | inr e ↦ all_idle j k (ground (arith, lookup-insert d.id j idle m))
      ])
      h
