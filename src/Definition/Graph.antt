-- ===== src/Definition/Graph.antt =====
-- The graph of a workflow definition, and what the checks before the traversal give of it:
-- crates/sessionweft-orchestration/src/lib.rs, `WorkflowDefinition::validate`.
use sessionweft.Common.{
  String, ◌≡◌, refl, subst, Bool, true, false, ◌||◌, inl, inr, List, [], ◌∷◌, any, In, Result,
  str_eq, eq_iff, eq_refl, if◌then◌else◌, arith, Bool-cases, Result-cases, ok, err, is_ok,
}
use sessionweft.Definition.{
  OrchestrationError, WorkflowNodeDefinition, validate_nodes, validate_links, validate_dependencies,
  contains, ids_of,
}
use sessionweft.Definition.Counts.{count}

-- A node can be reached by completing its dependencies first, theirs before, and so on. Where every
-- node can be, the graph has no cycle.
pub data Resolvable (ds : List WorkflowNodeDefinition) : String → Type 0 where
  resolve :
      (d : WorkflowNodeDefinition)
      → In d ds
      → ((j : String) → In j d.dependencies → Resolvable ds j)
      → Resolvable ds d.id

unfoldable pub known : List WorkflowNodeDefinition → String → Bool
known [] j = false
known (d ∷ ds) j = str_eq d.id j || known ds j

-- The dependencies of a node.
unfoldable pub needs : List WorkflowNodeDefinition → String → List String
needs [] j = []
needs (d ∷ ds) j = if str_eq d.id j then d.dependencies else needs ds j

unfoldable pub IsDistinct : List WorkflowNodeDefinition → Type 0
unfolding known
IsDistinct [] = Unit
IsDistinct (d ∷ ds) = (known ds d.id ≡ false) × IsDistinct ds

seen_unknown :
    (seen : List String) (ds : List WorkflowNodeDefinition) (k : String)
    → validate_nodes seen ds ≡ ok tt
    → contains seen k ≡ true
    → known ds k ≡ false
unfolding validate_nodes contains any known
seen_unknown seen [] k h m = refl
seen_unknown seen (d ∷ ds) k h m = elim (Result-cases (validate_nodes (d.id ∷ seen) ds)) [
  | inr (x, e) ↦ ground arith
  | inl (u, e) ↦
      let rest = seen_unknown (d.id ∷ seen) ds k e (ground arith) in ground (arith, eq_iff d.id k)
]

pub validate_nodes-IsDistinct :
    (seen : List String) (ds : List WorkflowNodeDefinition)
    → validate_nodes seen ds ≡ ok tt
    → IsDistinct ds
unfolding validate_nodes contains any IsDistinct
validate_nodes-IsDistinct seen [] h = tt
validate_nodes-IsDistinct seen (d ∷ ds) h = elim (Result-cases (validate_nodes (d.id ∷ seen) ds)) [
  | inr (x, e) ↦ ground arith
  | inl (u, e) ↦ (
    seen_unknown (d.id ∷ seen) ds d.id e (ground (arith, eq_refl d.id)),
    validate_nodes-IsDistinct (d.id ∷ seen) ds e,
  )
]

pub contains-known :
    (ds : List WorkflowNodeDefinition) (j : String) → contains (ids_of ds) j ≡ known ds j
unfolding contains any known
contains-known [] j = refl
contains-known (d ∷ ds) j = ground (arith, contains-known ds j, eq_iff d.id j, eq_iff j d.id)

pub known-In :
    (ds : List WorkflowNodeDefinition) (d : WorkflowNodeDefinition) → In d ds → known ds d.id ≡ true
unfolding known
known-In [] d m = absurd m
known-In (x ∷ xs) d (inl e) = rw e (ground (arith, eq_refl x.id))
known-In (x ∷ xs) d (inr m) = let rest = known-In xs d m in ground arith

pub In-known :
    (ds : List WorkflowNodeDefinition) (j : String)
    → known ds j ≡ true
    → (d : WorkflowNodeDefinition) × In d ds × (d.id ≡ j) × (needs ds j ≡ d.dependencies)
unfolding known needs
In-known [] j h = absurd (ground arith)
In-known (x ∷ xs) j h = elim (Bool-cases (str_eq x.id j)) [
  | inl e ↦ (x, inl refl, ground (arith, eq_iff x.id j), ground arith)
  | inr e ↦ let (d, m, same, list) = In-known xs j (ground arith) in (d, inr m, same, ground arith)
]

pub needs-In :
    (ds : List WorkflowNodeDefinition) (d : WorkflowNodeDefinition)
    → IsDistinct ds
    → In d ds
    → needs ds d.id ≡ d.dependencies
unfolding IsDistinct needs
needs-In [] d h m = absurd m
needs-In (x ∷ xs) d h (inl e) = rw e (ground (arith, eq_refl x.id))
needs-In (x ∷ xs) d h (inr m) =
    let rest = needs-In xs d h.1 m in
    let there = known-In xs d m in ground (arith, h.0, eq_iff x.id d.id)

pub unknown-needs :
    (ds : List WorkflowNodeDefinition) (j : String) → known ds j ≡ false → needs ds j ≡ []
unfolding known needs
unknown-needs [] j h = refl
unknown-needs (x ∷ xs) j h = let rest = unknown-needs xs j (ground arith) in ground arith

pub count-ids :
    (ds : List WorkflowNodeDefinition) (j : String)
    → IsDistinct ds
    → count j (ids_of ds) ≡ (if known ds j then 1 else 0)
unfolding IsDistinct known count
count-ids [] j h = refl
count-ids (x ∷ xs) j h = let rest = count-ids xs j h.1 in ground (arith, h.0, eq_iff x.id j)

dependencies_known :
    (ids : List String) (d : WorkflowNodeDefinition) (js : List String) (j : String)
    → validate_dependencies ids d js ≡ ok tt
    → In j js
    → contains ids j ≡ true
unfolding validate_dependencies
dependencies_known ids d [] j h m = absurd m
dependencies_known ids d (x ∷ xs) j h m = elim (Result-cases (validate_dependencies ids d xs)) [
  | inr (y, e) ↦ ground arith
  | inl (u, e) ↦ elim m [
    | inl same ↦ rw same (ground arith)
    | inr rest ↦ dependencies_known ids d xs j e rest
  ]
]

links_known :
    (ids : List String) (ds : List WorkflowNodeDefinition) (d : WorkflowNodeDefinition) (j : String)
    → validate_links ids ds ≡ ok tt
    → In d ds
    → In j d.dependencies
    → contains ids j ≡ true
unfolding validate_links
links_known ids [] d j h m n = absurd m
links_known ids (x ∷ xs) d j h m n = elim (Result-cases (validate_links ids xs)) [
  | inr (y, e) ↦ ground arith
  | inl (u, e) ↦ elim m [
    | inr rest ↦ links_known ids xs d j e rest n
    | inl same ↦
        dependencies_known ids x x.dependencies j
          (all_good (validate_dependencies ids x x.dependencies) (ground arith))
          (subst (λ (y : WorkflowNodeDefinition). In j y.dependencies) same n)
  ]
]
  where
    all_good : (r : Result OrchestrationError Unit) → is_ok r ≡ true → r ≡ ok tt
    all_good (ok u) g = refl
    all_good (err e) g = absurd (ground arith)

-- The links of a definition lead to nodes of it.
pub needs-known :
    (ds : List WorkflowNodeDefinition) (k j : String)
    → validate_links (ids_of ds) ds ≡ ok tt
    → In j (needs ds k)
    → known ds j ≡ true
unfolding needs
needs-known ds k j h m = elim (Bool-cases (known ds k)) [
  | inl e ↦
      let (d, at, same, list) = In-known ds k e in
      rw (← contains-known ds j) (links_known (ids_of ds) ds d j h at (subst (In j) list m))
  | inr e ↦ absurd (subst (In j) (unknown-needs ds k e) m)
]
