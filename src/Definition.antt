-- ===== src/Definition.antt =====
-- crates/sessionweft-orchestration/src/lib.rs: workflow definitions and their validation. A `BTreeSet`
-- of identifiers is a list that is asked for membership. The loop over the queue takes as fuel one
-- more than the number of nodes, each of which enters the queue at most once.
pub mod Counts
pub mod Graph
pub mod Tables
pub mod Round
pub mod Loop
pub mod Acyclic
use Prim.Native.String.{◌++◌ as append_text}
use sessionweft.Common.{
  ℕ, zero, suc, ◌+◌, ◌-◌, String, len, Bool, true, false, not, ◌||◌, Option, none, some, List, [],
  ◌∷◌, ◌++◌, any, map, length, ltb, ◌==◌, str_eq, if◌then◌else◌, is_blank, is_empty, Map, lookup,
  insert, set_entry, Result, ok, err, ◌≡◌, refl,
}

pub data WorkflowNodeKind : Type 0 where
  task approval : WorkflowNodeKind

pub record WorkflowNodeDefinition : Type 0 where
  pub id : String
  pub kind : WorkflowNodeKind
  pub dependencies : List String
  pub max_attempts : ℕ
  pub continue_on_failure : Bool
  pub fallback : Option String

pub record WorkflowDefinition : Type 0 where
  pub name : String
  pub version : ℕ
  pub nodes : List WorkflowNodeDefinition

abbrev pub default_max_attempts : ℕ
default_max_attempts = 1

pub data OrchestrationError : Type 0 where
  validation : String → OrchestrationError
  node_not_found : String → OrchestrationError
  version_conflict : ℕ → ℕ → OrchestrationError
  invalid_transition : String → OrchestrationError

-- `format!("{before}{id}{after}")`.
abbrev pub format : String → String → String → String
format before id after = append_text before (append_text id after)

-- A chain of checks: each returns at the first that fails.
abbrev Check : Type 0
Check = Result OrchestrationError Unit

infixl 10 ◌>>◌
abbrev ◌>>◌ : Check → Check → Check
ok u >> next = next
err e >> next = err e

abbrev refuse_if : Bool → String → Check
refuse_if true message = err (validation message)
refuse_if false message = ok tt

-- `WorkflowNodeDefinition::validate`.
unfoldable pub validate_node : WorkflowNodeDefinition → Check
validate_node d =
    refuse_if (is_blank d.id) "workflow node ID cannot be empty"
    >> refuse_if (ltb 128 (len d.id)) (format "workflow node '" d.id "' exceeds 128 bytes")
    >> refuse_if (d.max_attempts == 0 || ltb 100 d.max_attempts)
        (format "workflow node '" d.id "' max_attempts must be between 1 and 100")

unfoldable pub contains : List String → String → Bool
contains ids id = any (str_eq id) ids

-- The loop that validates each node and inserts its identifier.
unfoldable pub validate_nodes : List String → List WorkflowNodeDefinition → Check
unfolding validate_node contains
validate_nodes ids [] = ok tt
validate_nodes ids (d ∷ ds) =
    let rest = validate_nodes (d.id ∷ ids) ds in
    validate_node d
    >> refuse_if (contains ids d.id) (format "duplicate workflow node '" d.id "'")
    >> rest

pub validate_dependencies : List String → WorkflowNodeDefinition → List String → Check
unfolding contains
validate_dependencies ids d [] = ok tt
validate_dependencies ids d (dependency ∷ rest) =
    let later = validate_dependencies ids d rest in
    refuse_if (str_eq dependency d.id) (format "node '" d.id "' cannot depend on itself")
    >> refuse_if (not (contains ids dependency))
        (format "node '" d.id (format "' depends on missing node '" dependency "'"))
    >> later

pub validate_fallback : List String → WorkflowNodeDefinition → Option String → Check
unfolding contains
validate_fallback ids d none = ok tt
validate_fallback ids d (some fallback) =
    refuse_if (not (contains ids fallback))
      (format "node '" d.id (format "' references missing fallback '" fallback "'"))

pub validate_links : List String → List WorkflowNodeDefinition → Check
unfolding validate_dependencies validate_fallback
validate_links ids [] = ok tt
validate_links ids (d ∷ ds) =
    let rest = validate_links ids ds in
    validate_dependencies ids d d.dependencies >> validate_fallback ids d d.fallback >> rest

-- `indegree`: the number of dependencies that each node lists.
pub indegrees : List WorkflowNodeDefinition → Map ℕ → Map ℕ
indegrees [] m = m
indegrees (d ∷ ds) m = indegrees ds (insert d.id (length d.dependencies) m)

-- `dependents.entry(dependency).or_default().push(id)`.
pub push_dependent : String → String → Map (List String) → Map (List String)
push_dependent dependency id m = elim (lookup dependency m) [
  | none ↦ insert dependency (id ∷ []) m
  | some ids ↦ insert dependency (ids ++ id ∷ []) m
]

pub push_dependents : String → List String → Map (List String) → Map (List String)
unfolding push_dependent
push_dependents id [] m = m
push_dependents id (dependency ∷ rest) m = push_dependents id rest (push_dependent dependency id m)

pub dependents : List WorkflowNodeDefinition → Map (List String) → Map (List String)
unfolding push_dependents
dependents [] m = m
dependents (d ∷ ds) m = dependents ds (push_dependents d.id d.dependencies m)

-- The queue at the start: the nodes that list no dependency, in the order of their identifiers.
pub sources : Map ℕ → List String
sources [] = []
sources ((id, count) ∷ m) = let rest = sources m in if count == 0 then id ∷ rest else rest

-- The loop over the children of a node: their counts fall, and those that reach zero join the queue.
pub release_children :
    List String → Map ℕ → List String → Result OrchestrationError (Map ℕ × List String)
release_children [] counts queue = ok (counts, queue)
release_children (child ∷ rest) counts queue = elim (lookup child counts) [
  | none ↦ err (validation "workflow graph became internally inconsistent")
  | some count ↦
      release_children rest (set_entry child (count - 1) counts)
        (if count - 1 == 0 then queue ++ child ∷ [] else queue)
]

pub children_of : Map (List String) → String → List String
children_of m id = elim (lookup id m) [ none ↦ [] | some ids ↦ ids ]

-- The loop over the queue: how many nodes it visits.
pub count_visited : ℕ → Map (List String) → Map ℕ → List String → ℕ → Result OrchestrationError ℕ
unfolding release_children children_of
count_visited zero children counts queue visited = ok visited
count_visited (suc fuel) children counts [] visited = ok visited
count_visited (suc fuel) children counts (id ∷ queue) visited =
    elim (release_children (children_of children id) counts queue) [
      | ok state ↦ count_visited fuel children state.0 state.1 (visited + 1)
      | err e ↦ err e
    ]

abbrev pub ids_of : List WorkflowNodeDefinition → List String
ids_of = map λ (d : WorkflowNodeDefinition). d.id

pub visit_all : List WorkflowNodeDefinition → Result OrchestrationError ℕ
unfolding indegrees dependents sources count_visited
visit_all ds =
    let counts = indegrees ds [] in
    count_visited (length ds + 1) (dependents ds []) counts (sources counts) 0

pub check_visited : List WorkflowNodeDefinition → Result OrchestrationError ℕ → Check
check_visited ds (ok visited) =
    refuse_if (not (visited == length ds)) "workflow graph contains a cycle"
check_visited ds (err e) = err e

-- `WorkflowDefinition::validate`.
unfoldable pub validate : WorkflowDefinition → Check
unfolding validate_nodes validate_links visit_all check_visited
validate w =
    refuse_if (is_blank w.name) "workflow name cannot be empty"
    >> refuse_if (is_empty w.nodes) "workflow must contain at least one node"
    >> validate_nodes [] w.nodes
    >> validate_links (ids_of w.nodes) w.nodes
    >> check_visited w.nodes (visit_all w.nodes)

abbrev plain : String → List String → WorkflowNodeDefinition
plain id dependencies = record {
  id = id;
  kind = task;
  dependencies = dependencies;
  max_attempts = 1;
  continue_on_failure = false;
  fallback = none;
}

rejects_workflow_cycles :
    validate (record {
      name = "cycle";
      version = 1;
      nodes = plain "a" ("b" ∷ []) ∷ plain "b" ("a" ∷ []) ∷ [];
    })
    ≡ err (validation "workflow graph contains a cycle")
unfolding validate any lookup insert set_entry is_blank
rejects_workflow_cycles = refl
