-- ===== src/Definition/Tables.antt =====
-- The tables that the traversal starts from, and one round of it:
-- crates/sessionweft-orchestration/src/lib.rs, `WorkflowDefinition::validate`.
use sessionweft.Common.{
  ℕ, ◌+◌, String, ◌≡◌, refl, sym, ◌∙◌, ap, true, ◌&&◌, inl, inr, some, List, [], ◌∷◌, ◌++◌, length,
  str_eq, eq_iff, eq_refl, if◌then◌else◌, arith, Bool-cases, Option-cases, ◌==◌, Map, lookup,
  insert, keys, lookup-insert,
}
use sessionweft.Definition.{
  WorkflowNodeDefinition, indegrees, push_dependent, push_dependents, dependents, sources,
  children_of,
}
use sessionweft.Definition.Counts.{count, count-append}
use sessionweft.Definition.Graph.{known, needs, IsDistinct, unknown-needs}

pub lookup-indegrees :
    (ds : List WorkflowNodeDefinition) (m : Map ℕ) (j : String)
    → IsDistinct ds
    → lookup j (indegrees ds m) ≡ (if known ds j then some (length (needs ds j)) else lookup j m)
unfolding indegrees known needs IsDistinct
lookup-indegrees [] m j h = refl
lookup-indegrees (d ∷ ds) m j h =
    let rest = lookup-indegrees ds (insert d.id (length d.dependencies) m) j h.1 in
    let put = lookup-insert d.id j (length d.dependencies) m in ground (arith, h.0, eq_iff d.id j)

children-push_dependent :
    (dependency id u : String) (m : Map (List String))
    → children_of (push_dependent dependency id m) u
      ≡ (if str_eq dependency u then children_of m u ++ id ∷ [] else children_of m u)
unfolding children_of push_dependent
children-push_dependent dependency id u m = elim (Option-cases (lookup dependency m)) [
  | inl e ↦ let put = lookup-insert dependency u (id ∷ []) m in ground (arith, eq_iff dependency u)
  | inr (ids, e) ↦
      let put = lookup-insert dependency u (ids ++ id ∷ []) m in ground (arith, eq_iff dependency u)
]

count-push_dependents :
    (id : String) (js : List String) (m : Map (List String)) (u j : String)
    → count j (children_of (push_dependents id js m) u)
      ≡ count j (children_of m u) + (if str_eq id j then count u js else 0)
unfolding push_dependents count
count-push_dependents id [] m u j = ground arith
count-push_dependents id (x ∷ xs) m u j =
    let rest = count-push_dependents id xs (push_dependent x id m) u j in
    let step = children-push_dependent x id u m in
    let more = count-append j (children_of m u) (id ∷ []) in ground arith

-- How often one node stands among the dependents of another: as often as it lists it.
pub count-dependents :
    (ds : List WorkflowNodeDefinition) (m : Map (List String)) (u j : String)
    → IsDistinct ds
    → count j (children_of (dependents ds m) u) ≡ count j (children_of m u) + count u (needs ds j)
unfolding dependents known needs IsDistinct count
count-dependents [] m u j h = omega arith
count-dependents (d ∷ ds) m u j h =
    let rest = count-dependents ds (push_dependents d.id d.dependencies m) u j h.1 in
    let step = count-push_dependents d.id d.dependencies m u j in
    elim (Bool-cases (str_eq d.id j)) [
      | inr e ↦ ground arith
      | inl e ↦
          let same : d.id ≡ j = ground (arith, eq_iff d.id j) in
          let last = unknown-needs ds j (ap (known ds) (sym same) ∙ h.0) in ground arith
    ]

pub count-children :
    (ds : List WorkflowNodeDefinition) (u j : String)
    → IsDistinct ds
    → count j (children_of (dependents ds []) u) ≡ count u (needs ds j)
unfolding children_of lookup count
count-children ds u j h = omega (arith, count-dependents ds [] u j h)

count-insert :
    (k j : String) (v : ℕ) (m : Map ℕ)
    → count k (keys m) ≡ 0
    → (count j (keys (insert k v m)) ≡ (if str_eq k j then 1 else 0) + count j (keys m))
      × (count j (sources (insert k v m))
          ≡ (if str_eq k j && v == 0 then 1 else 0) + count j (sources m))
unfolding insert count sources
count-insert k j v [] h = ground arith
count-insert k j v ((i, w) ∷ m) h = let rest = count-insert k j v m in ground (arith, rest)

count-indegrees :
    (ds : List WorkflowNodeDefinition) (m : Map ℕ) (j : String)
    → IsDistinct ds
    → ((k : String) → known ds k ≡ true → count k (keys m) ≡ 0)
    → count j (sources (indegrees ds m))
      ≡ (if known ds j && length (needs ds j) == 0 then 1 else 0) + count j (sources m)
unfolding indegrees known needs IsDistinct
count-indegrees [] m j h new = omega arith
count-indegrees (d ∷ ds) m j h new =
    let fresh : count d.id (keys m) ≡ 0 = new d.id (ground (arith, eq_refl d.id)) in
    let rest = count-indegrees ds (insert d.id (length d.dependencies) m) j h.1 (λ k at.
      let put = (count-insert d.id k (length d.dependencies) m fresh).0 in
      ground (arith, h.0, eq_iff d.id k, new k)) in
    let put = (count-insert d.id j (length d.dependencies) m fresh).1 in
    ground (arith, h.0, eq_iff d.id j)

-- The queue at the start holds each node without dependencies once.
pub count-sources :
    (ds : List WorkflowNodeDefinition) (j : String)
    → IsDistinct ds
    → count j (sources (indegrees ds []))
      ≡ (if known ds j && length (needs ds j) == 0 then 1 else 0)
unfolding count sources
count-sources ds j h = omega (arith, count-indegrees ds [] j h (λ k at. refl))
