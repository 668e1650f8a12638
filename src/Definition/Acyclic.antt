-- ===== src/Definition/Acyclic.antt =====
-- The traversal decides whether a workflow graph has a cycle:
-- crates/sessionweft-orchestration/src/lib.rs, `WorkflowDefinition::validate`.
use sessionweft.Common.{
  ℕ, ◌+◌, ◌≤◌, ◌<◌, String, ◌≡◌, sym, ◌∙◌, subst, ◌↔◌, true, false, inl, inr, List, [], In, length,
  arith, Bool-cases, ok, is_ok, is_blank, is_empty, Result, Map,
}
use sessionweft.Definition.{
  WorkflowNodeDefinition, WorkflowDefinition, OrchestrationError, indegrees, dependents, sources,
  count_visited, ids_of, validate, validate_nodes, validate_links, visit_all, check_visited,
}
use sessionweft.Definition.Counts.{count, count_same, count-length}
use sessionweft.Definition.Graph.{
  Resolvable, resolve, known, needs, IsDistinct, known-In, In-known, needs-In, count-ids,
  validate_nodes-IsDistinct,
}
use sessionweft.Definition.Loop.{
  Inv, Inv-start, End, loop_ends, loop_agrees, open_in, all_done, done_bound, length-map,
}

-- The checks of a definition before the traversal of its graph.
pub record IsLinked (w : WorkflowDefinition) : Type 0 where
  pub named : is_blank w.name ≡ false
  pub filled : is_empty w.nodes ≡ false
  pub nodes : validate_nodes [] w.nodes ≡ ok tt
  pub links : validate_links (ids_of w.nodes) w.nodes ≡ ok tt

pub visit_stops :
    (ds : List WorkflowNodeDefinition) (fuel : ℕ)
    → IsDistinct ds
    → length ds < fuel
    → End ds (count_visited fuel (dependents ds []) (indegrees ds []) (sources (indegrees ds [])) 0)
visit_stops ds fuel distinct enough =
    loop_ends ds fuel (indegrees ds []) [] (sources (indegrees ds [])) distinct
      (Inv-start ds distinct) (omega (arith, enough))

-- What can be resolved is done when the queue is empty.
all_below_done :
    (ds : List WorkflowNodeDefinition) (m : Map ℕ) (done : List String)
    → IsDistinct ds
    → Inv ds m done []
    → (j : String) → Resolvable ds j
    → 0 < count j done
unfolding count
all_below_done ds m done distinct inv j (resolve d at below) =
    let none_open : open_in done (needs ds d.id) ≡ 0 =
      rw (needs-In ds d distinct at) (
        all_done done d.dependencies
          (λ k n. all_below_done ds m done distinct inv k (below k n))) in
    ground (arith, inv.placed d.id, known-In ds d at)

-- All are done exactly when all can be resolved.
full_resolves :
    (ds : List WorkflowNodeDefinition) (r : Result OrchestrationError ℕ)
    → IsDistinct ds
    → (e : End ds r)
    → (length e.all_of ≡ length ds) ↔ ((d : WorkflowNodeDefinition) → In d ds → Resolvable ds d.id)
full_resolves ds r distinct e = (
  λ full d at.
      let same = count_same e.all_of (ids_of ds) bound (full ∙ sym (length-map ds)) d.id in
      let one = count-ids ds d.id distinct in
      e.final.resolved d.id (ground (arith, known-In ds d at)),
  λ good.
      let few = count-length e.all_of (ids_of ds) bound in
      let many = count-length (ids_of ds) e.all_of (λ j. elim (Bool-cases (known ds j)) [
        | inr k ↦ let one = count-ids ds j distinct in ground arith
        | inl k ↦
            let (d, at, same, list) = In-known ds j k in
            let one = count-ids ds j distinct in
            let seen =
              subst (λ x. 0 < count x e.all_of) same
                (all_below_done ds e.counts e.all_of distinct e.final d.id (good d at)) in
            ground arith
      ]) in
      omega (arith, length-map ds),
)
  where
    bound : (j : String) → count j e.all_of ≤ count j (ids_of ds)
    bound = done_bound ds e.counts e.all_of [] distinct e.final

validate_parts :
    (w : WorkflowDefinition)
    → (validate w ≡ ok tt) ↔ (IsLinked w × (check_visited w.nodes (visit_all w.nodes) ≡ ok tt))
unfolding validate
validate_parts w = (
  λ h. (
    record {
      named = ground arith;
      filled = ground arith;
      nodes = ground arith;
      links = ground arith;
    },
    ground arith,
  ),
  λ h. ground (arith, h.0.named, h.0.filled, h.0.nodes, h.0.links, h.1),
)

-- A definition is accepted exactly when its names, bounds and links are valid and its graph has no
-- cycle: every node can be resolved.
pub validate_iff :
    (w : WorkflowDefinition)
    → (validate w ≡ ok tt)
      ↔ (IsLinked w × ((d : WorkflowNodeDefinition) → In d w.nodes → Resolvable w.nodes d.id))
unfolding visit_all check_visited
validate_iff w = (
  λ h.
      let (linked, seen) = (validate_parts w).0 h in
      let distinct = validate_nodes-IsDistinct [] w.nodes linked.nodes in
      let e = visit_stops w.nodes (length w.nodes + 1) distinct (omega arith) in
      (linked, (full_resolves w.nodes _ distinct e).0 (ground (arith, e.ended))),
  λ h.
      let distinct = validate_nodes-IsDistinct [] w.nodes h.0.nodes in
      let e = visit_stops w.nodes (length w.nodes + 1) distinct (omega arith) in
      let full = (full_resolves w.nodes _ distinct e).1 h.1 in
      (validate_parts w).1 (h.0, ground (arith, e.ended)),
)

-- The traversal ends by itself: more fuel than the number of nodes changes nothing, and it returns a
-- count, never the error of an inconsistent graph.
pub visit_all_terminates :
    (w : WorkflowDefinition) (fuel : ℕ)
    → IsLinked w
    → length w.nodes < fuel
    → (count_visited fuel
          (dependents w.nodes [])
          (indegrees w.nodes [])
          (sources (indegrees w.nodes []))
          0
        ≡ visit_all w.nodes)
      × (is_ok (visit_all w.nodes) ≡ true)
unfolding visit_all
visit_all_terminates w fuel linked enough =
    let distinct = validate_nodes-IsDistinct [] w.nodes linked.nodes in
    let e = visit_stops w.nodes (length w.nodes + 1) distinct (omega arith) in
    (
      loop_agrees w.nodes fuel (length w.nodes + 1) (indegrees w.nodes []) []
          (sources (indegrees w.nodes [])) distinct (Inv-start w.nodes distinct)
          (omega (arith, enough)) (omega arith),
      ground (arith, e.ended),
    )
