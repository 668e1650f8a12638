-- ===== src/Definition/Loop.antt =====
-- The traversal visits what can be resolved: crates/sessionweft-orchestration/src/lib.rs, the loop over
-- the queue in `WorkflowDefinition::validate`. `done` stands for the nodes that were taken from the queue.
use sessionweft.Common.{
  ℕ, zero, suc, ◌+◌, ◌-◌, ◌≤◌, ◌<◌, String, ◌≡◌, refl, sym, ◌∙◌, ap, subst, true, ◌&&◌, inl, inr,
  List, [], ◌∷◌, In, length, str_eq, eq_iff, eq_refl, if◌then◌else◌, arith, Bool-cases, ok, ◌==◌,
  Map, Result, lookup, some, none,
}
use sessionweft.Definition.{
  WorkflowNodeDefinition, OrchestrationError, indegrees, dependents, sources, release_children,
  children_of, count_visited, ids_of,
}
use sessionweft.Definition.Counts.{count, count-length}
use sessionweft.Definition.Graph.{
  Resolvable, resolve, known, needs, IsDistinct, unknown-needs, In-known, count-ids,
}
use sessionweft.Definition.Tables.{lookup-indegrees, count-children, count-sources}
use sessionweft.Definition.Round.{Reads, release_children-Released}

-- The entries of a list that are not done yet.
unfoldable pub open_in : List String → List String → ℕ
open_in done [] = 0
open_in done (x ∷ xs) = (if count x done == 0 then 1 else 0) + open_in done xs

open_in-visit :
    (u : String) (done xs : List String)
    → count u done ≡ 0
    → open_in (u ∷ done) xs + count u xs ≡ open_in done xs
unfolding open_in count
open_in-visit u done [] h = omega arith
open_in-visit u done (x ∷ xs) h =
    let rest = open_in-visit u done xs h in ground (arith, eq_iff x u, eq_iff u x)

open_in-none : (xs : List String) → open_in [] xs ≡ length xs
unfolding open_in count
open_in-none [] = refl
open_in-none (x ∷ xs) = omega (arith, open_in-none xs)

pub open_in-done :
    (done xs : List String) (j : String) → open_in done xs ≡ 0 → In j xs → 0 < count j done
unfolding open_in
open_in-done done [] j h m = absurd m
open_in-done done (x ∷ xs) j h (inl e) = rw e (ground arith)
open_in-done done (x ∷ xs) j h (inr m) = open_in-done done xs j (ground arith) m

pub all_done :
    (done xs : List String) → ((j : String) → In j xs → 0 < count j done) → open_in done xs ≡ 0
unfolding open_in
all_done done [] h = refl
all_done done (x ∷ xs) h =
    let here = h x (inl refl) in let rest = all_done done xs (λ j m. h j (inr m)) in ground arith

pub length-map : (ds : List WorkflowNodeDefinition) → length (ids_of ds) ≡ length ds
length-map [] = refl
length-map (d ∷ ds) = omega (arith, length-map ds)

module _ (ds : List WorkflowNodeDefinition) where
  -- The counts tell the open dependencies; a node is queued or done, once, when it has none.
  pub record Inv (m : Map ℕ) (done queue : List String) : Type 0 where
    pub reads : Reads m (known ds) (λ j. open_in done (needs ds j))
    pub placed :
        (j : String)
        → count j queue + count j done
          ≡ (if known ds j && open_in done (needs ds j) == 0 then 1 else 0)
    pub resolved : (j : String) → 0 < count j done → Resolvable ds j

  pub Inv-start : IsDistinct ds → Inv (indegrees ds []) [] (sources (indegrees ds []))
  unfolding Reads count lookup
  Inv-start distinct = record {
    reads = λ j. rw (open_in-none (needs ds j)) (lookup-indegrees ds [] j distinct);
    placed = λ j. ground (arith, count-sources ds j distinct, open_in-none (needs ds j));
    resolved = λ j h. absurd (omega (arith, h));
  }

  pub record Next (m : Map ℕ) (done queue : List String) (u : String) : Type 0 where
    pub counts : Map ℕ
    pub rest : List String
    pub returned : release_children (children_of (dependents ds []) u) m queue ≡ ok (counts, rest)
    pub kept : Inv counts (u ∷ done) rest

  next :
      (m : Map ℕ) (done queue : List String) (u : String)
      → IsDistinct ds
      → Inv m done (u ∷ queue)
      → Next m done queue u
  unfolding count Reads
  next m done queue u distinct inv =
      let here = inv.placed u in
      let new : count u done ≡ 0 = ground (arith, eq_refl u) in
      let ready : open_in done (needs ds u) ≡ 0 = ground (arith, eq_refl u) in
      let there : known ds u ≡ true = ground (arith, eq_refl u) in
      let edges : (j : String) → count j (children_of (dependents ds []) u) ≡ count u (needs ds j) =
        λ j. count-children ds u j distinct in
      let fall : (j : String)
          → open_in (u ∷ done) (needs ds j) + count u (needs ds j) ≡ open_in done (needs ds j) =
        λ j. open_in-visit u done (needs ds j) new in
      let round =
        release_children-Released (children_of (dependents ds []) u) m queue (known ds)
          (λ j. open_in done (needs ds j)) inv.reads
          (λ j some_edge. elim (Bool-cases (known ds j)) [
            | inl e ↦ e
            | inr e ↦
                absurd (omega (arith, some_edge, edges j, ap (count u) (unknown-needs ds j e)))
          ])
          (λ j. omega (arith, edges j, fall j)) in
      let (d, at, same, list) = In-known ds u there in
      record {
        counts = round.counts;
        rest = round.rest;
        returned = round.returned;
        kept = record {
          reads = λ j.
              let drop : open_in done (needs ds j) - count j (children_of (dependents ds []) u)
                  ≡ open_in (u ∷ done) (needs ds j) =
                omega (arith, edges j, fall j) in
              subst (λ n. lookup j round.counts ≡ (if known ds j then some n else none)) drop
                (round.lowered j);
          placed = λ j.
              ground (arith, round.queued j, edges j, fall j, inv.placed j, unknown-needs ds j);
          resolved = λ j h. elim (Bool-cases (str_eq u j)) [
            | inr e ↦ inv.resolved j (ground arith)
            | inl e ↦ subst (Resolvable ds) (same ∙ ground (arith, eq_iff u j)) (
                resolve d at (λ k n.
                  inv.resolved k
                    (open_in-done done (needs ds u) k ready (subst (In k) (sym list) n))))
          ];
        };
      }

  -- Each node is done at most once.
  pub done_bound :
      (m : Map ℕ) (done queue : List String)
      → IsDistinct ds
      → Inv m done queue
      → (j : String) → count j done ≤ count j (ids_of ds)
  done_bound m done queue distinct inv j =
      let ids = count-ids ds j distinct in
      let place = inv.placed j in
      elim (Bool-cases (known ds j)) [ inl e ↦ ground arith | inr e ↦ ground arith ]

  length-done :
      (m : Map ℕ) (done queue : List String)
      → IsDistinct ds
      → Inv m done queue
      → length done ≤ length ds
  length-done m done queue distinct inv =
      let few = count-length done (ids_of ds) (done_bound m done queue distinct inv) in
      omega (arith, length-map ds)

  -- Where the loop ends: the queue is empty, and what it returns counts what is done.
  pub record End (result : Result OrchestrationError ℕ) : Type 0 where
    pub counts : Map ℕ
    pub all_of : List String
    pub ended : result ≡ ok (length all_of)
    pub final : Inv counts all_of []

  pub loop_ends :
      (fuel : ℕ) (m : Map ℕ) (done queue : List String)
      → IsDistinct ds
      → Inv m done queue
      → length ds < fuel + length done
      → End (count_visited fuel (dependents ds []) m queue (length done))
  unfolding count_visited
  loop_ends zero m done queue distinct inv enough =
      absurd (omega (arith, enough, length-done m done queue distinct inv))
  loop_ends (suc fuel) m done [] distinct inv enough = record {
    counts = m;
    all_of = done;
    ended = refl;
    final = inv;
  }
  loop_ends (suc fuel) m done (u ∷ queue) distinct inv enough =
      let step = next m done queue u distinct inv in
      let one_more : length done + 1 ≡ suc (length done) = omega arith in
      let rest =
        loop_ends fuel step.counts (u ∷ done) step.rest distinct step.kept
          (omega (arith, enough)) in
      record {
        counts = rest.counts;
        all_of = rest.all_of;
        ended = rw (step.returned, count_visited, one_more) rest.ended;
        final = rest.final;
      }

  -- Beyond what it needs, fuel makes no difference.
  pub loop_agrees :
      (fuel more : ℕ) (m : Map ℕ) (done queue : List String)
      → IsDistinct ds
      → Inv m done queue
      → length ds < fuel + length done
      → length ds < more + length done
      → count_visited fuel (dependents ds []) m queue (length done)
        ≡ count_visited more (dependents ds []) m queue (length done)
  unfolding count_visited
  loop_agrees zero more m done queue distinct inv few many =
      absurd (omega (arith, few, length-done m done queue distinct inv))
  loop_agrees (suc fuel) zero m done queue distinct inv few many =
      absurd (omega (arith, many, length-done m done queue distinct inv))
  loop_agrees (suc fuel) (suc more) m done [] distinct inv few many = refl
  loop_agrees (suc fuel) (suc more) m done (u ∷ queue) distinct inv few many =
      let step = next m done queue u distinct inv in
      let one_more : length done + 1 ≡ suc (length done) = omega arith in
      rw (step.returned, count_visited, one_more)
        (loop_agrees fuel more step.counts (u ∷ done) step.rest distinct step.kept
          (omega (arith, few)) (omega (arith, many)))
