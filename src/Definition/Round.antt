-- ===== src/Definition/Round.antt =====
-- One round of the traversal: crates/sessionweft-orchestration/src/lib.rs, the loop over the dependents
-- of a node in `WorkflowDefinition::validate`.
use sessionweft.Common.{
  ℕ, ◌+◌, ◌-◌, ◌≤◌, ◌<◌, String, ◌≡◌, refl, Bool, true, ◌&&◌, none, some, List, [], ◌∷◌, ◌++◌,
  str_eq, eq_iff, eq_refl, if◌then◌else◌, arith, ok, ltb, ◌==◌, Map, lookup, set_entry,
  lookup-set_entry,
}
use sessionweft.Definition.{release_children}
use sessionweft.Definition.Counts.{count, count-append}

-- A table of counts, read as a function on the keys that it has.
unfoldable pub Reads : Map ℕ → (String → Bool) → (String → ℕ) → Type 0
Reads m has f = (j : String) → lookup j m ≡ (if has j then some (f j) else none)

-- How the children of a node change the counts and the queue.
pub record Released (m : Map ℕ) (queue cs : List String) (has : String → Bool) (f : String → ℕ)
    : Type 0 where
  pub counts : Map ℕ
  pub rest : List String
  pub returned : release_children cs m queue ≡ ok (counts, rest)
  pub lowered : Reads counts has (λ j. f j - count j cs)
  pub queued :
      (j : String)
      → count j rest ≡ count j queue + (if ltb 0 (count j cs) && f j == count j cs then 1 else 0)

pub release_children-Released :
    (cs : List String) (m : Map ℕ) (queue : List String) (has : String → Bool) (f : String → ℕ)
    → Reads m has f
    → ((j : String) → 0 < count j cs → has j ≡ true)
    → ((j : String) → count j cs ≤ f j)
    → Released m queue cs has f
unfolding release_children count Reads
release_children-Released [] m queue has f reads at most = record {
  counts = m;
  rest = queue;
  returned = refl;
  lowered = λ j. ground (arith, reads j);
  queued = λ j. omega arith;
}
release_children-Released (x ∷ xs) m queue has f reads at most =
    let here : has x ≡ true = at x (ground (arith, eq_refl x)) in
    let found : lookup x m ≡ some (f x) = ground (arith, reads x) in
    let next : List String = if f x - 1 == 0 then queue ++ x ∷ [] else queue in
    let more =
      release_children-Released xs (set_entry x (f x - 1) m) next has
        (λ j. if str_eq x j then f j - 1 else f j)
        (λ j. ground (arith, reads j, eq_iff x j, lookup-set_entry x j (f x - 1) (f x) m found))
        (λ j g. at j (omega arith)) (λ j. ground (arith, most j)) in
    record {
      counts = more.counts;
      rest = more.rest;
      returned = rw (found, release_children) more.returned;
      lowered = λ j. ground (arith, more.lowered j);
      queued = λ j.
          let added = count-append j queue (x ∷ []) in
          ground (arith, more.queued j, most j, eq_iff x j, added);
    }
