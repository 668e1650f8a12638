-- ===== src/Worktree/Life.antt =====
-- The life cycle of a worktree and what its status tells of its fields: crates/sessionweft-git/src/lib.rs,
-- `GitWorktreeRecord`.
use sessionweft.Common.{
  ℕ, String, ◌≡◌, inl, inr, true, false, Option, none, some, List, [], ◌∷◌, arith, is_ok, ok,
  is_empty_text, Result-cases,
}
use sessionweft.Worktree.{
  GitWorktreeRecord, GitWorktreeStatus, provisioning, ready, failed, abandoned, cleaned,
  WorktreeAllocationRequest, Method, new, provision, validate_allocation, validate_commit,
  ensure_provisioning, mark_ready, mark_failed, mark_abandoned, mark_cleaned,
}

pub data Operation : Type 0 where
  readies fails abandons : String → Operation
  cleans : Operation

pub record Command : Type 0 where
  pub now : ℕ
  pub operation : Operation

unfoldable pub perform : ℕ → Operation → Method
unfolding mark_ready mark_failed mark_abandoned mark_cleaned ensure_provisioning
perform now (readies head) = mark_ready head now
perform now (fails error) = mark_failed error now
perform now (abandons reason) = mark_abandoned reason now
perform now cleans = mark_cleaned now

abbrev pub execute : Command → Method
execute c = perform c.now c.operation

unfoldable pub run : GitWorktreeRecord → List Command → GitWorktreeRecord
run w [] = w
run w (c ∷ cs) = run (execute c w).1 cs

-- The edges of the life cycle.
pub data Edge : GitWorktreeStatus → GitWorktreeStatus → Type 0 where
  stay : {s : GitWorktreeStatus} → Edge s s
  finish : Edge provisioning ready
  break : Edge provisioning failed
  drop : Edge provisioning abandoned
  leave : Edge ready abandoned
  discard : Edge failed abandoned
  clean : Edge abandoned cleaned
  sweep : Edge failed cleaned

ruleset edges = (stay, finish, break, drop, leave, discard, clean, sweep)

perform-Edge :
    (now : ℕ) (o : Operation) (w : GitWorktreeRecord) → Edge w.status (perform now o w).1.status
unfolding perform
perform-Edge now cleans w = grind (arith, edges)
perform-Edge now _ w = grind (arith, edges)

perform_atomic :
    (now : ℕ) (o : Operation) (w : GitWorktreeRecord)
    → is_ok (perform now o w).0 ≡ false
    → (perform now o w).1 ≡ w
unfolding perform
perform_atomic now cleans w h = ground arith
perform_atomic now _ w h = ground arith

-- Every operation on a worktree follows an edge of its life cycle: only a provisioning one becomes
-- ready, and only an abandoned or failed one is cleaned.
pub worktree-Edge : (c : Command) (w : GitWorktreeRecord) → Edge w.status (execute c w).1.status
worktree-Edge c w = perform-Edge c.now c.operation w

-- An operation on a worktree that returns an error has changed nothing in it.
pub worktree_atomic :
    (c : Command) (w : GitWorktreeRecord) → is_ok (execute c w).0 ≡ false → (execute c w).1 ≡ w
worktree_atomic c w h = perform_atomic c.now c.operation w h

abbrev pub IsHead : Option String → Type 0
IsHead none = ⊥
IsHead (some head) = is_ok (validate_commit head) ≡ true

abbrev pub IsBlamed : Option String → Type 0
IsBlamed none = ⊥
IsBlamed (some e) = is_empty_text e ≡ false

pub record IsValid (w : GitWorktreeRecord) : Type 0 where
  pub headed : w.status ≡ ready → IsHead w.head_commit
  pub quiet : w.status ≡ ready → w.last_error ≡ none
  pub headless : w.status ≡ provisioning → w.head_commit ≡ none
  pub blamed : w.status ≡ failed → IsBlamed w.last_error
  pub explained : w.status ≡ abandoned → IsBlamed w.last_error

new-IsValid :
    (id : ℕ) (r : WorktreeAllocationRequest) (now : ℕ) (w : GitWorktreeRecord)
    → new id r now ≡ ok w
    → IsValid w
unfolding new provision
new-IsValid id r now w h = elim (Result-cases (validate_allocation r now)) [
  | inl (u, f) ↦ ground arith
  | inr (x, f) ↦ ground arith
]

perform-IsValid :
    (now : ℕ) (o : Operation) (w : GitWorktreeRecord) → IsValid w → IsValid (perform now o w).1
unfolding perform
perform-IsValid now cleans w v = ground arith
perform-IsValid now _ w v = ground arith

run-IsValid : (w : GitWorktreeRecord) (cs : List Command) → IsValid w → IsValid (run w cs)
unfolding run
run-IsValid w [] v = v
run-IsValid w (c ∷ cs) v = run-IsValid (execute c w).1 cs (perform-IsValid c.now c.operation w v)

-- A worktree that was allocated, after any operations, succeeding or not: a ready one has a head that
-- is a commit identifier and no error, a provisioning one has no head yet, and a failed or abandoned
-- one says why.
pub run-worktree-IsValid :
    (id : ℕ) (r : WorktreeAllocationRequest) (now : ℕ) (w : GitWorktreeRecord) (cs : List Command)
    → new id r now ≡ ok w
    → IsValid (run w cs)
run-worktree-IsValid id r now w cs h = run-IsValid w cs (new-IsValid id r now w h)
