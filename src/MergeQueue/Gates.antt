-- ===== src/MergeQueue/Gates.antt =====
-- No entry is merged past its gates, and what its state tells of its fields:
-- crates/sessionweft-git/src/merge_queue.rs, and the ways back to the queue of merge_execution.rs.
use sessionweft.Common.{
  ℕ, String, ◌≡◌, ◌≢◌, refl, inl, inr, Bool, true, false, Option, none, some, List, [], ◌∷◌,
  is_empty, arith, is_ok, ok, is_empty_text, Result-cases,
}
use sessionweft.Worktree.{GitWorktreeRecord, validate_commit}
use sessionweft.MergeQueue.{
  MergeQueueEntry, MergeQueueStatus, claimed, merging, conflict, merged, cancelled, failed,
  MergeQueueRequest, MergeConflict, gates_passed, new, check_enqueue,
}
use sessionweft.MergeQueue.Recovery.{error_text-filled}
use sessionweft.MergeQueue.Commands.{Command, Operation, claims, fence_fails, perform, execute, run}

-- Past the queue: a worker has claimed the entry, or was done with it.
abbrev pub past_gates : MergeQueueStatus → Bool
past_gates claimed = true
past_gates merging = true
past_gates conflict = true
past_gates merged = true
past_gates _ = false

abbrev pub HasPaths : Option MergeConflict → Type 0
HasPaths none = ⊥
HasPaths (some c) = is_empty c.paths ≡ false

abbrev pub IsCommit : Option String → Type 0
IsCommit none = ⊥
IsCommit (some commit) = is_ok (validate_commit commit) ≡ true

abbrev pub IsText : Option String → Type 0
IsText none = ⊥
IsText (some s) = is_empty_text s ≡ false

pub record IsValid (e : MergeQueueEntry) : Type 0 where
  pub gated : past_gates e.status ≡ true → gates_passed e ≡ true
  pub colliding : e.status ≡ conflict → HasPaths e.conflict
  pub committed : e.status ≡ merged → IsCommit e.merge_commit
  pub uncommitted : e.status ≢ merged → e.merge_commit ≡ none
  pub explained : e.status ≡ cancelled → IsText e.cancellation_reason
  pub blamed : e.status ≡ failed → IsText e.last_error
  pub headed : is_ok (validate_commit e.head_commit) ≡ true

new-IsValid :
    (id : ℕ) (r : MergeQueueRequest) (w : GitWorktreeRecord) (sequence now : ℕ)
    (e : MergeQueueEntry)
    → new id r w sequence now ≡ ok e
    → IsValid e
unfolding new gates_passed
new-IsValid id r w sequence now e h = elim (Result-cases (check_enqueue r w)) [
  | inl (u, f) ↦ ground arith
  | inr (x, f) ↦ ground arith
]

perform-IsValid :
    (now : ℕ) (o : Operation) (e : MergeQueueEntry) → IsValid e → IsValid (perform now o e).1
unfolding perform gates_passed
perform-IsValid now claims e v = ground arith
perform-IsValid now (fence_fails x) e v = let text = error_text-filled x in ground arith
perform-IsValid now _ e v = ground arith

run-IsValid : (e : MergeQueueEntry) (cs : List Command) → IsValid e → IsValid (run e cs)
unfolding run
run-IsValid e [] v = v
run-IsValid e (c ∷ cs) v = run-IsValid (execute c e).1 cs (perform-IsValid c.now c.operation e v)

-- An entry that was enqueued, after any operations, succeeding or not: past the queue both its gates
-- have passed, a conflict names paths, it has a merge commit exactly when merged, which like its head
-- is a commit identifier, and a cancellation or a failure says why.
pub run-entry-IsValid :
    (id : ℕ) (r : MergeQueueRequest) (w : GitWorktreeRecord) (sequence now : ℕ)
    (e : MergeQueueEntry) (cs : List Command)
    → new id r w sequence now ≡ ok e
    → IsValid (run e cs)
run-entry-IsValid id r w sequence now e cs h =
    run-IsValid e cs (new-IsValid id r w sequence now e h)

abbrev pub is_over : MergeQueueStatus → Bool
is_over conflict = true
is_over merged = true
is_over cancelled = true
is_over failed = true
is_over _ = false

perform_over :
    (now : ℕ) (o : Operation) (e : MergeQueueEntry)
    → is_over e.status ≡ true
    → (perform now o e).1 ≡ e
unfolding perform
perform_over now claims e h = ground arith
perform_over now _ e h = ground arith

-- Merged, cancelled, failed and in conflict are final: no operation changes the entry.
pub over_absorbs :
    (e : MergeQueueEntry) (cs : List Command) → is_over e.status ≡ true → run e cs ≡ e
unfolding run
over_absorbs e [] h = refl
over_absorbs e (c ∷ cs) h = rw (perform_over c.now c.operation e h) (over_absorbs e cs h)
