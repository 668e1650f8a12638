-- ===== src/MergeQueue/Commands.antt =====
-- The operations on an entry of the merge queue as commands: the methods of
-- crates/sessionweft-git/src/merge_queue.rs and merge_execution.rs, and what `claim_next_merge` of
-- crates/sessionweft-git-sqlite/src/merge_queue.rs writes when the fence of an entry is not live.
use sessionweft.Common.{ℕ, String, ◌≡◌, Bool, false, Option, List, [], ◌∷◌, arith, is_ok}
use sessionweft.MergeQueue.{
  MergeQueueEntry, MergeQueueStatus, queued, claimed, merging, conflict, merged, cancelled, failed,
  Method, record_review, record_tests, cancel, claim, begin_merge, record_rebased_head,
  mark_conflict, mark_merged, mark_failed,
}
use sessionweft.MergeQueue.Recovery.{
  GitRepositoryError, requeue_after_rebase, requeue_after_target_move, reject_fence,
}

pub data Operation : Type 0 where
  reviews tests : String → Bool → Option String → Operation
  cancels rebases merges fails : String → Operation
  claims begins : Operation
  conflicts : List String → Operation
  requeues : String → String → String → Operation
  target_moves : String → Operation
  fence_fails : GitRepositoryError → Operation

pub record Command : Type 0 where
  pub now : ℕ
  pub operation : Operation

unfoldable pub perform : ℕ → Operation → Method
unfolding record_review record_tests cancel claim begin_merge record_rebased_head mark_conflict
    mark_merged mark_failed requeue_after_rebase requeue_after_target_move reject_fence
perform now (reviews reviewer approved note) = record_review reviewer approved note now
perform now (tests suite success summary) = record_tests suite success summary now
perform now (cancels reason) = cancel reason now
perform now (rebases head) = record_rebased_head head now
perform now (merges commit) = mark_merged commit now
perform now (fails error) = mark_failed error now
perform now claims = claim now
perform now begins = begin_merge now
perform now (conflicts paths) = mark_conflict paths now
perform now (requeues target head reason) = requeue_after_rebase target head reason now
perform now (target_moves actual) = requeue_after_target_move actual now
perform now (fence_fails error) = reject_fence error now

abbrev pub execute : Command → Method
execute c = perform c.now c.operation

unfoldable pub run : MergeQueueEntry → List Command → MergeQueueEntry
run e [] = e
run e (c ∷ cs) = run (execute c e).1 cs

perform_atomic :
    (now : ℕ) (o : Operation) (e : MergeQueueEntry)
    → is_ok (perform now o e).0 ≡ false
    → (perform now o e).1 ≡ e
unfolding perform
perform_atomic now claims e h = ground arith
perform_atomic now _ e h = ground arith

-- An operation on an entry that returns an error has changed nothing in it.
pub entry_atomic :
    (c : Command) (e : MergeQueueEntry) → is_ok (execute c e).0 ≡ false → (execute c e).1 ≡ e
entry_atomic c e h = perform_atomic c.now c.operation e h

-- The edges of the life cycle of an entry.
pub data Edge : MergeQueueStatus → MergeQueueStatus → Type 0 where
  stay : {s : MergeQueueStatus} → Edge s s
  take : Edge queued claimed
  drop : Edge queued cancelled
  drop_claimed : Edge claimed cancelled
  begin : Edge claimed merging
  give_up : Edge claimed failed
  break : Edge merging failed
  collide : Edge merging conflict
  finish : Edge merging merged
  retry : Edge merging queued
  lose : Edge queued failed

ruleset edges =
    (stay, take, drop, drop_claimed, begin, give_up, break, collide, finish, retry, lose)

perform-Edge :
    (now : ℕ) (o : Operation) (e : MergeQueueEntry) → Edge e.status (perform now o e).1.status
unfolding perform
perform-Edge now claims e = grind (arith, edges)
perform-Edge now _ e = grind (arith, edges)

-- Every operation follows an edge of the life cycle: only a queued entry is claimed, only a claimed
-- one starts to merge, only a merging one ends merged or in conflict or returns to the queue, and no
-- edge leaves merged, conflict, cancelled or failed.
pub entry-Edge : (c : Command) (e : MergeQueueEntry) → Edge e.status (execute c e).1.status
entry-Edge c e = perform-Edge c.now c.operation e
