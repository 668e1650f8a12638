-- ===== src/MergeQueue/Recovery.antt =====
-- How an entry returns to the queue, and how it leaves it without a worker:
-- crates/sessionweft-git/src/merge_execution.rs, `MergeQueueRecoveryTransition`, and
-- crates/sessionweft-git-sqlite/src/merge_queue.rs, `claim_next_merge` on an entry whose fence is not
-- live. The query of the fence is input and output: its error is an argument.
use Prim.Native.String.{◌++◌ as append_text}
use sessionweft.Common.{
  ℕ, ◌<◌, len, arith, String, ◌≡◌, refl, false, is_empty_text, not, ◌&&◌, none, some, gets, modify,
  refuse_if, if◌then◌else◌, pure, ◌>>=◌, ◌>>◌,
}
use text.Mathlib.TextPositions.{len-append}
use sessionweft.Worktree.{invalid_transition, checked, validate_commit}
use sessionweft.MergeQueue.{
  MergeQueueStatus, queued, Method, no_review, no_tests, is_queued, is_merging, gates_passed,
}

pub data GitRepositoryError : Type 0 where
  not_found : String → GitRepositoryError
  stale_fence : GitRepositoryError
  conflict backend : String → GitRepositoryError

-- `to_string` of the error; an identifier is given as its text.
pub error_text : GitRepositoryError → String
error_text (not_found id) = append_text "Git worktree " (append_text id " not found")
error_text stale_fence = "Git worktree fence is stale or no longer owned by the Agent"
error_text (GitRepositoryError.conflict what) = append_text "Git worktree conflict: " what
error_text (backend what) = append_text "Git worktree backend failed: " what

unfoldable pub requeue_after_rebase : String → String → String → ℕ → Method
unfolding validate_commit
requeue_after_rebase target head reason now = do
  busy ← gets (λ e. is_merging e.status)
  refuse_if (not busy) (invalid_transition "merge queue entry must be merging before requeue")
  checked (validate_commit target)
  checked (validate_commit head)
  modify (λ e. record e {
    base_commit = target;
    head_commit = head;
    status = queued;
    review = no_review;
    tests = no_tests;
    merge_commit = none;
    conflict = none;
    last_error = some reason;
    updated_at = now;
  })

unfoldable pub requeue_after_target_move : String → ℕ → Method
unfolding validate_commit
requeue_after_target_move actual now = do
  busy ← gets (λ e. is_merging e.status)
  refuse_if (not busy) (invalid_transition "merge queue entry must be merging before retry")
  checked (validate_commit actual)
  modify (λ e. record e {
    status = queued;
    review = no_review;
    tests = no_tests;
    last_error = some (
        append_text "target branch moved to "
          (append_text actual "; rebase and gates are required"));
    updated_at = now;
  })

-- What `claim_next_merge` does to the entry that it loads, when its fence is not live: an entry that
-- is not queued or whose gates are not passed is passed over.
unfoldable pub reject_fence : GitRepositoryError → ℕ → Method
unfolding gates_passed error_text
reject_fence error now = do
  next ← gets (λ e. is_queued e.status && gates_passed e)
  (if next
      then modify (λ e. record e {
        status = MergeQueueStatus.failed;
        last_error = some (error_text error);
        updated_at = now;
      })
      else pure tt)

has_text : (s : String) → 0 < len s → is_empty_text s ≡ false
has_text String.[] h = ground arith
has_text (String.◌∷◌ c s) h = refl

prefixed : (s t : String) → 0 < len s → is_empty_text (append_text s t) ≡ false
prefixed s t h = has_text (append_text s t) (rw (len-append s t) (omega arith))

-- No error of the repository is without a text.
pub error_text-filled : (x : GitRepositoryError) → is_empty_text (error_text x) ≡ false
unfolding error_text
error_text-filled (not_found id) =
    prefixed "Git worktree " (append_text id " not found") (omega arith)
error_text-filled stale_fence = refl
error_text-filled (GitRepositoryError.conflict what) =
    prefixed "Git worktree conflict: " what (omega arith)
error_text-filled (backend what) = prefixed "Git worktree backend failed: " what (omega arith)
