-- ===== src/Examples/Merges.antt =====
-- The merge queue: crates/sessionweft-git/src/merge_queue.rs.
use sessionweft.Common.{
  String, ◌≡◌, ◌≢◌, refl, List, [], ◌∷◌, none, some, arith, ok, true, pos, trim, eq_iff, any_char,
  all_chars, starts_with_char, ends_with_char, has_pair, is_hex_digit,
}
use sessionweft.Worktree.{GitWorktreeRecord, GitFence, ready, validate_commit}
use sessionweft.MergeQueue.{
  MergeGateStatus, MergeQueueEntry, MergeQueueRequest, queued, cancelled, new, validate_request,
  gates_passed,
}
use sessionweft.MergeQueue.Commands.{
  Command, reviews, tests, claims, begins, rebases, requeues, merges, cancels, perform, run, Edge,
  entry-Edge,
}
use sessionweft.MergeQueue.Recovery.{requeue_after_rebase}
use sessionweft.MergeQueue.Gates.{IsValid, run-entry-IsValid}
use sessionweft.MergeQueue.Enqueue.{Enqueues, new-Enqueues, new_padded_target}

abbrev fence : GitFence
fence = record { lock_id = 1; fencing_token = 1; expires_at = 900 }

abbrev worktree : GitWorktreeRecord
worktree = record {
  schema_version = 1;
  id = 4;
  session_id = 3;
  claim_id = 5;
  agent_id = 7;
  workspace_id = "workspace";
  repository_root = "/tmp/repository";
  branch_name = "task";
  worktree_path = "/tmp/worktrees/task";
  base_commit = "0123456789";
  head_commit = some "abcdef0";
  fence = fence;
  status = ready;
  last_error = none;
  created_at = 100;
  updated_at = 100;
}

abbrev to_main : MergeQueueRequest
to_main = record { worktree_id = 4; target_branch = "main"; priority = pos 0 }

abbrev entry : MergeQueueEntry
entry = record {
  schema_version = 2;
  id = 8;
  sequence = 1;
  priority = pos 0;
  worktree_id = 4;
  session_id = 3;
  claim_id = 5;
  agent_id = 7;
  workspace_id = "workspace";
  repository_root = "/tmp/repository";
  worktree_path = "/tmp/worktrees/task";
  source_branch = "task";
  target_branch = "main";
  base_commit = "0123456789";
  head_commit = "abcdef0";
  merge_commit = none;
  fence = fence;
  review = record {
    status = MergeGateStatus.pending;
    reviewer_id = none;
    note = none;
    decided_at = none;
  };
  tests = record {
    status = MergeGateStatus.pending;
    suite = none;
    summary = none;
    completed_at = none;
  };
  status = queued;
  conflict = none;
  cancellation_reason = none;
  last_error = none;
  created_at = 200;
  updated_at = 200;
}

enqueues : new 8 to_main worktree 1 200 ≡ ok entry
unfolding new validate_request any_char all_chars starts_with_char ends_with_char has_pair
    is_hex_digit trim validate_commit
enqueues = refl

abbrev script : List Command
script =
    record { now = 300; operation = claims }
    ∷ record { now = 301; operation = reviews "reviewer" true none }
    ∷ record { now = 302; operation = tests "suite" true none }
    ∷ record { now = 303; operation = claims }
    ∷ record { now = 304; operation = begins }
    ∷ record { now = 305; operation = merges "fedcba9" }
    ∷ []

run-entry-IsValid_example : IsValid (run entry script)
run-entry-IsValid_example = run-entry-IsValid 8 to_main worktree 1 200 entry script enqueues

-- A merge that finds its target moved, and rebases.
abbrev rebased : MergeQueueEntry
rebased = run entry (
    record { now = 301; operation = reviews "reviewer" true none }
    ∷ record { now = 302; operation = tests "suite" true none }
    ∷ record { now = 303; operation = claims }
    ∷ record { now = 304; operation = begins }
    ∷ record { now = 305; operation = rebases "fedcba9" }
    ∷ record { now = 306; operation = requeues "1234567" "fedcba9" "rebased" }
    ∷ [])

requeued :
    (rebased.status ≡ queued)
    × (rebased.review.status ≡ MergeGateStatus.pending)
    × (rebased.base_commit ≡ "1234567")
unfolding run perform requeue_after_rebase gates_passed all_chars is_hex_digit trim validate_commit
requeued = (refl, refl, refl)

entry-Edge_example : Edge queued cancelled
unfolding perform trim
entry-Edge_example = entry-Edge (record { now = 300; operation = cancels "superseded" }) entry

new-Enqueues_example : Enqueues 8 1 200 to_main worktree entry
new-Enqueues_example = new-Enqueues 8 to_main worktree 1 200 entry enqueues

abbrev padded : MergeQueueRequest
padded = record to_main { target_branch = " task" }

padded_is_other : ◌≢◌ {A = String} " task" "task"
padded_is_other = ground (arith, eq_iff " task" "task")

new_padded_target_example :
    (e : MergeQueueEntry) × (new 8 padded worktree 1 200 ≡ ok e)
    × (e.source_branch ≡ trim e.target_branch)
    × (e.target_branch ≡ " task")
unfolding validate_request any_char all_chars starts_with_char ends_with_char has_pair is_hex_digit
    trim validate_commit
new_padded_target_example =
    new_padded_target 8 padded worktree 1 200 "abcdef0" refl refl refl refl refl (omega arith) refl
      padded_is_other
