-- ===== src/MergeQueue/Enqueue.antt =====
-- Which worktrees enter the merge queue: crates/sessionweft-git/src/merge_queue.rs,
-- `MergeQueueEntry::new` and `validate_branch`.
use sessionweft.Common.{
  ℕ, ◌<◌, String, ◌≡◌, refl, ◌≢◌, true, false, none, some, arith, is_ok, ok, trim, eq_iff, within,
  ==_iff,
}
use sessionweft.Worktree.{GitWorktreeRecord, ready, validate_commit, is_unsafe_reference}
use sessionweft.MergeQueue.{
  MergeQueueEntry, queued, MergeQueueRequest, new, check_enqueue, validate_request, enqueued,
  no_review, no_tests,
}

-- What an enqueued entry tells of the worktree and of the request, and what it starts with.
pub record Enqueues (id sequence now : ℕ) (r : MergeQueueRequest) (w : GitWorktreeRecord)
    (e : MergeQueueEntry) : Type 0 where
  pub waiting : e.status ≡ queued
  pub unreviewed : e.review ≡ no_review
  pub untested : e.tests ≡ no_tests
  pub named : e.id ≡ id
  pub chosen : w.id ≡ r.worktree_id
  pub worktree : e.worktree_id ≡ w.id
  pub session : e.session_id ≡ w.session_id
  pub claimed : e.claim_id ≡ w.claim_id
  pub agent : e.agent_id ≡ w.agent_id
  pub workspace : e.workspace_id ≡ w.workspace_id
  pub repository : e.repository_root ≡ w.repository_root
  pub path : e.worktree_path ≡ w.worktree_path
  pub fenced : e.fence ≡ w.fence
  pub provisioned : w.status ≡ ready
  pub source : e.source_branch ≡ w.branch_name
  pub target : e.target_branch ≡ r.target_branch
  pub safe : is_unsafe_reference (trim e.target_branch) ≡ false
  pub distinct : e.target_branch ≢ e.source_branch
  pub base : e.base_commit ≡ w.base_commit
  pub head : w.head_commit ≡ some e.head_commit
  pub order : e.sequence ≡ sequence
  pub numbered : 0 < e.sequence
  pub priority : e.priority ≡ r.priority
  pub ranked : within 1000 e.priority ≡ true
  pub unmerged : e.merge_commit ≡ none
  pub undisturbed : e.conflict ≡ none
  pub uncancelled : e.cancellation_reason ≡ none
  pub blameless : e.last_error ≡ none
  pub created : e.created_at ≡ now
  pub updated : e.updated_at ≡ now

-- An entry is queued under the given identifier and sequence for the ready worktree that the request
-- names: it takes the worktree's identifiers, paths, source branch, base and fence, its head commit as
-- the head, and the request's target and priority; both gates are pending, and nothing is merged, in
-- conflict, cancelled or blamed. The trimmed target is a safe reference, the target differs from the
-- source, the sequence is positive and the priority lies between -1000 and 1000.
pub new-Enqueues :
    (id : ℕ) (r : MergeQueueRequest) (w : GitWorktreeRecord) (sequence now : ℕ)
    (e : MergeQueueEntry)
    → new id r w sequence now ≡ ok e
    → Enqueues id sequence now r w e
unfolding new check_enqueue validate_request
new-Enqueues id r w sequence now e h =
    ground (arith, eq_iff r.target_branch w.branch_name, ==_iff w.id r.worktree_id)

-- The target is compared with the source as it was given, after a validation that trims it: a target
-- that is the source branch with white space around it is accepted, and is stored as it was given.
pub new_padded_target :
    (id : ℕ) (r : MergeQueueRequest) (w : GitWorktreeRecord) (sequence now : ℕ) (head : String)
    → is_ok (validate_request r) ≡ true
    → w.id ≡ r.worktree_id
    → w.status ≡ ready
    → w.head_commit ≡ some head
    → is_ok (validate_commit head) ≡ true
    → 0 < sequence
    → trim r.target_branch ≡ w.branch_name
    → r.target_branch ≢ w.branch_name
    → (e : MergeQueueEntry) × (new id r w sequence now ≡ ok e)
      × (e.source_branch ≡ trim e.target_branch)
      × (e.target_branch ≡ r.target_branch)
unfolding new check_enqueue
new_padded_target id r w sequence now head valid same up at good room padded other = (
  enqueued id r w head sequence now,
  ground (arith, eq_iff r.target_branch w.branch_name, ==_iff w.id r.worktree_id),
  unfold enqueued in ground arith,
  unfold enqueued in refl,
)
