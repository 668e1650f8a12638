-- ===== src/MergeQueue.antt =====
-- crates/sessionweft-git/src/merge_queue.rs: an entry of the merge queue and its life cycle.
pub mod Recovery
pub mod Commands
pub mod Gates
pub mod Enqueue
use sessionweft.Common.{
  ℕ, zero, suc, String, len, Bool, true, false, not, ◌&&◌, ◌||◌, Option, none, some, List, [], ◌∷◌,
  map, filter, is_empty, ltb, ◌==◌, str_eq, if◌then◌else◌, is_blank, trim, is_empty_text, ℤ, within,
  Result, ok, err, Exec, gets, modify, refuse_if, ◌>>=◌, ◌>>◌,
}
use Prim.Native.String.{compare}
use text.Mathlib.Text.{is_lt}
use sessionweft.Worktree.{
  GitWorktreeRecord, GitWorktreeStatus, ready, GitFence, GitWorkspaceError, validation,
  invalid_transition, Check, ◌>>!◌, reject_if, checked, is_unsafe_reference, validate_commit,
}

pub data MergeGateStatus : Type 0 where
  pending passed failed : MergeGateStatus

pub record ReviewGate : Type 0 where
  pub status : MergeGateStatus
  pub reviewer_id : Option String
  pub note : Option String
  pub decided_at : Option ℕ

pub record TestGate : Type 0 where
  pub status : MergeGateStatus
  pub suite : Option String
  pub summary : Option String
  pub completed_at : Option ℕ

abbrev pub no_review : ReviewGate
no_review = record { status = pending; reviewer_id = none; note = none; decided_at = none }

abbrev pub no_tests : TestGate
no_tests = record { status = pending; suite = none; summary = none; completed_at = none }

pub data MergeQueueStatus : Type 0 where
  queued claimed merging conflict merged cancelled failed : MergeQueueStatus

pub record MergeConflict : Type 0 where
  pub paths : List String
  pub detected_at : ℕ

pub record MergeQueueRequest : Type 0 where
  pub worktree_id : ℕ
  pub target_branch : String
  pub priority : ℤ

pub record MergeQueueEntry : Type 0 where
  pub schema_version : ℕ
  pub id : ℕ
  pub sequence : ℕ
  pub priority : ℤ
  pub worktree_id : ℕ
  pub session_id : ℕ
  pub claim_id : ℕ
  pub agent_id : ℕ
  pub workspace_id : String
  pub repository_root : String
  pub worktree_path : String
  pub source_branch : String
  pub target_branch : String
  pub base_commit : String
  pub head_commit : String
  pub merge_commit : Option String
  pub fence : GitFence
  pub review : ReviewGate
  pub tests : TestGate
  pub status : MergeQueueStatus
  pub conflict : Option MergeConflict
  pub cancellation_reason : Option String
  pub last_error : Option String
  pub created_at : ℕ
  pub updated_at : ℕ

-- `validate_branch`: the tests are made on the trimmed value.
validate_branch : String → Check
unfolding is_unsafe_reference
validate_branch given =
    let value = trim given in
    reject_if (is_empty_text value || ltb 512 (len value) || is_unsafe_reference value)
      "target branch is not a safe Git reference"

-- `MergeQueueRequest::validate`.
unfoldable pub validate_request : MergeQueueRequest → Check
unfolding validate_branch
validate_request r =
    validate_branch r.target_branch
    >>! reject_if (not (within 1000 r.priority))
        "merge queue priority must be between -1000 and 1000"

abbrev is_worktree_ready : GitWorktreeStatus → Bool
is_worktree_ready ready = true
is_worktree_ready _ = false

pub enqueued : ℕ → MergeQueueRequest → GitWorktreeRecord → String → ℕ → ℕ → MergeQueueEntry
enqueued id r w head sequence now = record {
  schema_version = 2;
  id = id;
  sequence = sequence;
  priority = r.priority;
  worktree_id = w.id;
  session_id = w.session_id;
  claim_id = w.claim_id;
  agent_id = w.agent_id;
  workspace_id = w.workspace_id;
  repository_root = w.repository_root;
  worktree_path = w.worktree_path;
  source_branch = w.branch_name;
  target_branch = r.target_branch;
  base_commit = w.base_commit;
  head_commit = head;
  merge_commit = none;
  fence = w.fence;
  review = no_review;
  tests = no_tests;
  status = queued;
  conflict = none;
  cancellation_reason = none;
  last_error = none;
  created_at = now;
  updated_at = now;
}

pub check_enqueue : MergeQueueRequest → GitWorktreeRecord → Check
unfolding validate_request
check_enqueue r w =
    validate_request r
    >>! reject_if (not (w.id == r.worktree_id)) "merge request references a different worktree"
    >>! (if is_worktree_ready w.status
        then ok tt
        else err (invalid_transition "worktree must be ready before enqueue"))
    >>! reject_if (str_eq r.target_branch w.branch_name) "source and target branches must differ"

-- `MergeQueueEntry::new`, with its identifier.
unfoldable pub new :
    ℕ → MergeQueueRequest → GitWorktreeRecord → ℕ → ℕ → Result GitWorkspaceError MergeQueueEntry
unfolding check_enqueue validate_commit enqueued
new id r w sequence now = elim (check_enqueue r w) [
  | err e ↦ err e
  | ok _ ↦ elim w.head_commit [
    | none ↦ err (validation "ready worktree is missing its head commit")
    | some head ↦ elim (validate_commit head) [
      | err e ↦ err e
      | ok _ ↦
          if sequence == 0
          then err (validation "merge queue sequence must be non-zero")
          else ok (enqueued id r w head sequence now)
    ]
  ]
]

abbrev pub is_passed : MergeGateStatus → Bool
is_passed passed = true
is_passed _ = false

unfoldable pub gates_passed : MergeQueueEntry → Bool
gates_passed e = is_passed e.review.status && is_passed e.tests.status

abbrev pub Method : Type 0
Method = Exec MergeQueueEntry GitWorkspaceError Unit

abbrev pub is_queued : MergeQueueStatus → Bool
is_queued queued = true
is_queued _ = false

abbrev is_claimed : MergeQueueStatus → Bool
is_claimed claimed = true
is_claimed _ = false

abbrev pub is_merging : MergeQueueStatus → Bool
is_merging merging = true
is_merging _ = false

ensure_queued : Method
ensure_queued e =
    if is_queued e.status
    then (ok tt, e)
    else (err (invalid_transition "merge queue entry is not queued"), e)

ensure_merging : Method
ensure_merging e =
    if is_merging e.status
    then (ok tt, e)
    else (err (invalid_transition "merge queue entry is not merging"), e)

-- `value.filter(|value| !value.trim().is_empty())`.
abbrev keep_text : Option String → Option String
keep_text none = none
keep_text (some value) = if is_blank value then none else some value

abbrev verdict : Bool → MergeGateStatus
verdict true = passed
verdict false = failed

pub record_review : String → Bool → Option String → ℕ → Method
unfolding ensure_queued
record_review given approved note now = do
  ensure_queued
  let reviewer = trim given
  refuse_if (is_empty_text reviewer) (validation "review decision requires a reviewer ID")
  modify (λ e. record e {
    review = record {
      status = verdict approved;
      reviewer_id = some reviewer;
      note = keep_text note;
      decided_at = some now;
    };
    updated_at = now;
  })

pub record_tests : String → Bool → Option String → ℕ → Method
unfolding ensure_queued
record_tests given success summary now = do
  ensure_queued
  let suite = trim given
  refuse_if (is_empty_text suite) (validation "test decision requires a suite name")
  modify (λ e. record e {
    tests = record {
      status = verdict success;
      suite = some suite;
      summary = keep_text summary;
      completed_at = some now;
    };
    updated_at = now;
  })

pub cancel : String → ℕ → Method
cancel given now = do
  early ← gets (λ e. is_queued e.status || is_claimed e.status)
  refuse_if (not early) (invalid_transition "merge queue entry cannot be cancelled")
  let reason = trim given
  refuse_if (is_empty_text reason) (validation "merge cancellation requires a reason")
  modify (λ e. record e { status = cancelled; cancellation_reason = some reason; updated_at = now })

pub claim : ℕ → Method
unfolding ensure_queued gates_passed
claim now = do
  ensure_queued
  both ← gets gates_passed
  refuse_if (not both)
      (invalid_transition "merge entry cannot be claimed until review and tests pass")
  modify (λ e. record e { status = claimed; updated_at = now })

pub begin_merge : ℕ → Method
begin_merge now = do
  held ← gets (λ e. is_claimed e.status)
  refuse_if (not held) (invalid_transition "merge queue entry must be claimed before merge")
  modify (λ e. record e { status = merging; updated_at = now })

pub record_rebased_head : String → ℕ → Method
unfolding ensure_merging validate_commit
record_rebased_head head now = do
  ensure_merging
  checked (validate_commit head)
  modify (λ e. record e { head_commit = head; updated_at = now })

-- `Vec::sort` and `Vec::dedup` on the paths.
insert_sorted : String → List String → List String
insert_sorted p [] = p ∷ []
insert_sorted p (q ∷ qs) =
    let rest = insert_sorted p qs in if is_lt (compare q p) then q ∷ rest else p ∷ q ∷ qs

sort : List String → List String
unfolding insert_sorted
sort [] = []
sort (p ∷ ps) = insert_sorted p (sort ps)

-- The first of each run of equal paths stays.
drop_repeats : String → List String → List String
drop_repeats last [] = []
drop_repeats last (p ∷ ps) =
    let rest = drop_repeats p ps in if str_eq last p then rest else p ∷ rest

dedup : List String → List String
unfolding drop_repeats
dedup [] = []
dedup (p ∷ ps) = p ∷ drop_repeats p ps

pub clean_paths : List String → List String
unfolding sort dedup
clean_paths paths = dedup (sort (filter (λ p. not (is_empty_text p)) (map trim paths)))

pub mark_conflict : List String → ℕ → Method
unfolding ensure_merging clean_paths
mark_conflict given now = do
  ensure_merging
  let paths = clean_paths given
  refuse_if (is_empty paths) (validation "merge conflict requires at least one path")
  modify (λ e. record e {
    status = conflict;
    conflict = some (record { paths = paths; detected_at = now });
    updated_at = now;
  })

pub mark_merged : String → ℕ → Method
unfolding ensure_merging validate_commit
mark_merged commit now = do
  ensure_merging
  checked (validate_commit commit)
  modify (λ e. record e { status = merged; merge_commit = some commit; updated_at = now })

pub mark_failed : String → ℕ → Method
mark_failed given now = do
  busy ← gets (λ e. is_claimed e.status || is_merging e.status)
  refuse_if (not busy) (invalid_transition "merge queue entry cannot fail")
  let error = trim given
  refuse_if (is_empty_text error) (validation "failed merge requires a sanitized error")
  modify (λ e. record e {
    status = MergeQueueStatus.failed;
    last_error = some error;
    updated_at = now;
  })
