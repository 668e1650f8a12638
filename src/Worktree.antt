-- ===== src/Worktree.antt =====
-- crates/sessionweft-git/src/lib.rs: the record of a worktree and its life cycle.
pub mod Life
use sessionweft.Common.{
  ℕ, String, len, Bool, true, false, not, ◌||◌, Option, none, some, leb, ltb, ◌==◌, str_eq,
  if◌then◌else◌, trim, is_empty_text, is_whitespace, any_char, all_chars, starts_with_char,
  ends_with_char, has_pair, is_hex_digit, Result, ok, err, Exec, gets, modify, refuse_if, ◌>>=◌,
  ◌>>◌,
}

pub data GitWorktreeStatus : Type 0 where
  provisioning ready failed abandoned cleaned : GitWorktreeStatus

pub record GitFence : Type 0 where
  pub lock_id : ℕ
  pub fencing_token : ℕ
  pub expires_at : ℕ

pub record GitWorktreeRecord : Type 0 where
  pub schema_version : ℕ
  pub id : ℕ
  pub session_id : ℕ
  pub claim_id : ℕ
  pub agent_id : ℕ
  pub workspace_id : String
  pub repository_root : String
  pub branch_name : String
  pub worktree_path : String
  pub base_commit : String
  pub head_commit : Option String
  pub fence : GitFence
  pub status : GitWorktreeStatus
  pub last_error : Option String
  pub created_at : ℕ
  pub updated_at : ℕ

-- `Repository` and `Operation` errors are those of other components.
pub data GitWorkspaceError : Type 0 where
  validation invalid_transition : String → GitWorkspaceError

pub record WorktreeAllocationRequest : Type 0 where
  pub session_id : ℕ
  pub claim_id : ℕ
  pub agent_id : ℕ
  pub workspace_id : String
  pub repository_root : String
  pub branch_name : String
  pub worktree_path : String
  pub base_commit : String
  pub fence : GitFence

-- A chain of checks: each returns at the first that fails.
abbrev pub Check : Type 0
Check = Result GitWorkspaceError Unit

infixl 10 ◌>>!◌
abbrev pub ◌>>!◌ : Check → Check → Check
ok u >>! next = next
err e >>! next = err e

abbrev pub reject_if : Bool → String → Check
reject_if true message = err (validation message)
reject_if false message = ok tt

-- The source puts the name and the bound of the value into the message.
pub validate_identifier : String → ℕ → Check
validate_identifier value maximum =
    reject_if (is_empty_text (trim value) || ltb maximum (len (trim value)))
      "value must contain between 1 and its maximum of bytes"

pub validate_path : String → Check
unfolding validate_identifier
validate_path value =
    validate_identifier value 4096
    >>! reject_if (any_char (λ c. c == 0 || c == 0xa || c == 0xd) value)
        "path contains an invalid control character"

-- The tests on a Git reference that both files of the crate make.
unfoldable pub is_unsafe_reference : String → Bool
is_unsafe_reference value =
    starts_with_char b'-' value
    || starts_with_char b'/' value
    || ends_with_char b'/' value
    || ends_with_char b'.' value
    || has_pair b'.' b'.' value
    || has_pair b'@' 0x7b value
    || any_char
        (λ c.
          is_whitespace c
          || c == b'~'
          || c == b'^'
          || c == b':'
          || c == b'?'
          || c == b'*'
          || c == b'['
          || c == 0x5c)
        value

pub validate_branch : String → Check
unfolding validate_identifier is_unsafe_reference
validate_branch value =
    validate_identifier value 512
    >>! reject_if (is_unsafe_reference value) "branch name is not a safe Git reference"

unfoldable pub validate_commit : String → Check
validate_commit given =
    let value = trim given in
    reject_if (ltb (len value) 7 || ltb 64 (len value) || not (all_chars is_hex_digit value))
      "commit must be a 7 to 64 character hexadecimal object ID"

-- `WorktreeAllocationRequest::validate`.
pub validate_allocation : WorktreeAllocationRequest → ℕ → Check
unfolding validate_identifier validate_path validate_branch validate_commit
validate_allocation r now =
    validate_identifier r.workspace_id 256
    >>! validate_path r.repository_root
    >>! validate_path r.worktree_path
    >>! validate_branch r.branch_name
    >>! validate_commit r.base_commit
    >>! reject_if (str_eq r.repository_root r.worktree_path)
        "worktree path must differ from repository root"
    >>! reject_if (r.fence.fencing_token == 0)
        "worktree allocation requires a non-zero fencing token"
    >>! reject_if (leb r.fence.expires_at now) "worktree allocation fence is already expired"

pub provision : ℕ → WorktreeAllocationRequest → ℕ → GitWorktreeRecord
provision id r now = record {
  schema_version = 1;
  id = id;
  session_id = r.session_id;
  claim_id = r.claim_id;
  agent_id = r.agent_id;
  workspace_id = r.workspace_id;
  repository_root = r.repository_root;
  branch_name = r.branch_name;
  worktree_path = r.worktree_path;
  base_commit = r.base_commit;
  head_commit = none;
  fence = r.fence;
  status = provisioning;
  last_error = none;
  created_at = now;
  updated_at = now;
}

-- `GitWorktreeRecord::new`, with its identifier.
unfoldable pub new : ℕ → WorktreeAllocationRequest → ℕ → Result GitWorkspaceError GitWorktreeRecord
unfolding validate_allocation provision
new id r now = elim (validate_allocation r now) [ ok _ ↦ ok (provision id r now) | err e ↦ err e ]

abbrev pub Method : Type 0
Method = Exec GitWorktreeRecord GitWorkspaceError Unit

abbrev is_provisioning : GitWorktreeStatus → Bool
is_provisioning provisioning = true
is_provisioning _ = false

abbrev can_be_abandoned : GitWorktreeStatus → Bool
can_be_abandoned provisioning = true
can_be_abandoned ready = true
can_be_abandoned failed = true
can_be_abandoned _ = false

abbrev can_be_cleaned : GitWorktreeStatus → Bool
can_be_cleaned abandoned = true
can_be_cleaned failed = true
can_be_cleaned _ = false

ensure_provisioning : Method
ensure_provisioning w =
    if is_provisioning w.status
    then (ok tt, w)
    else (err (invalid_transition "worktree expected Provisioning"), w)

-- `validate_commit(..)?` on the way of a method.
abbrev pub checked : {S : Type 0} → Check → Exec S GitWorkspaceError Unit
checked c s = (c, s)

pub mark_ready : String → ℕ → Method
unfolding ensure_provisioning validate_commit
mark_ready head now = do
  ensure_provisioning
  checked (validate_commit head)
  modify (λ w. record w {
    head_commit = some head;
    status = ready;
    last_error = none;
    updated_at = now;
  })

pub mark_failed : String → ℕ → Method
unfolding ensure_provisioning
mark_failed given now = do
  ensure_provisioning
  let error = trim given
  refuse_if (is_empty_text error) (validation "failed worktree requires a sanitized error")
  modify (λ w. record w { status = failed; last_error = some error; updated_at = now })

pub mark_abandoned : String → ℕ → Method
mark_abandoned given now = do
  open_still ← gets (λ w. can_be_abandoned w.status)
  refuse_if (not open_still) (invalid_transition "worktree cannot be abandoned")
  let reason = trim given
  refuse_if (is_empty_text reason) (validation "abandoned worktree requires a reason")
  modify (λ w. record w { status = abandoned; last_error = some reason; updated_at = now })

pub mark_cleaned : ℕ → Method
mark_cleaned now = do
  over ← gets (λ w. can_be_cleaned w.status)
  refuse_if (not over) (invalid_transition "worktree cannot be cleaned")
  modify (λ w. record w { status = cleaned; updated_at = now })
