-- ===== src/Examples/Worktrees.antt =====
-- A worktree from its allocation to its cleaning: crates/sessionweft-git/src/lib.rs.
use sessionweft.Common.{
  ◌≡◌, refl, List, [], ◌∷◌, none, ok, is_hex_digit, trim, all_chars, any_char, starts_with_char,
  ends_with_char, has_pair, is_whitespace,
}
use sessionweft.Worktree.{
  GitWorktreeRecord, provisioning, cleaned, WorktreeAllocationRequest, GitFence, new,
  is_unsafe_reference, validate_commit,
}
use sessionweft.Worktree.Life.{
  Command, Operation, readies, abandons, cleans, run, IsValid, run-worktree-IsValid, perform,
}

abbrev fence : GitFence
fence = record { lock_id = 4; fencing_token = 1; expires_at = 900 }

abbrev request : WorktreeAllocationRequest
request = record {
  session_id = 3;
  claim_id = 5;
  agent_id = 7;
  workspace_id = "ws";
  repository_root = "/repo";
  branch_name = "agent/fix";
  worktree_path = "/trees/fix";
  base_commit = "0123abcd";
  fence = fence;
}

abbrev allocated : GitWorktreeRecord
allocated = record {
  schema_version = 1;
  id = 9;
  session_id = 3;
  claim_id = 5;
  agent_id = 7;
  workspace_id = "ws";
  repository_root = "/repo";
  branch_name = "agent/fix";
  worktree_path = "/trees/fix";
  base_commit = "0123abcd";
  head_commit = none;
  fence = fence;
  status = provisioning;
  last_error = none;
  created_at = 100;
  updated_at = 100;
}

made : new 9 request 100 ≡ ok allocated
unfolding new validate_commit is_unsafe_reference trim all_chars any_char starts_with_char
    ends_with_char has_pair is_hex_digit is_whitespace
made = refl

abbrev command : Operation → Command
command o = record { now = 200; operation = o }

abbrev history : List Command
history =
    command (readies "fedcba9")
    ∷ command cleans
    ∷ command (abandons "superseded")
    ∷ command cleans
    ∷ []

ends_cleaned : (run allocated history).status ≡ cleaned
unfolding run perform validate_commit trim all_chars is_hex_digit is_whitespace
ends_cleaned = refl

run-worktree-IsValid_example : IsValid (run allocated history)
run-worktree-IsValid_example = run-worktree-IsValid 9 request 100 allocated history made
