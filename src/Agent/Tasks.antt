-- ===== src/Agent/Tasks.antt =====
-- What a task that is assigned or released changes: crates/sessionweft-execution/src/lib.rs.
use sessionweft.Common.{ℕ, String, ◌≡◌, true, none, some, trim, arith, is_ok, Io, Trace}
use sessionweft.Agent.{
  AgentRecord, assign_task, release_task, fail, is_running, ensure_version, advance,
}

pub record IsAssigned (a a' : AgentRecord) (task : String) : Type 0 where
  pub free : a.current_task_id ≡ none
  pub owns : a'.current_task_id ≡ some (trim task)
  pub runs : is_running a'.status ≡ true
  pub kept : a'.id ≡ a.id

pub assign_task-IsAssigned :
    (io : Io) (expected : ℕ) (task : String) (trace : Trace) (a : AgentRecord)
    → is_ok (assign_task io expected task trace a).0 ≡ true
    → IsAssigned a (assign_task io expected task trace a).1 task
unfolding assign_task
assign_task-IsAssigned io expected task trace a h = ground arith

pub record IsReleased (a a' : AgentRecord) : Type 0 where
  pub idle : a'.current_task_id ≡ none
  pub kept : a'.id ≡ a.id

pub release_task-IsReleased :
    (io : Io) (expected : ℕ) (trace : Trace) (a : AgentRecord)
    → is_ok (release_task io expected trace a).0 ≡ true
    → IsReleased a (release_task io expected trace a).1
unfolding release_task
release_task-IsReleased io expected trace a h = ground arith

-- A failure keeps the agent's identifier.
pub fail-id :
    (io : Io) (expected : ℕ) (error : String) (trace : Trace) (a : AgentRecord)
    → (fail io expected error trace a).1.id ≡ a.id
unfolding fail ensure_version advance
fail-id io expected error trace a = ground arith
