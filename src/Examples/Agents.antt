-- ===== src/Examples/Agents.antt =====
-- Agents: crates/sessionweft-execution/src/lib.rs.
use sessionweft.Common.{
  ℕ, ◌+◌, ◌≡◌, refl, List, [], ◌∷◌, none, some, arith, ok, err, Io, Trace, is_blank, any,
  saturating_suc,
}
use sessionweft.Agent.{
  AgentRecord, AgentManifest, worker, registered, failed, version_conflict, new, Capability,
}
use sessionweft.Agent.Commands.{
  Command, Operation, starts, assigns, fails, perform, execute, run, second_operation_conflicts,
}
use sessionweft.Agent.Ownership.{IsValid, run-agent-IsValid}

abbrev io : Io
io = record { clock = λ n. 100 + n; uuid = λ n. 7 + n }

abbrev trace : Trace
trace = record { correlation_id = 1; actor_id = none }

abbrev manifest : AgentManifest
manifest = record {
  name = "worker-1";
  role = worker;
  capabilities = Capability.git_read ∷ Capability.tool "grep" ∷ [];
  heartbeat_timeout_seconds = 30;
}

abbrev fresh_agent : AgentRecord
fresh_agent = record {
  schema_version = 1;
  id = 7;
  session_id = 3;
  version = 0;
  manifest = manifest;
  status = registered;
  heartbeat_at = 100;
  current_task_id = none;
  last_error = none;
  created_at = 100;
  updated_at = 100;
}

registers : new io 3 manifest ≡ ok fresh_agent
unfolding new is_blank any
registers = refl

abbrev call : ℕ → Operation → Command
call version o = record { io = io; trace = trace; expected = version; operation = o }

abbrev script : List Command
script = call 0 starts ∷ call 1 (assigns " build ") ∷ call 1 starts ∷ call 2 (fails "lost") ∷ []

run-agent-IsValid_example : IsValid (run fresh_agent script)
run-agent-IsValid_example = run-agent-IsValid io 3 manifest fresh_agent script registers

second_operation_conflicts_example :
    execute (call 0 (fails "late")) (execute (call 0 starts) fresh_agent).1
    ≡ (err (version_conflict 0 1), (execute (call 0 starts) fresh_agent).1)
unfolding perform saturating_suc
second_operation_conflicts_example =
    second_operation_conflicts (call 0 starts) (call 0 (fails "late")) fresh_agent refl
      (omega arith) refl

abbrev failed_agent : AgentRecord
failed_agent = record fresh_agent { status = failed; last_error = some "lost" }
