-- ===== src/Agent.antt =====
-- crates/sessionweft-execution/src/lib.rs: the record of an agent and its life cycle. A set of
-- capabilities is the list of its elements in ascending order.
pub mod Commands
pub mod Ownership
pub mod Tasks
use sessionweft.Common.{
  ℕ, ◌+◌, ◌*◌, String, len, Bool, true, false, not, ◌&&◌, ◌||◌, Option, none, some, List, [], ◌∷◌,
  any, ltb, leb, ◌==◌, str_eq, if◌then◌else◌, u64_max, saturating_suc, is_blank, trim,
  is_empty_text, Result, ok, err, Exec, gets, modify, refuse_if, or_raise, ◌>>=◌, ◌>>◌, Io, Trace,
  Value, Fields, num, uuid, str, time, obj, field, end, EventEnvelope, new_event, ◌-◌,
}
use Prim.Native.Nat.{◌/◌}

pub data AgentRole : Type 0 where
  planner architect worker reviewer tester merger : AgentRole

pub data Capability : Type 0 where
  provider workspace_read workspace_write git_read git_write terminal network secret_read :
      Capability
  tool : String → Capability

pub record AgentManifest : Type 0 where
  pub name : String
  pub role : AgentRole
  pub capabilities : List Capability
  pub heartbeat_timeout_seconds : ℕ

pub data AgentStatus : Type 0 where
  registered running stopped failed : AgentStatus

pub record AgentRecord : Type 0 where
  pub schema_version : ℕ
  pub id : ℕ
  pub session_id : ℕ
  pub version : ℕ
  pub manifest : AgentManifest
  pub status : AgentStatus
  pub heartbeat_at : ℕ
  pub current_task_id : Option String
  pub last_error : Option String
  pub created_at : ℕ
  pub updated_at : ℕ

pub data ExecutionError : Type 0 where
  validation : String → ExecutionError
  invalid_transition : String → ExecutionError
  version_conflict : ℕ → ℕ → ExecutionError

abbrev pub Method : Type 0 → Type 0
Method A = Exec AgentRecord ExecutionError A

abbrev is_unnamed_tool : Capability → Bool
is_unnamed_tool (tool name) = is_blank name
is_unnamed_tool _ = false

-- `AgentManifest::validate`.
pub validate_manifest : AgentManifest → Result ExecutionError Unit
validate_manifest m =
    if is_blank m.name
    then err (validation "agent name cannot be empty")
    else if ltb 128 (len m.name)
    then err (validation "agent name cannot exceed 128 bytes")
    else if ltb m.heartbeat_timeout_seconds 5 || ltb 3600 m.heartbeat_timeout_seconds
    then err (validation "heartbeat timeout must be between 5 and 3600 seconds")
    else if any is_unnamed_tool m.capabilities
    then err (validation "tool capability name cannot be empty")
    else ok tt

registration : Io → ℕ → AgentManifest → AgentRecord
registration io session_id m = record {
  schema_version = 1;
  id = io.uuid 0;
  session_id = session_id;
  version = 0;
  manifest = m;
  status = registered;
  heartbeat_at = io.clock 0;
  current_task_id = none;
  last_error = none;
  created_at = io.clock 0;
  updated_at = io.clock 0;
}

-- `AgentRecord::new`.
unfoldable pub new : Io → ℕ → AgentManifest → Result ExecutionError AgentRecord
unfolding validate_manifest registration
new io session_id m = elim (validate_manifest m) [
  | ok _ ↦ ok (registration io session_id m)
  | err e ↦ err e
]

abbrev pub is_running : AgentStatus → Bool
is_running running = true
is_running _ = false

abbrev can_start : AgentStatus → Bool
can_start registered = true
can_start stopped = true
can_start _ = false

abbrev pub is_some {ℓ} : {A : Type ℓ} → Option A → Bool
is_some none = false
is_some (some a) = true

ensure_version : ℕ → Method Unit
ensure_version expected a =
    if a.version == expected then (ok tt, a) else (err (version_conflict expected a.version), a)

ensure_running : ℕ → Method Unit
unfolding ensure_version
ensure_running expected = do
  ensure_version expected
  up ← gets (λ a. is_running a.status)
  refuse_if (not up) (invalid_transition "agent is not running")

advance : ℕ → AgentRecord → AgentRecord
advance now a = record a { version = saturating_suc u64_max a.version; updated_at = now }

role_name : AgentRole → String
role_name planner = "planner"
role_name architect = "architect"
role_name worker = "worker"
role_name reviewer = "reviewer"
role_name tester = "tester"
role_name merger = "merger"

status_name : AgentStatus → String
status_name registered = "registered"
status_name running = "running"
status_name stopped = "stopped"
status_name failed = "failed"

-- `AgentRecord::event`, with the `c`-th reading of the clock.
agent_event : Io → ℕ → String → Trace → Value → AgentRecord → EventEnvelope
unfolding role_name status_name
agent_event io c event_type trace details a =
    new_event (io.uuid 0) (io.clock c) event_type (some a.session_id) trace (
      obj (
        field "agent_id" (uuid a.id) (
          field "agent_version" (num a.version) (
            field "status" (str (status_name a.status))
              (field "role" (str (role_name a.manifest.role)) (field "details" details end))))))

pub start : Io → ℕ → Trace → Method EventEnvelope
unfolding ensure_version advance agent_event
start io expected trace = do
  ensure_version expected
  free ← gets (λ a. can_start a.status)
  refuse_if (not free) (invalid_transition "only registered or stopped agents can start")
  modify (λ a. record a { status = running; last_error = none; heartbeat_at = io.clock 0 })
  modify (advance (io.clock 1))
  gets (agent_event io 2 "agent.started" trace (obj end))

pub heartbeat : Io → ℕ → Trace → Method EventEnvelope
unfolding ensure_running advance agent_event
heartbeat io expected trace = do
  ensure_running expected
  modify (λ a. record a { heartbeat_at = io.clock 0 })
  modify (advance (io.clock 1))
  gets (
      agent_event io 2 "agent.heartbeat" trace (obj (field "heartbeat_at" (time (io.clock 0)) end)))

unfoldable pub assign_task : Io → ℕ → String → Trace → Method EventEnvelope
unfolding ensure_running advance agent_event
assign_task io expected given trace = do
  ensure_running expected
  owns ← gets (λ a. is_some a.current_task_id)
  refuse_if owns (invalid_transition "agent already owns a task")
  let task = trim given
  refuse_if (is_empty_text task) (validation "task ID cannot be empty")
  modify (λ a. record a { current_task_id = some task })
  modify (advance (io.clock 0))
  gets (agent_event io 1 "agent.task_assigned" trace (obj (field "task_id" (str task) end)))

unfoldable pub release_task : Io → ℕ → Trace → Method EventEnvelope
unfolding ensure_running advance agent_event
release_task io expected trace = do
  ensure_running expected
  owned ← gets (λ a. a.current_task_id)
  modify (λ a. record a { current_task_id = none })
  task ← or_raise (invalid_transition "agent does not own a task") owned
  modify (advance (io.clock 0))
  gets (agent_event io 1 "agent.task_released" trace (obj (field "task_id" (str task) end)))

unfoldable pub fail : Io → ℕ → String → Trace → Method EventEnvelope
unfolding ensure_version advance agent_event
fail io expected error trace = do
  ensure_version expected
  modify (λ a. record a { status = failed; current_task_id = none; last_error = some error })
  modify (advance (io.clock 0))
  gets (agent_event io 1 "agent.failed" trace (obj (field "error" (str error) end)))

pub stop : Io → ℕ → Trace → Method EventEnvelope
unfolding ensure_running advance agent_event
stop io expected trace = do
  ensure_running expected
  owns ← gets (λ a. is_some a.current_task_id)
  refuse_if owns (invalid_transition "release the current task before stopping the agent")
  modify (λ a. record a { status = stopped })
  modify (advance (io.clock 0))
  gets (agent_event io 1 "agent.stopped" trace (obj end))

-- `num_seconds` truncates; an instant before the heartbeat gives no positive number.
unfoldable pub is_stale_at : AgentRecord → ℕ → Bool
is_stale_at a now =
    is_running a.status
    && ltb a.manifest.heartbeat_timeout_seconds ((now - a.heartbeat_at) / 1000000000)
