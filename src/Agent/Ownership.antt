-- ===== src/Agent/Ownership.antt =====
-- Who owns a task, and which states an agent can reach: crates/sessionweft-execution/src/lib.rs.
use sessionweft.Common.{
  ℕ, ◌≤◌, String, ◌≡◌, true, false, Option, none, some, List, [], ◌∷◌, arith, is_empty_text,
  u64_max, saturating_suc-le, ok, Io,
}
use sessionweft.Agent.{
  AgentRecord, AgentManifest, AgentStatus, registered, running, stopped, failed, new, is_some,
}
use sessionweft.Agent.Commands.{Command, Operation, starts, perform, execute, run}

abbrev pub IsNamed : Option String → Type 0
IsNamed none = Unit {0}
IsNamed (some task) = is_empty_text task ≡ false

pub record IsValid (a : AgentRecord) : Type 0 where
  pub working : is_some a.current_task_id ≡ true → a.status ≡ running
  pub named : IsNamed a.current_task_id
  pub blamed : a.status ≡ failed → is_some a.last_error ≡ true
  pub counted : a.version ≤ u64_max

new-IsValid :
    (io : Io) (session : ℕ) (m : AgentManifest) {a : AgentRecord}
    → new io session m ≡ ok a
    → IsValid a
unfolding new
new-IsValid io session m h = ground arith

perform-IsValid :
    (c : Command) (o : Operation) (a : AgentRecord) → IsValid a → IsValid (perform c o a).1
unfolding perform
perform-IsValid c starts a v = ground (arith, saturating_suc-le u64_max a.version)
perform-IsValid c _ a v = ground (arith, saturating_suc-le u64_max a.version)

run-IsValid : (a : AgentRecord) (cs : List Command) → IsValid a → IsValid (run a cs)
unfolding run
run-IsValid a [] v = v
run-IsValid a (c ∷ cs) v = run-IsValid (execute c a).1 cs (perform-IsValid c c.operation a v)

-- A registered agent, after any operations, succeeding or not: it owns a task only while it runs, the
-- task has a name that is not empty, a failed agent has an error, and the version fits u64.
pub run-agent-IsValid :
    (io : Io) (session : ℕ) (m : AgentManifest) (a : AgentRecord) (cs : List Command)
    → new io session m ≡ ok a
    → IsValid (run a cs)
run-agent-IsValid io session m a cs h = run-IsValid a cs (new-IsValid io session m h)

-- The edges of the life cycle.
pub data Edge : AgentStatus → AgentStatus → Type 0 where
  stay : {s : AgentStatus} → Edge s s
  begin : Edge registered running
  resume : Edge stopped running
  halt : Edge running stopped
  break : {s : AgentStatus} → Edge s failed

perform-Edge :
    (c : Command) (o : Operation) (a : AgentRecord) → Edge a.status (perform c o a).1.status
unfolding perform
perform-Edge c starts a = grind (arith, stay, begin, resume, halt, break)
perform-Edge c _ a = grind (arith, stay, begin, resume, halt, break)

-- Every operation follows an edge of the life cycle: an agent starts when registered or stopped,
-- stops when running, and may fail at any time.
pub agent-Edge : (c : Command) (a : AgentRecord) → Edge a.status (execute c a).1.status
agent-Edge c a = perform-Edge c c.operation a

perform_failed :
    (c : Command) (o : Operation) (a : AgentRecord)
    → a.status ≡ failed
    → (perform c o a).1.status ≡ failed
unfolding perform
perform_failed c starts a h = ground arith
perform_failed c _ a h = ground arith

-- A failed agent stays failed, and gets no task, whatever operations follow.
pub failed_absorbs :
    (a : AgentRecord) (cs : List Command)
    → IsValid a
    → a.status ≡ failed
    → ((run a cs).status ≡ failed) × ((run a cs).current_task_id ≡ none)
unfolding run
failed_absorbs a [] v h = (h, ground arith)
failed_absorbs a (c ∷ cs) v h =
    failed_absorbs (execute c a).1 cs (perform-IsValid c c.operation a v)
      (perform_failed c c.operation a h)
