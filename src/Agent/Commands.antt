-- ===== src/Agent/Commands.antt =====
-- The operations on an agent as commands: crates/sessionweft-execution/src/lib.rs.
use sessionweft.Common.{
  ℕ, ◌+◌, ◌<◌, String, ◌≡◌, ◌∙◌, true, List, [], ◌∷◌, arith, u64_max, saturating_suc,
  saturating_suc-eq, err, is_ok, Io, Trace, EventEnvelope,
}
use sessionweft.Agent.{
  AgentRecord, ExecutionError, version_conflict, Method, start, heartbeat, assign_task,
  release_task, fail, stop,
}

pub data Operation : Type 0 where
  starts heartbeats releases stops : Operation
  assigns fails : String → Operation

pub record Command : Type 0 where
  pub io : Io
  pub trace : Trace
  pub expected : ℕ
  pub operation : Operation

unfoldable pub perform : Command → Operation → Method EventEnvelope
unfolding start heartbeat assign_task release_task fail stop
perform c starts = start c.io c.expected c.trace
perform c heartbeats = heartbeat c.io c.expected c.trace
perform c releases = release_task c.io c.expected c.trace
perform c stops = stop c.io c.expected c.trace
perform c (assigns task) = assign_task c.io c.expected task c.trace
perform c (fails error) = fail c.io c.expected error c.trace

abbrev pub execute : Command → Method EventEnvelope
execute c = perform c c.operation

unfoldable pub run : AgentRecord → List Command → AgentRecord
run a [] = a
run a (c ∷ cs) = run (execute c a).1 cs

perform_atomic :
    (c : Command) (o : Operation) (a : AgentRecord) {e : ExecutionError}
    → (perform c o a).0 ≡ err e
    → (perform c o a).1 ≡ a
unfolding perform
perform_atomic c starts a h = ground arith
perform_atomic c _ a h = ground arith

-- An operation on an agent that returns an error has changed nothing, `release_task` included, which
-- takes the task out of the record before it finds that there was none.
pub agent_atomic :
    (c : Command) (a : AgentRecord) {e : ExecutionError}
    → (execute c a).0 ≡ err e
    → (execute c a).1 ≡ a
agent_atomic c a h = perform_atomic c c.operation a h

perform_version :
    (c : Command) (o : Operation) (a : AgentRecord)
    → is_ok (perform c o a).0 ≡ true
    → (a.version ≡ c.expected) × ((perform c o a).1.version ≡ saturating_suc u64_max a.version)
unfolding perform
perform_version c starts a h = ground arith
perform_version c _ a h = ground arith

perform_conflict :
    (c : Command) (o : Operation) (a : AgentRecord)
    → ¬ (a.version ≡ c.expected)
    → perform c o a ≡ (err (version_conflict c.expected a.version), a)
unfolding perform
perform_conflict c starts a h = ground arith
perform_conflict c _ a h = ground arith

-- Two operations that have seen the same version of an agent cannot both succeed, below u64::MAX: the
-- second is a conflict with the next version, and changes nothing.
pub second_operation_conflicts :
    (c d : Command) (a : AgentRecord)
    → d.expected ≡ c.expected
    → a.version < u64_max
    → is_ok (execute c a).0 ≡ true
    → execute d (execute c a).1
      ≡ (err (version_conflict d.expected (d.expected + 1)), (execute c a).1)
second_operation_conflicts c d a same room done =
    let (seen, grown) = perform_version c c.operation a done in
    let next : (execute c a).1.version ≡ d.expected + 1 =
      omega (arith, seen, grown, saturating_suc-eq u64_max a.version room) in
    perform_conflict d d.operation (execute c a).1 (λ e. omega arith) ∙ rw next
