-- ===== src/Examples/Sessions.antt =====
-- Sessions: crates/sessionweft-core/src/lib.rs.
use sessionweft.Common.{
  ℕ, ◌+◌, String, ◌≡◌, refl, List, [], ◌∷◌, ◌++◌, none, arith, u64_max, min, ok, err, Io, Trace,
  saturating_suc, trim, is_blank,
}
use sessionweft.Session.{Session, conflict, user, active, new}
use sessionweft.Session.Commands.{
  Command, appends, archives, perform, execute, run, accepted, second_writer_conflicts, version-run,
}
use sessionweft.Session.History.{IsValid, run-session-IsValid, transcript, messages-run}

abbrev pub io : Io
io = record { clock = λ n. 100 + n; uuid = λ n. 7 + n }

abbrev pub trace : Trace
trace = record { correlation_id = 1; actor_id = none }

abbrev blank_session : Session
blank_session = record {
  schema_version = 1;
  id = 7;
  version = 0;
  status = active;
  title = "test";
  messages = [];
  provider = none;
  created_at = 100;
  updated_at = 100;
}

abbrev say : ℕ → String → Command
say version content = record {
  io = io;
  trace = trace;
  expected = version;
  operation = appends user content;
}

abbrev script : List Command
script =
    say 0 "hello"
    ∷ say 0 "stale"
    ∷ say 1 " "
    ∷ record { io = io; trace = trace; expected = 1; operation = archives }
    ∷ []

new_trims : new io "  test " ≡ ok blank_session
unfolding new trim
new_trims = refl

second_writer_conflicts_example :
    execute (say 0 "stale") (execute (say 0 "hello") blank_session).1
    ≡ (err (conflict 0 1), (execute (say 0 "hello") blank_session).1)
unfolding perform is_blank saturating_suc
second_writer_conflicts_example =
    second_writer_conflicts (say 0 "hello") (say 0 "stale") blank_session refl (omega arith) refl

version-run_example :
    (run blank_session script).version ≡ min u64_max (0 + accepted blank_session script)
version-run_example = version-run blank_session script (omega arith)

two_accepted : accepted blank_session script ≡ 2
unfolding perform is_blank saturating_suc
two_accepted = refl

run-session-IsValid_example : IsValid (run blank_session script)
run-session-IsValid_example = run-session-IsValid io "  test " blank_session script new_trims

messages-run_example :
    ((run blank_session script).messages ≡ [] ++ transcript blank_session script)
    × ((run blank_session script).id ≡ 7)
    × ((run blank_session script).title ≡ "test")
messages-run_example = messages-run blank_session script
