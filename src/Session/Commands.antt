-- ===== src/Session/Commands.antt =====
-- The three operations of a Session as commands, one after another, and what a command does to the
-- version: crates/sessionweft-core/src/lib.rs, `append_message`, `select_provider`, `archive`.
use sessionweft.Common.{
  ℕ, ◌+◌, ◌≤◌, ◌<◌, min, String, ◌≡◌, ◌∙◌, ap, inl, inr, if◌then◌else◌, saturating_suc-le,
  Result-cases, Bool-cases, saturating_suc_cases, List, [], ◌∷◌, arith, u64_max, saturating_suc,
  saturating_suc-eq, err, is_ok, true, Exec, Io, Trace, EventEnvelope,
}
use sessionweft.Session.{
  Session, DomainError, conflict, MessageRole, append_message, select_provider, archive,
}

-- A call with the version that its caller has seen.
pub data Operation : Type 0 where
  appends : MessageRole → String → Operation
  selects : String → String → Operation
  archives : Operation

pub record Command : Type 0 where
  pub io : Io
  pub trace : Trace
  pub expected : ℕ
  pub operation : Operation

unfoldable pub perform : Command → Operation → Exec Session DomainError EventEnvelope
unfolding append_message select_provider archive
perform c (appends role content) = append_message c.io c.expected role content c.trace
perform c (selects provider model) = select_provider c.io c.expected provider model c.trace
perform c archives = archive c.io c.expected c.trace

abbrev pub execute : Command → Exec Session DomainError EventEnvelope
execute c = perform c c.operation

-- A caller that meets an error goes on; the Session is what the call left.
unfoldable pub run : Session → List Command → Session
run s [] = s
run s (c ∷ cs) = run (execute c s).1 cs

perform_atomic :
    (c : Command) (o : Operation) (s : Session) {e : DomainError}
    → (perform c o s).0 ≡ err e
    → (perform c o s).1 ≡ s
unfolding perform
perform_atomic c (appends role content) s h = ground arith
perform_atomic c (selects provider model) s h = ground arith
perform_atomic c archives s h = ground arith

-- A command that returns an error has changed nothing in the Session.
pub session_atomic :
    (c : Command) (s : Session) {e : DomainError} → (execute c s).0 ≡ err e → (execute c s).1 ≡ s
session_atomic c s h = perform_atomic c c.operation s h

perform_version :
    (c : Command) (o : Operation) (s : Session)
    → is_ok (perform c o s).0 ≡ true
    → (s.version ≡ c.expected) × ((perform c o s).1.version ≡ saturating_suc u64_max s.version)
unfolding perform
perform_version c (appends role content) s h = ground arith
perform_version c (selects provider model) s h = ground arith
perform_version c archives s h = ground arith

perform_conflict :
    (c : Command) (o : Operation) (s : Session)
    → ¬ (s.version ≡ c.expected)
    → perform c o s ≡ (err (conflict c.expected s.version), s)
unfolding perform
perform_conflict c (appends role content) s h = ground arith
perform_conflict c (selects provider model) s h = ground arith
perform_conflict c archives s h = ground arith

-- Of two writers that have seen the same version only the first succeeds: after a command that
-- succeeds below u64::MAX, any command with the same expected version is a conflict with the next
-- version, and changes nothing.
pub second_writer_conflicts :
    (c d : Command) (s : Session)
    → d.expected ≡ c.expected
    → s.version < u64_max
    → is_ok (execute c s).0 ≡ true
    → execute d (execute c s).1 ≡ (err (conflict d.expected (d.expected + 1)), (execute c s).1)
second_writer_conflicts c d s same room done =
    let (seen, grown) = perform_version c c.operation s done in
    let next : (execute c s).1.version ≡ d.expected + 1 =
      omega (arith, seen, grown, saturating_suc-eq u64_max s.version room) in
    perform_conflict d d.operation (execute c s).1 (λ e. omega arith) ∙ rw next

-- How many commands of a run succeed.
abbrev pub accepted : Session → List Command → ℕ
accepted s [] = 0
accepted s (c ∷ cs) = accepted (execute c s).1 cs + (if is_ok (execute c s).0 then 1 else 0)

version-execute :
    (c : Command) (s : Session)
    → (execute c s).1.version
      ≡ (if is_ok (execute c s).0 then saturating_suc u64_max s.version else s.version)
version-execute c s = elim (Result-cases (execute c s).0) [
  | inl (a, e) ↦ rw e (perform_version c c.operation s (rw e)).1
  | inr (x, e) ↦ rw e (ap (λ (t : Session). t.version) (session_atomic c s e))
]

-- The version of a Session counts the commands that have succeeded, and stops at u64::MAX.
pub version-run :
    (s : Session) (cs : List Command)
    → s.version ≤ u64_max
    → (run s cs).version ≡ min u64_max (s.version + accepted s cs)
unfolding run
version-run s [] h = omega arith
version-run s (c ∷ cs) h = elim (Bool-cases (is_ok (execute c s).0)) [
  | inl done ↦
      let grown = (perform_version c c.operation s done).1 in
      rw done (
        omega (
          arith,
          grown,
          saturating_suc-le u64_max s.version,
          saturating_suc_cases u64_max s.version,
          version-run (execute c s).1 cs
              (omega (arith, grown, saturating_suc-le u64_max s.version)),
        ))
  | inr refused ↦
      let same : (execute c s).1.version ≡ s.version = version-execute c s ∙ rw refused in
      rw refused (omega (arith, same, version-run (execute c s).1 cs (omega (arith, same))))
]
