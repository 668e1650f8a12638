-- ===== src/Session/History.antt =====
-- The history of a Session, and what holds of a Session after any commands:
-- crates/sessionweft-core/src/lib.rs.
use mathlib.Core.List.{append-nil, append_assoc}
use sessionweft.Common.{
  ◌≤◌, String, len, ◌≡◌, refl, false, Option, none, some, List, [], ◌∷◌, ◌++◌, All, All-append, sym,
  ap, ◌∙◌, is_ok, if◌then◌else◌, arith, is_blank, is_empty_text, u64_max, saturating_suc-le, Io, ok,
}
use sessionweft.Session.{Session, Message, ProviderSelection, new, max_title, max_content}
use sessionweft.Session.Commands.{
  Command, Operation, appends, selects, archives, perform, execute, run,
}

abbrev pub IsMessage : Message → Type 0
IsMessage m = (is_blank m.content ≡ false) × (len m.content ≤ max_content)

abbrev pub IsSelection : Option ProviderSelection → Type 0
IsSelection none = Unit {0}
IsSelection (some p) = (is_empty_text p.provider ≡ false) × (is_empty_text p.model ≡ false)

pub record IsValid (s : Session) : Type 0 where
  pub titled : is_empty_text s.title ≡ false
  pub short : len s.title ≤ max_title
  pub counted : s.version ≤ u64_max
  pub said : All IsMessage s.messages
  pub selected : IsSelection s.provider

pub new-IsValid : (io : Io) (title : String) {s : Session} → new io title ≡ ok s → IsValid s
unfolding new
new-IsValid io title h = ground arith

perform-IsValid :
    (c : Command) (o : Operation) (s : Session) → IsValid s → IsValid (perform c o s).1
unfolding perform
perform-IsValid c (appends role content) s v = ground (
  arith,
  saturating_suc-le u64_max s.version,
  All-append IsMessage s.messages
      (record { id = c.io.uuid 0; role = role; content = content; created_at = c.io.clock 0 } ∷ [])
      v.said,
)
perform-IsValid c (selects provider model) s v = ground (arith, saturating_suc-le u64_max s.version)
perform-IsValid c archives s v = ground (arith, saturating_suc-le u64_max s.version)

run-IsValid : (s : Session) (cs : List Command) → IsValid s → IsValid (run s cs)
unfolding run
run-IsValid s [] v = v
run-IsValid s (c ∷ cs) v = run-IsValid (execute c s).1 cs (perform-IsValid c c.operation s v)

-- A Session that was created, after any commands, succeeding or not: its title is not empty and has
-- at most 200 bytes, each message of its history is not blank and has at most 1,000,000 bytes, a
-- selected provider and model are not empty, and the version fits u64.
pub run-session-IsValid :
    (io : Io) (title : String) (s : Session) (cs : List Command)
    → new io title ≡ ok s
    → IsValid (run s cs)
run-session-IsValid io title s cs h = run-IsValid s cs (new-IsValid io title h)

-- What a command that succeeds adds to the history.
abbrev pub added : Command → Operation → List Message
added c (appends role content) =
    record { id = c.io.uuid 0; role = role; content = content; created_at = c.io.clock 0 } ∷ []
added c (selects provider model) = []
added c archives = []

-- The messages of the append commands that succeed, in the order of the run.
abbrev pub transcript : Session → List Command → List Message
transcript s [] = []
transcript s (c ∷ cs) =
    (if is_ok (execute c s).0 then added c c.operation else []) ++ transcript (execute c s).1 cs

perform_messages :
    (c : Command) (o : Operation) (s : Session)
    → ((perform c o s).1.messages
        ≡ s.messages ++ (if is_ok (perform c o s).0 then added c o else []))
      × ((perform c o s).1.id ≡ s.id)
      × ((perform c o s).1.title ≡ s.title)
unfolding perform
perform_messages c (appends role content) s = ground (arith, append-nil s.messages)
perform_messages c (selects provider model) s = ground (arith, append-nil s.messages)
perform_messages c archives s = ground (arith, append-nil s.messages)

-- The history only grows: after any commands it is the old history followed by the messages of the
-- append commands that succeeded, each as it was given and in their order. The identity and the
-- title of the Session stay.
pub messages-run :
    (s : Session) (cs : List Command)
    → ((run s cs).messages ≡ s.messages ++ transcript s cs)
      × ((run s cs).id ≡ s.id)
      × ((run s cs).title ≡ s.title)
unfolding run
messages-run s [] = (sym (append-nil s.messages), refl, refl)
messages-run s (c ∷ cs) =
    let (m, i, t) = perform_messages c c.operation s in
    let (m', i', t') = messages-run (execute c s).1 cs in
    (
      m' ∙ ap (λ l. l ++ transcript (execute c s).1 cs) m ∙ append_assoc s.messages _ _,
      i' ∙ i,
      t' ∙ t,
    )
