-- ===== src/Session/Archive.antt =====
-- An archived Session is read-only: crates/sessionweft-core/src/lib.rs, `archive`, `ensure_mutable`.
use sessionweft.Common.{◌≡◌, refl, List, [], ◌∷◌, false, arith, is_ok}
use sessionweft.Session.{Session, archived}
use sessionweft.Session.Commands.{
  Command, Operation, appends, selects, archives, perform, run, accepted,
}

perform_archived :
    (c : Command) (o : Operation) (s : Session)
    → s.status ≡ archived
    → ((perform c o s).1 ≡ s) × (is_ok (perform c o s).0 ≡ false)
unfolding perform
perform_archived c (appends role content) s h = ground arith
perform_archived c (selects provider model) s h = ground arith
perform_archived c archives s h = ground arith

-- No command changes an archived Session: after any commands it is the same, and none of them has
-- succeeded.
pub archived_absorbs :
    (s : Session) (cs : List Command) → s.status ≡ archived → (run s cs ≡ s) × (accepted s cs ≡ 0)
unfolding run
archived_absorbs s [] h = (refl, refl)
archived_absorbs s (c ∷ cs) h =
    let (same, refused) = perform_archived c c.operation s h in
    let (stays, none_done) = archived_absorbs s cs h in
    rw (same, refused) (stays, omega (arith, none_done))
