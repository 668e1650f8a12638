-- ===== src/LockService/Safety.antt =====
-- What the lock service guarantees along every history of calls:
-- crates/sessionweft-orchestration/src/lib.rs, crates/sessionweft-orchestration-sqlite/src/lib.rs.
use sessionweft.Common.{ℕ, ◌≤◌, String, ◌≡◌, true, List, arith, inl, inr, err, is_ok, Io, Trace}
use sessionweft.Lock.{LockResource, LockRequest}
use sessionweft.LockTable.{
  Tables, Fence, stale_fence, i64_max, acquire_lock, release_lock, validate_fence,
}
use sessionweft.LockTable.Outcome.{acquire_outcome, heartbeat_outcome, release_outcome}
use sessionweft.LockTable.Exclusion.{
  Compatible, acquire_lock-Compatible, heartbeat_lock-Compatible, release_lock-Compatible,
}
use sessionweft.LockTable.Fencing.{
  Numbered, acquire_lock-Numbered, heartbeat_lock-Numbered, release_lock-Numbered, IsRetired,
  acquire_lock-IsRetired, heartbeat_lock-IsRetired, release_lock-IsRetired, release_lock-retires,
  validate_fence_retired,
}
use sessionweft.LockService.{Call, run, run-keeps, fresh}

-- Mutual exclusion, whatever the clock does: after any history of calls no two leases of the table
-- have overlapping resources with one of them exclusive, expired leases that are still stored
-- included.
pub run-Compatible : (cs : List Call) → Compatible (run fresh cs).leases
run-Compatible cs =
    run-keeps (λ t. Compatible t.leases)
      (record {
        acquiring = acquire_lock-Compatible;
        extending = heartbeat_lock-Compatible;
        releasing = release_lock-Compatible;
      })
      fresh cs tt

-- Fencing tokens rise: after any history of calls the tokens of the table are distinct, in the order
-- of the grants, positive, and at most the sequence.
pub run-Numbered : (cs : List Call) → Numbered (run fresh cs)
run-Numbered cs =
    run-keeps Numbered
      (record {
        acquiring = acquire_lock-Numbered;
        extending = heartbeat_lock-Numbered;
        releasing = release_lock-Numbered;
      })
      fresh cs (omega arith)

abbrev Fits : Tables → Type 0
Fits t = t.sequence ≤ i64_max

acquire_lock-Fits :
    (io : Io) (r : LockRequest) (c : Trace) (t : Tables) → Fits t → Fits (acquire_lock io r c t).1
acquire_lock-Fits io r c t h = elim (acquire_outcome io r c t) [
  | inl (_, same) ↦ rw same h
  | inr (_, a) ↦ rw (a.advanced) (a.fits)
]

run-Fits : (t : Tables) (cs : List Call) → Fits t → Fits (run t cs)
run-Fits t cs h =
    run-keeps Fits
      (record {
        acquiring = acquire_lock-Fits;
        extending = λ io f n c t h. elim (heartbeat_outcome io f n c t) [
          | inl (_, same) ↦ rw same h
          | inr (_, e) ↦ rw (e.kept) h
        ];
        releasing = λ io f c t h. elim (release_outcome io f c t) [
          | inl (_, same) ↦ rw same h
          | inr (_, e) ↦ rw (e.kept) h
        ];
      })
      t cs h

run-IsRetired :
    (token : ℕ) (t : Tables) (cs : List Call) → IsRetired token t → IsRetired token (run t cs)
run-IsRetired token t cs h =
    run-keeps (IsRetired token)
      (record {
        acquiring = acquire_lock-IsRetired token;
        extending = heartbeat_lock-IsRetired token;
        releasing = release_lock-IsRetired token;
      })
      t cs h

-- A token is good until its release only: after any history, a release that succeeds, and any
-- further history, the released token fences no resource for any owner at any instant.
pub released_token_stale :
    (before after : List Call) (io : Io) (f : Fence) (trace : Trace) (r : LockResource)
    (owner : String) (now : ℕ)
    → is_ok (release_lock io f trace (run fresh before)).0 ≡ true
    → validate_fence r owner f.fencing_token now
        (run (release_lock io f trace (run fresh before)).1 after)
      ≡ err stale_fence
released_token_stale before after io f trace r owner now done =
    let t = run fresh before in
    let u = (release_lock io f trace t).1 in
    let kept : Fits u = elim (release_outcome io f trace t) [
      | inl (refused, _) ↦ cc
      | inr (_, e) ↦ rw (e.kept) (run-Fits fresh before (omega arith))
    ] in
    validate_fence_retired r owner f.fencing_token now (run u after)
      (run-IsRetired f.fencing_token u after
        (release_lock-retires io f trace t (run-Numbered before) done))
      (run-Fits u after kept)
