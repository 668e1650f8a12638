-- ===== src/LockTable/Outcome.antt =====
-- What each method of the lock tables does, as a choice between refusal and success:
-- crates/sessionweft-orchestration-sqlite/src/lib.rs.
use sessionweft.Common.{
  ℕ, ◌+◌, ◌≤◌, ◌≡◌, ◌⊎◌, inl, inr, none, some, List, [], ◌∷◌, ◌++◌, filter, ltb, arith, ok, Io,
  Trace, Exec, Option-cases, false, Bool-cases, is_ok, true,
}
use sessionweft.Lock.{LockRequest, LockLease, workspace_id}
use sessionweft.LockTable.{
  Tables, RepositoryError, transaction, acquire_lock, acquire_steps, heartbeat_lock,
  heartbeat_steps, release_lock, release_steps, active_locks, first_conflict, find_lease, lease_for,
  extend_lease, delete_lease, Fence, not_held_by, i64_max, seconds,
}

-- A transaction that fails leaves the tables as they were.
pub transaction_fails :
    {A : Type 0} (m : Exec Tables RepositoryError A) (t : Tables)
    → is_ok (transaction m t).0 ≡ false
    → (transaction m t).1 ≡ t
unfolding transaction
transaction_fails m t h = ground arith

transaction_ok :
    {A : Type 0} (m : Exec Tables RepositoryError A) (t : Tables)
    → is_ok (transaction m t).0 ≡ true
    → (is_ok (m t).0 ≡ true) × (transaction m t ≡ m t)
unfolding transaction
transaction_ok m t h = ground arith

abbrev pub live : ℕ → List LockLease → List LockLease
live now = filter λ (l : LockLease). ltb now l.expires_at

pub record Acquired (io : Io) (r : LockRequest) (t u : Tables) : Type 0 where
  pub clear :
      first_conflict r (io.clock 0) (
        active_locks
          (workspace_id r.resource)
          (io.clock 0)
          (record t { leases = live (io.clock 0) t.leases }))
      ≡ none
  pub fits : t.sequence + 1 ≤ i64_max
  pub advanced : u.sequence ≡ t.sequence + 1
  pub stored : u.leases ≡ live (io.clock 0) t.leases ++ lease_for io r (t.sequence + 1) ∷ []

acquire_steps-Acquired :
    (io : Io) (r : LockRequest) (trace : Trace) (t : Tables)
    → is_ok (acquire_steps io r trace t).0 ≡ true
    → ((acquire_steps io r trace t).0 ≡ ok (lease_for io r (t.sequence + 1)))
      × Acquired io r t (acquire_steps io r trace t).1
unfolding acquire_steps
acquire_steps-Acquired io r trace t h = ground arith

-- A lock that is granted met no conflict; a refused one has changed nothing.
pub acquire_outcome :
    (io : Io) (r : LockRequest) (trace : Trace) (t : Tables)
    → ((is_ok (acquire_lock io r trace t).0 ≡ false) × ((acquire_lock io r trace t).1 ≡ t))
      ⊎ (((acquire_lock io r trace t).0 ≡ ok (lease_for io r (t.sequence + 1)))
          × Acquired io r t (acquire_lock io r trace t).1)
unfolding acquire_lock
acquire_outcome io r trace t =
    elim (Bool-cases (is_ok (transaction (acquire_steps io r trace) t).0)) [
      | inl e ↦
          let (done, same) = transaction_ok (acquire_steps io r trace) t e in
          inr (rw same (acquire_steps-Acquired io r trace t done))
      | inr e ↦ inl (e, transaction_fails (acquire_steps io r trace) t e)
    ]

-- The caller of `heartbeat_lock` holds the lease, which still runs.
pub record Extended (io : Io) (f : Fence) (ttl : ℕ) (t u : Tables) : Type 0 where
  pub lease : LockLease
  pub found : find_lease f.lock_id t.leases ≡ some lease
  pub held : not_held_by f lease ≡ false
  pub running : ltb (io.clock 0) lease.expires_at ≡ true
  pub kept : u.sequence ≡ t.sequence
  pub stored : u.leases ≡ extend_lease f.lock_id (io.clock 0 + seconds ttl) t.leases

heartbeat_steps-Extended :
    (io : Io) (f : Fence) (ttl : ℕ) (trace : Trace) (t : Tables)
    → is_ok (heartbeat_steps io f ttl trace t).0 ≡ true
    → Extended io f ttl t (heartbeat_steps io f ttl trace t).1
unfolding heartbeat_steps
heartbeat_steps-Extended io f ttl trace t h = elim (Option-cases (find_lease f.lock_id t.leases)) [
  | inl e ↦ ground arith
  | inr (l, e) ↦ record {
    lease = l;
    found = e;
    held = ground arith;
    running = ground arith;
    kept = ground arith;
    stored = ground arith;
  }
]

pub heartbeat_outcome :
    (io : Io) (f : Fence) (ttl : ℕ) (trace : Trace) (t : Tables)
    → ((is_ok (heartbeat_lock io f ttl trace t).0 ≡ false)
        × ((heartbeat_lock io f ttl trace t).1 ≡ t))
      ⊎ ((is_ok (heartbeat_lock io f ttl trace t).0 ≡ true)
          × Extended io f ttl t (heartbeat_lock io f ttl trace t).1)
unfolding heartbeat_lock
heartbeat_outcome io f ttl trace t =
    elim (Bool-cases (is_ok (transaction (heartbeat_steps io f ttl trace) t).0)) [
      | inl e ↦
          let (done, same) = transaction_ok (heartbeat_steps io f ttl trace) t e in
          inr (e, rw same (heartbeat_steps-Extended io f ttl trace t done))
      | inr e ↦ inl (e, transaction_fails (heartbeat_steps io f ttl trace) t e)
    ]

-- The caller of `release_lock` holds the lease.
pub record Released (f : Fence) (t u : Tables) : Type 0 where
  pub lease : LockLease
  pub found : find_lease f.lock_id t.leases ≡ some lease
  pub held : not_held_by f lease ≡ false
  pub kept : u.sequence ≡ t.sequence
  pub removed : u.leases ≡ delete_lease f.lock_id t.leases

release_steps-Released :
    (io : Io) (f : Fence) (trace : Trace) (t : Tables)
    → is_ok (release_steps io f trace t).0 ≡ true
    → Released f t (release_steps io f trace t).1
unfolding release_steps
release_steps-Released io f trace t h = elim (Option-cases (find_lease f.lock_id t.leases)) [
  | inl e ↦ ground arith
  | inr (l, e) ↦ record {
    lease = l;
    found = e;
    held = ground arith;
    kept = ground arith;
    removed = ground arith;
  }
]

pub release_outcome :
    (io : Io) (f : Fence) (trace : Trace) (t : Tables)
    → ((is_ok (release_lock io f trace t).0 ≡ false) × ((release_lock io f trace t).1 ≡ t))
      ⊎ ((is_ok (release_lock io f trace t).0 ≡ true) × Released f t (release_lock io f trace t).1)
unfolding release_lock
release_outcome io f trace t =
    elim (Bool-cases (is_ok (transaction (release_steps io f trace) t).0)) [
      | inl e ↦
          let (done, same) = transaction_ok (release_steps io f trace) t e in
          inr (e, rw same (release_steps-Released io f trace t done))
      | inr e ↦ inl (e, transaction_fails (release_steps io f trace) t e)
    ]
