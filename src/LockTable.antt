-- ===== src/LockTable.antt =====
-- crates/sessionweft-orchestration-sqlite/src/lib.rs: the lock leases, the fencing sequence and the
-- outbox of events as tables. Each method is one transaction, and the methods that write hold
-- `lock_guard`, so they run one after another. A row of `lock_leases` is its lease: the columns repeat
-- fields of the JSON. New rows go to the end, which is the order of their fencing tokens.
pub mod Outcome
pub mod Exclusion
pub mod Fencing
pub mod Fences
use sessionweft.Common.{
  ℕ, ◌+◌, ◌*◌, String, Bool, true, false, not, ◌&&◌, ◌||◌, Option, none, some, List, [], ◌∷◌, ◌++◌,
  any, filter, ltb, leb, ◌==◌, str_eq, if◌then◌else◌, Result, ok, err, Exec, pure, gets, modify,
  refuse_if, or_raise, lift, ◌>>=◌, ◌>>◌, Io, Trace, Value, num, uuid, time, str, obj, field, end,
  EventEnvelope, new_event,
}
use sessionweft.Lock.{
  LockResource, workspace, directory, file, symbol, LockMode, shared, exclusive, LockRequest,
  LockLease, workspace_id, overlaps, conflicts_with, validate_request, validate_resource,
}

pub record Tables : Type 0 where
  pub leases : List LockLease
  pub sequence : ℕ
  pub outbox : List EventEnvelope

pub data RepositoryError : Type 0 where
  backend : String → RepositoryError
  lock_conflict : String → LockResource → RepositoryError
  lock_not_found : ℕ → RepositoryError
  stale_fence : RepositoryError

abbrev pub i64_max : ℕ
i64_max = 9223372036854775807

-- Instants are nanoseconds.
abbrev pub seconds : ℕ → ℕ
seconds n = n * 1000000000

-- A transaction that is not committed is rolled back.
unfoldable pub transaction :
    {A : Type 0} → Exec Tables RepositoryError A → Exec Tables RepositoryError A
transaction m t = elim (m t).0 [ ok a ↦ m t | err e ↦ (err e, t) ]

-- `event_id` is the outbox's primary key.
insert_event : EventEnvelope → Exec Tables RepositoryError Unit
insert_event e t =
    if any (λ (x : EventEnvelope). x.event_id == e.event_id) t.outbox
    then (err (backend "UNIQUE constraint failed: outbox.event_id"), t)
    else (ok tt, record t { outbox = t.outbox ++ e ∷ [] })

-- DELETE FROM lock_leases WHERE expires_at <= ?
abbrev purge : ℕ → Tables → Tables
purge now t = record t { leases = filter (λ (l : LockLease). ltb now l.expires_at) t.leases }

-- WHERE workspace_id = ? AND expires_at > ? ORDER BY fencing_token ASC
pub active_locks : String → ℕ → Tables → List LockLease
active_locks w now t =
    filter (λ (l : LockLease). str_eq (workspace_id l.resource) w && ltb now l.expires_at) t.leases

-- WHERE lock_id = ?
pub find_lease : ℕ → List LockLease → Option LockLease
find_lease id [] = none
find_lease id (l ∷ ls) = if l.lock_id == id then some l else find_lease id ls

-- The loop over the active leases stops at the first that conflicts.
pub first_conflict : LockRequest → ℕ → List LockLease → Option LockLease
first_conflict r now [] = none
first_conflict r now (l ∷ ls) = if conflicts_with l r now then some l else first_conflict r now ls

refuse_conflict : Option LockLease → Exec Tables RepositoryError Unit
refuse_conflict none t = (ok tt, t)
refuse_conflict (some l) t = (err (lock_conflict l.owner_id l.resource), t)

-- UPDATE lock_sequence SET value = value + 1, and the read that follows, into an i64.
next_token : Exec Tables RepositoryError ℕ
next_token t =
    let value = t.sequence + 1 in
    if ltb i64_max value
    then (err (backend "integer overflow"), t)
    else (ok value, record t { sequence = value })

-- `lock_id` is the primary key of lock_leases, and `fencing_token` is unique.
insert_lease : LockLease → Exec Tables RepositoryError Unit
insert_lease l t =
    if any (λ (x : LockLease). x.lock_id == l.lock_id || x.fencing_token == l.fencing_token)
      t.leases
    then (err (backend "UNIQUE constraint failed: lock_leases"), t)
    else (ok tt, record t { leases = t.leases ++ l ∷ [] })

mode_value : LockMode → Value
mode_value shared = str "shared"
mode_value exclusive = str "exclusive"

resource_value : LockResource → Value
resource_value (workspace w) =
    obj (field "kind" (str "workspace") (field "workspace_id" (str w) end))
resource_value (directory w path) =
    obj
      (field "kind" (str "directory") (field "workspace_id" (str w) (field "path" (str path) end)))
resource_value (file w path) =
    obj (field "kind" (str "file") (field "workspace_id" (str w) (field "path" (str path) end)))
resource_value (symbol w path name) = obj (
    field "kind" (str "symbol")
      (field "workspace_id" (str w) (field "path" (str path) (field "symbol" (str name) end))))

acquired_event : Io → Trace → LockLease → EventEnvelope
unfolding mode_value resource_value
acquired_event io trace l =
    new_event (io.uuid 1) (io.clock 1) "lock.acquired" (some l.session_id) trace (
      obj (
        field "lock_id" (uuid l.lock_id) (
          field "owner_id" (str l.owner_id) (
            field "resource" (resource_value l.resource) (
              field "mode" (mode_value l.mode) (
                field "fencing_token" (num l.fencing_token)
                  (field "expires_at" (time l.expires_at) end)))))))

unfoldable pub lease_for : Io → LockRequest → ℕ → LockLease
lease_for io r token = record {
  lock_id = io.uuid 0;
  session_id = r.session_id;
  owner_id = r.owner_id;
  resource = r.resource;
  mode = r.mode;
  fencing_token = token;
  acquired_at = io.clock 0;
  expires_at = io.clock 0 + seconds r.ttl_seconds;
}

acquire_steps : Io → LockRequest → Trace → Exec Tables RepositoryError LockLease
unfolding active_locks first_conflict refuse_conflict next_token lease_for insert_lease insert_event
    acquired_event
acquire_steps io r trace = do
  modify (purge (io.clock 0))
  active ← gets (active_locks (workspace_id r.resource) (io.clock 0))
  refuse_conflict (first_conflict r (io.clock 0) active)
  token ← next_token
  insert_lease (lease_for io r token)
  insert_event (acquired_event io trace (lease_for io r token))
  pure (lease_for io r token)

unfoldable pub acquire_lock : Io → LockRequest → Trace → Exec Tables RepositoryError LockLease
unfolding transaction acquire_steps
acquire_lock io r trace = transaction (acquire_steps io r trace)

-- UPDATE lock_leases SET expires_at = ?, data_json = ? WHERE lock_id = ?
pub extend_lease : ℕ → ℕ → List LockLease → List LockLease
extend_lease id expires [] = []
extend_lease id expires (l ∷ ls) =
    let rest = extend_lease id expires ls in
    if l.lock_id == id then record l { expires_at = expires } ∷ rest else l ∷ rest

heartbeat_event : Io → Trace → LockLease → EventEnvelope
heartbeat_event io trace l =
    new_event (io.uuid 0) (io.clock 1) "lock.heartbeat" (some l.session_id) trace (
      obj (
        field "lock_id" (uuid l.lock_id) (
          field "fencing_token" (num l.fencing_token)
            (field "expires_at" (time l.expires_at) end))))

-- What a caller shows for a lease: its identifier, its owner and its fencing token.
pub record Fence : Type 0 where
  pub lock_id : ℕ
  pub owner_id : String
  pub fencing_token : ℕ

abbrev pub not_held_by : Fence → LockLease → Bool
not_held_by f l = not (str_eq l.owner_id f.owner_id) || not (l.fencing_token == f.fencing_token)

heartbeat_steps : Io → Fence → ℕ → Trace → Exec Tables RepositoryError LockLease
unfolding find_lease extend_lease heartbeat_event insert_event
heartbeat_steps io f ttl trace = do
  found ← gets (λ t. find_lease f.lock_id t.leases)
  lease ← or_raise (lock_not_found f.lock_id) found
  refuse_if (not_held_by f lease || leb lease.expires_at (io.clock 0)) stale_fence
  let expires = io.clock 0 + seconds ttl
  modify (λ t. record t { leases = extend_lease f.lock_id expires t.leases })
  insert_event (heartbeat_event io trace (record lease { expires_at = expires }))
  pure (record lease { expires_at = expires })

pub heartbeat_lock : Io → Fence → ℕ → Trace → Exec Tables RepositoryError LockLease
unfolding transaction heartbeat_steps
heartbeat_lock io f ttl trace = transaction (heartbeat_steps io f ttl trace)

-- DELETE FROM lock_leases WHERE lock_id = ?
abbrev pub delete_lease : ℕ → List LockLease → List LockLease
delete_lease id = filter (λ (l : LockLease). not (l.lock_id == id))

released_event : Io → Trace → LockLease → EventEnvelope
unfolding resource_value
released_event io trace l =
    new_event (io.uuid 0) (io.clock 0) "lock.released" (some l.session_id) trace (
      obj (
        field "lock_id" (uuid l.lock_id) (
          field "owner_id" (str l.owner_id) (
            field "resource" (resource_value l.resource)
              (field "fencing_token" (num l.fencing_token) end)))))

release_steps : Io → Fence → Trace → Exec Tables RepositoryError Unit
unfolding find_lease released_event insert_event
release_steps io f trace = do
  found ← gets (λ t. find_lease f.lock_id t.leases)
  lease ← or_raise (lock_not_found f.lock_id) found
  refuse_if (not_held_by f lease) stale_fence
  modify (λ t. record t { leases = delete_lease f.lock_id t.leases })
  insert_event (released_event io trace lease)

unfoldable pub release_lock : Io → Fence → Trace → Exec Tables RepositoryError Unit
unfolding transaction release_steps
release_lock io f trace = transaction (release_steps io f trace)

-- The row is the caller's, still runs, and its resource overlaps the one that is asked for.
pub fences : LockResource → String → ℕ → ℕ → LockLease → Bool
fences r owner token now l =
    str_eq (workspace_id l.resource) (workspace_id r)
    && str_eq l.owner_id owner
    && l.fencing_token == token
    && ltb now l.expires_at
    && overlaps l.resource r

-- A query: it reads the tables and changes nothing.
unfoldable pub validate_fence : LockResource → String → ℕ → ℕ → Tables → Result RepositoryError Unit
unfolding fences
validate_fence r owner token now t =
    if ltb i64_max token
    then err (backend "out of range integral type conversion attempted")
    else if any (fences r owner token now) t.leases
    then ok tt
    else err stale_fence
