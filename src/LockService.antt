-- ===== src/LockService.antt =====
-- crates/sessionweft-orchestration/src/lib.rs: the lock methods of `OrchestrationService`, over the
-- tables of crates/sessionweft-orchestration-sqlite/src/lib.rs. A history is the list of the calls in
-- the order in which they take `lock_guard`.
pub mod Safety
use sessionweft.Common.{
  ℕ, String, Bool, ◌||◌, List, [], ◌∷◌, ltb, if◌then◌else◌, Result, ok, err, Exec, Io, Trace, ◌≡◌,
  ◌⊎◌, inl, inr, refl, Result-cases, Bool-cases,
}
use sessionweft.Lock.{LockRequest, LockLease, LockResource, validate_request, validate_resource}
use sessionweft.LockTable.{
  Tables, RepositoryError, Fence, acquire_lock, heartbeat_lock, release_lock, validate_fence,
}

pub data LockError : Type 0 where
  validation : String → LockError
  repository : RepositoryError → LockError

-- `map_err(OrchestrationError::Repository)`.
map_repository : {A : Type 0} → Result RepositoryError A × Tables → Result LockError A × Tables
map_repository (ok a, t) = (ok a, t)
map_repository (err e, t) = (err (repository e), t)

unfoldable pub acquire : Io → LockRequest → Trace → Exec Tables LockError LockLease
unfolding map_repository
acquire io r trace t = elim (validate_request r) [
  | ok _ ↦ map_repository (acquire_lock io r trace t)
  | err m ↦ (err (validation m), t)
]

pub heartbeat : Io → Fence → ℕ → Trace → Exec Tables LockError LockLease
unfolding map_repository
heartbeat io f ttl trace t =
    if ltb ttl 1 || ltb 3600 ttl
    then (err (validation "lock TTL must be between 1 and 3600 seconds"), t)
    else map_repository (heartbeat_lock io f ttl trace t)

unfoldable pub release : Io → Fence → Trace → Exec Tables LockError Unit
unfolding map_repository
release io f trace t = map_repository (release_lock io f trace t)

fence_result : Result RepositoryError Unit → Result LockError Unit
fence_result (ok u) = ok u
fence_result (err e) = err (repository e)

pub check_fence : Io → LockResource → String → ℕ → Tables → Result LockError Unit
unfolding fence_result
check_fence io r owner token t = elim (validate_resource r) [
  | ok _ ↦ fence_result (validate_fence r owner token (io.clock 0) t)
  | err m ↦ err (validation m)
]

pub data Request : Type 0 where
  acquires : LockRequest → Request
  heartbeats : Fence → ℕ → Request
  releases : Fence → Request

pub record Call : Type 0 where
  pub io : Io
  pub trace : Trace
  pub request : Request

serve_request : Io → Trace → Request → Tables → Tables
unfolding acquire heartbeat release
serve_request io trace (acquires r) t = (acquire io r trace t).1
serve_request io trace (heartbeats f ttl) t = (heartbeat io f ttl trace t).1
serve_request io trace (releases f) t = (release io f trace t).1

unfoldable pub serve : Call → Tables → Tables
unfolding serve_request
serve c t = serve_request c.io c.trace c.request t

unfoldable pub run : Tables → List Call → Tables
run t [] = t
run t (c ∷ cs) = run (serve c t) cs

abbrev pub fresh : Tables
fresh = record { leases = []; sequence = 0; outbox = [] }

map_repository-state :
    {A : Type 0} (p : Result RepositoryError A × Tables) → (map_repository p).1 ≡ p.1
unfolding map_repository
map_repository-state (ok a, t) = refl
map_repository-state (err e, t) = refl

-- What holds before and after each method of the tables holds along a history.
pub record Preserved (P : Tables → Type 0) : Type 0 where
  pub acquiring :
      (io : Io) (r : LockRequest) (c : Trace) (t : Tables) → P t → P (acquire_lock io r c t).1
  pub extending :
      (io : Io) (f : Fence) (n : ℕ) (c : Trace) (t : Tables) → P t → P (heartbeat_lock io f n c t).1
  pub releasing : (io : Io) (f : Fence) (c : Trace) (t : Tables) → P t → P (release_lock io f c t).1

module _ (P : Tables → Type 0) (keeps : Preserved P) where
  serve_request-keeps :
      (io : Io) (trace : Trace) (q : Request) (t : Tables) → P t → P (serve_request io trace q t)
  unfolding serve_request
  serve_request-keeps io trace (acquires r) t h = elim (Result-cases (validate_request r)) [
    | inl (a, e) ↦ rw (e, serve_request) (rw map_repository-state (keeps.acquiring io r trace t h))
    | inr (m, e) ↦ rw (e, serve_request) h
  ]
  serve_request-keeps io trace (heartbeats f ttl) t h =
      elim (Bool-cases (ltb ttl 1 || ltb 3600 ttl)) [
        | inl e ↦ rw (e, serve_request) h
        | inr e ↦
            rw (e, serve_request) (rw map_repository-state (keeps.extending io f ttl trace t h))
      ]
  serve_request-keeps io trace (releases f) t h =
      rw map_repository-state (keeps.releasing io f trace t h)

  pub run-keeps : (t : Tables) (cs : List Call) → P t → P (run t cs)
  unfolding run serve
  run-keeps t [] h = h
  run-keeps t (c ∷ cs) h = run-keeps (serve c t) cs (serve_request-keeps c.io c.trace c.request t h)
