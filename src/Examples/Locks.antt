-- ===== src/Examples/Locks.antt =====
-- Locks: crates/sessionweft-orchestration/src/lib.rs, crates/sessionweft-orchestration-sqlite/src/lib.rs.
use sessionweft.Common.{
  ℕ, ◌+◌, String, ◌≡◌, refl, ◌↔◌, inl, List, [], ◌∷◌, none, arith, ok, err, is_ok, true, false, Io,
  Trace, filter, any, is_blank, new_event, split_path, starts_with_separator,
}
use sessionweft.Lock.{
  LockResource, workspace, directory, file, symbol, LockMode, shared, exclusive, LockRequest,
  LockLease, overlaps, path_segments, workspace_id, conflicts_with, modes_conflict,
  validate_request, validate_resource,
}
use sessionweft.Lock.Overlap.{overlaps_iff, LiesBelow}
use sessionweft.LockTable.{
  Tables, Fence, stale_fence, acquire_lock, release_lock, validate_fence, lease_for,
}
use sessionweft.LockTable.Exclusion.{Compatible}
use sessionweft.LockTable.Fencing.{Numbered}
use sessionweft.LockTable.Fences.{acquire-validate_fence, acquire_refuses, validate_fence_workspace}
use sessionweft.LockService.{Call, acquires, run, serve, fresh}
use sessionweft.LockService.Safety.{run-Compatible, run-Numbered, released_token_stale}

abbrev trace : Trace
trace = record { correlation_id = 1; actor_id = none }

abbrev at : ℕ → Io
at n = record { clock = λ k. n + k; uuid = λ k. n + k }

abbrev source : LockResource
source = directory "ws" "src"

abbrev lib_file : LockResource
lib_file = file "ws" "src/lib.rs"

abbrev ask : String → LockResource → LockMode → LockRequest
ask owner r mode = record {
  session_id = 1;
  owner_id = owner;
  resource = r;
  mode = mode;
  ttl_seconds = 30;
}

parent_and_child_overlap : overlaps source lib_file ≡ true
unfolding overlaps path_segments split_path filter
parent_and_child_overlap = refl

siblings_do_not : overlaps source (file "ws" "src2/lib.rs") ≡ false
unfolding overlaps path_segments split_path filter
siblings_do_not = refl

overlaps_iff_example :
    (overlaps source lib_file ≡ true)
    ↔ ((path : List String) × LiesBelow source path × LiesBelow lib_file path)
overlaps_iff_example = overlaps_iff source lib_file

abbrev granted : LockLease
granted = record {
  lock_id = 10;
  session_id = 1;
  owner_id = "one";
  resource = source;
  mode = exclusive;
  fencing_token = 1;
  acquired_at = 10;
  expires_at = 30000000010;
}

first_grant : (acquire_lock (at 10) (ask "one" source exclusive) trace fresh).0 ≡ ok granted
unfolding acquire_lock lease_for filter any
first_grant = refl

abbrev history : List Call
history =
    record { io = at 10; trace = trace; request = acquires (ask "one" source exclusive) }
    ∷ record { io = at 20; trace = trace; request = acquires (ask "two" lib_file shared) }
    ∷ []

run-Compatible_example : Compatible (run fresh history).leases
run-Compatible_example = run-Compatible history

run-Numbered_example : Numbered (run fresh history)
run-Numbered_example = run-Numbered history

abbrev fence_one : Fence
fence_one = record { lock_id = 10; owner_id = "one"; fencing_token = 1 }

one_releases : is_ok (release_lock (at 40) fence_one trace (run fresh history)).0 ≡ true
unfolding run serve release_lock acquire_lock lease_for filter any validate_request is_blank
    split_path starts_with_separator overlaps path_segments conflicts_with modes_conflict
    validate_resource new_event
one_releases = refl

released_token_stale_example :
    validate_fence source "one" 1 50
      (run (release_lock (at 40) fence_one trace (run fresh history)).1 history)
    ≡ err stale_fence
released_token_stale_example =
    released_token_stale history history (at 40) fence_one trace source "one" 50 one_releases

acquire-validate_fence_example :
    (◌≡◌ {A = ℕ} 1 (0 + 1))
    × (validate_fence source "one" 1 50
          (acquire_lock (at 10) (ask "one" source exclusive) trace fresh).1
        ≡ ok tt)
acquire-validate_fence_example =
    acquire-validate_fence (at 10) (ask "one" source exclusive) trace fresh 50 granted first_grant
      (omega arith)

abbrev held : Tables
held = record { leases = granted ∷ []; sequence = 1; outbox = [] }

acquire_refuses_example :
    (is_ok (acquire_lock (at 20) (ask "two" lib_file shared) trace held).0 ≡ false)
    × ((acquire_lock (at 20) (ask "two" lib_file shared) trace held).1 ≡ held)
unfolding overlaps path_segments split_path filter modes_conflict lease_for
acquire_refuses_example =
    acquire_refuses (at 20) (ask "two" lib_file shared) trace held granted (inl refl) (omega arith)
      refl

abbrev symbol_lease : LockLease
symbol_lease = record granted { resource = symbol "ws" "src/lib.rs" "main"; mode = shared }

validate_fence_workspace_example :
    validate_fence
      (workspace "ws")
      "one"
      1
      50
      (record { leases = symbol_lease ∷ []; sequence = 1; outbox = [] })
    ≡ ok tt
unfolding workspace_id
validate_fence_workspace_example =
    validate_fence_workspace (record { leases = symbol_lease ∷ []; sequence = 1; outbox = [] })
      symbol_lease 50 (inl refl) (omega arith) (omega arith)
