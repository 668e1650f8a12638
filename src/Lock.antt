-- ===== src/Lock.antt =====
-- crates/sessionweft-orchestration/src/lib.rs: what a lock is about, its modes, requests and leases.
pub mod Overlap
use Prim.Native.String.{◌++◌ as append_text}
use sessionweft.Common.{
  ℕ, String, Bool, true, false, not, ◌&&◌, ◌||◌, List, [], ◌∷◌, ◌++◌, any, filter, length, ltb, leb,
  str_eq, if◌then◌else◌, is_blank, split_path, starts_with_separator, Result, ok, err, Value,
  Fields, str, obj, field, end,
}

pub data LockResource : Type 0 where
  workspace : String → LockResource
  directory : String → String → LockResource
  file : String → String → LockResource
  symbol : String → String → String → LockResource

pub data LockMode : Type 0 where
  shared exclusive : LockMode

pub record LockRequest : Type 0 where
  pub session_id : ℕ
  pub owner_id : String
  pub resource : LockResource
  pub mode : LockMode
  pub ttl_seconds : ℕ

pub record LockLease : Type 0 where
  pub lock_id : ℕ
  pub session_id : ℕ
  pub owner_id : String
  pub resource : LockResource
  pub mode : LockMode
  pub fencing_token : ℕ
  pub acquired_at : ℕ
  pub expires_at : ℕ

unfoldable pub workspace_id : LockResource → String
workspace_id (workspace w) = w
workspace_id (directory w path) = w
workspace_id (file w path) = w
workspace_id (symbol w path name) = w

validate_relative_path : String → Result String Unit
validate_relative_path path =
    if is_blank path
    then err "resource path cannot be empty"
    else if starts_with_separator path || any (λ segment. str_eq segment "..") (split_path path)
    then err "resource path must remain inside the workspace"
    else ok tt

validate_parts : LockResource → Result String Unit
unfolding validate_relative_path
validate_parts (workspace w) = ok tt
validate_parts (directory w path) = validate_relative_path path
validate_parts (file w path) = validate_relative_path path
validate_parts (symbol w path name) = elim (validate_relative_path path) [
  | ok _ ↦ if is_blank name then err "symbol cannot be empty" else ok tt
  | err e ↦ err e
]

-- `LockResource::validate`; the error is the message of `OrchestrationError::Validation`.
unfoldable pub validate_resource : LockResource → Result String Unit
unfolding validate_parts workspace_id
validate_resource r =
    if is_blank (workspace_id r) then err "workspace ID cannot be empty" else validate_parts r

unfoldable pub path_segments : String → List String
path_segments path =
    filter (λ segment. not (str_eq segment "") && not (str_eq segment ".")) (split_path path)

inner_segments : LockResource → List String
unfolding path_segments
inner_segments (workspace w) = []
inner_segments (directory w path) = path_segments path
inner_segments (file w path) = path_segments path ++ "$file" ∷ []
inner_segments (symbol w path name) =
    path_segments path ++ "$file" ∷ append_text "$symbol:" name ∷ []

unfoldable pub segments : LockResource → List String
unfolding inner_segments workspace_id
segments r = append_text "workspace:" (workspace_id r) ∷ inner_segments r

-- `left.iter().zip(right).all(|(left, right)| left == right)`: as far as both lists go.
zip_equal : List String → List String → Bool
zip_equal [] right = true
zip_equal (l ∷ left) [] = true
zip_equal (l ∷ left) (r ∷ right) = str_eq l r && zip_equal left right

-- `is_prefix` of two segment lists.
unfoldable pub is_prefix : List String → List String → Bool
unfolding zip_equal
is_prefix left right = leb (length left) (length right) && zip_equal left right

unfoldable pub overlaps : LockResource → LockResource → Bool
unfolding workspace_id segments is_prefix
overlaps a b =
    if not (str_eq (workspace_id a) (workspace_id b))
    then false
    else is_prefix (segments a) (segments b) || is_prefix (segments b) (segments a)

abbrev is_exclusive : LockMode → Bool
is_exclusive exclusive = true
is_exclusive shared = false

-- `LockMode::conflicts_with`.
unfoldable pub modes_conflict : LockMode → LockMode → Bool
modes_conflict a b = is_exclusive a || is_exclusive b

-- `LockRequest::validate`.
unfoldable pub validate_request : LockRequest → Result String Unit
validate_request r =
    if is_blank r.owner_id
    then err "lock owner cannot be empty"
    else if ltb r.ttl_seconds 1 || ltb 3600 r.ttl_seconds
    then err "lock TTL must be between 1 and 3600 seconds"
    else validate_resource r.resource

-- `LockLease::conflicts_with`.
unfoldable pub conflicts_with : LockLease → LockRequest → ℕ → Bool
conflicts_with l r now =
    ltb now l.expires_at && overlaps l.resource r.resource && modes_conflict l.mode r.mode
