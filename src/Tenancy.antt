-- ===== src/Tenancy.antt =====
-- crates/sessionweft-tenancy/src/lib.rs: tenants, their members' roles, the dimensions of their quotas and
-- the kinds of their resources. A `TenantId` is the number of its uuid and a `PrincipalId` is the text
-- that `parse` has accepted. A `BTreeSet` of roles is the list of its elements in order.
pub mod Store
pub mod Texts
pub mod Service
use Prim.Native.String.{◌++◌ as append_text}
use sessionweft.Common.{
  ℕ, String, len, Bool, true, false, not, ◌||◌, ◌&&◌, List, [], ◌∷◌, any, is_empty, ltb, leb, ◌==◌,
  str_eq, if◌then◌else◌, is_blank, trim, is_empty_text, to_ascii_lowercase, all_chars,
  starts_with_char, ends_with_char, has_pair, Result, ok, err, Io,
}

pub data TenantStatus : Type 0 where
  active suspended closed : TenantStatus

pub data TenantRole : Type 0 where
  owner admin billing member viewer : TenantRole

unfoldable pub can_manage_members : TenantRole → Bool
can_manage_members owner = true
can_manage_members admin = true
can_manage_members _ = false

unfoldable pub can_manage_billing : TenantRole → Bool
can_manage_billing owner = true
can_manage_billing admin = true
can_manage_billing billing = true
can_manage_billing _ = false

unfoldable pub can_mutate_runtime : TenantRole → Bool
can_mutate_runtime owner = true
can_mutate_runtime admin = true
can_mutate_runtime member = true
can_mutate_runtime _ = false

pub data QuotaDimension : Type 0 where
  sessions active_agents queued_tasks indexed_files event_backlog provider_tokens tool_invocations
        storage_bytes :
      QuotaDimension

pub data ResourceKind : Type 0 where
  session workflow agent memory workspace git_worktree plugin provider_credential billing_account :
      ResourceKind

pub record Tenant : Type 0 where
  pub id : ℕ
  pub slug : String
  pub display_name : String
  pub status : TenantStatus
  pub created_at : ℕ
  pub updated_at : ℕ

pub record Membership : Type 0 where
  pub tenant_id : ℕ
  pub principal_id : String
  pub roles : List TenantRole
  pub created_at : ℕ
  pub updated_at : ℕ

pub record TenantQuota : Type 0 where
  pub tenant_id : ℕ
  pub dimension : QuotaDimension
  pub hard_limit : ℕ
  pub updated_at : ℕ

pub record TenantContext : Type 0 where
  pub tenant_id : ℕ
  pub principal_id : String
  pub roles : List TenantRole
  pub correlation_id : ℕ

pub record QuotaReservation : Type 0 where
  pub tenant_id : ℕ
  pub dimension : QuotaDimension
  pub amount : ℕ
  pub idempotency_key : String
  pub used_after : ℕ
  pub hard_limit : ℕ

pub data TenancyError : Type 0 where
  validation conflict repository : String → TenancyError
  tenant_not_found tenant_inactive : ℕ → TenancyError
  access_denied : ℕ → String → TenancyError
  resource_not_found : ℕ → ResourceKind → String → TenancyError
  quota_exceeded : ℕ → QuotaDimension → ℕ → ℕ → ℕ → TenancyError

-- `Display` of QuotaDimension.
unfoldable pub dimension_text : QuotaDimension → String
dimension_text sessions = "sessions"
dimension_text active_agents = "active_agents"
dimension_text queued_tasks = "queued_tasks"
dimension_text indexed_files = "indexed_files"
dimension_text event_backlog = "event_backlog"
dimension_text provider_tokens = "provider_tokens"
dimension_text tool_invocations = "tool_invocations"
dimension_text storage_bytes = "storage_bytes"

-- `FromStr` of QuotaDimension.
unfoldable pub parse_dimension : String → Result TenancyError QuotaDimension
parse_dimension s =
    if str_eq s "sessions"
    then ok sessions
    else if str_eq s "active_agents"
    then ok active_agents
    else if str_eq s "queued_tasks"
    then ok queued_tasks
    else if str_eq s "indexed_files"
    then ok indexed_files
    else if str_eq s "event_backlog"
    then ok event_backlog
    else if str_eq s "provider_tokens"
    then ok provider_tokens
    else if str_eq s "tool_invocations"
    then ok tool_invocations
    else if str_eq s "storage_bytes"
    then ok storage_bytes
    else err (validation (append_text "unknown quota dimension '" (append_text s "'")))

-- `Display` of ResourceKind.
unfoldable pub kind_text : ResourceKind → String
kind_text session = "session"
kind_text workflow = "workflow"
kind_text agent = "agent"
kind_text memory = "memory"
kind_text workspace = "workspace"
kind_text git_worktree = "git_worktree"
kind_text plugin = "plugin"
kind_text provider_credential = "provider_credential"
kind_text billing_account = "billing_account"

-- `FromStr` of ResourceKind.
unfoldable pub parse_kind : String → Result TenancyError ResourceKind
parse_kind s =
    if str_eq s "session"
    then ok session
    else if str_eq s "workflow"
    then ok workflow
    else if str_eq s "agent"
    then ok agent
    else if str_eq s "memory"
    then ok memory
    else if str_eq s "workspace"
    then ok workspace
    else if str_eq s "git_worktree"
    then ok git_worktree
    else if str_eq s "plugin"
    then ok plugin
    else if str_eq s "provider_credential"
    then ok provider_credential
    else if str_eq s "billing_account"
    then ok billing_account
    else err (validation (append_text "unknown resource kind '" (append_text s "'")))

unfoldable pub parse_principal : String → Result TenancyError String
parse_principal given =
    let value = trim given in
    if is_empty_text value || ltb 256 (len value)
    then err (validation "principal ID must be between 1 and 256 bytes")
    else ok value

-- `is_ascii_lowercase() || is_ascii_digit() || == b'-'`, of a byte; a character beyond ASCII has none
-- of these among its bytes.
abbrev is_slug_char : ℕ → Bool
is_slug_char c = (leb b'a' c && leb c b'z') || (leb b'0' c && leb c b'9') || c == b'-'

unfoldable pub normalize_slug : String → Result TenancyError String
normalize_slug given =
    let value = to_ascii_lowercase (trim given) in
    if ltb (len value) 3 || ltb 63 (len value)
    then err (validation "tenant slug must be between 3 and 63 bytes")
    else if not (all_chars is_slug_char value)
        || starts_with_char b'-' value
        || ends_with_char b'-' value
        || has_pair b'-' b'-' value
    then err
        (validation "tenant slug must use lowercase letters, numbers and single internal hyphens")
    else ok value

-- `Tenant::new`.
unfoldable pub new_tenant : Io → String → String → Result TenancyError Tenant
unfolding normalize_slug
new_tenant io given_slug given_name = elim (normalize_slug given_slug) [
  | err e ↦ err e
  | ok slug ↦
      let display_name = trim given_name in
      if is_empty_text display_name || ltb 256 (len display_name)
      then err (validation "tenant display name must be between 1 and 256 bytes")
      else ok (record {
        id = io.uuid 0;
        slug = slug;
        display_name = display_name;
        status = active;
        created_at = io.clock 0;
        updated_at = io.clock 0;
      })
]

-- The order that TenantRole derives.
abbrev rank : TenantRole → ℕ
rank owner = 0
rank admin = 1
rank billing = 2
rank member = 3
rank viewer = 4

insert_role : TenantRole → List TenantRole → List TenantRole
insert_role r [] = r ∷ []
insert_role r (x ∷ xs) =
    let rest = insert_role r xs in
    if rank r == rank x then x ∷ xs else if ltb (rank r) (rank x) then r ∷ x ∷ xs else x ∷ rest

-- `roles.into_iter().collect::<BTreeSet<_>>()`.
collect_roles : List TenantRole → List TenantRole
unfolding insert_role
collect_roles [] = []
collect_roles (r ∷ rs) = insert_role r (collect_roles rs)

-- `Membership::new`.
unfoldable pub new_membership : Io → ℕ → String → List TenantRole → Result TenancyError Membership
unfolding collect_roles
new_membership io tenant_id principal_id given =
    let roles = collect_roles given in
    if is_empty roles
    then err (validation "membership must contain at least one role")
    else ok (record {
      tenant_id = tenant_id;
      principal_id = principal_id;
      roles = roles;
      created_at = io.clock 0;
      updated_at = io.clock 0;
    })

unfoldable pub has_role : Membership → TenantRole → Bool
has_role m role = any (λ r. rank r == rank role) m.roles

-- `can_manage_members`, `can_manage_billing` and `can_mutate_runtime` of Membership and TenantContext.
abbrev pub any_role : (TenantRole → Bool) → List TenantRole → Bool
any_role may roles = any may roles

unfoldable pub from_membership : Membership → ℕ → TenantContext
from_membership m correlation_id = record {
  tenant_id = m.tenant_id;
  principal_id = m.principal_id;
  roles = m.roles;
  correlation_id = correlation_id;
}

unfoldable pub validate_idempotency_key : String → Result TenancyError Unit
validate_idempotency_key value =
    if is_blank value || ltb 255 (len value)
    then err (validation "idempotency key must be between 1 and 255 bytes")
    else ok tt
