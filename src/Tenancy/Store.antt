-- ===== src/Tenancy/Store.antt =====
-- crates/sessionweft-saas-postgres/src/tenancy.rs: the repository of tenants over its tables. Each method
-- is one transaction, and the locks of its rows order it among the others. The tables' primary keys,
-- references and checks are those of crates/sessionweft-saas-postgres/src/database.rs. A BIGINT is a
-- number up to i64::MAX, since the tables hold none below zero. Row-level security hides other tenants'
-- rows, which every statement's own condition leaves out too.
pub mod Ledger
pub mod Resources
pub mod Replays
pub mod Tenants
pub mod Usage
use Prim.Native.String.{◌++◌ as append_text}
use sessionweft.Common.{
  ℕ, ◌+◌, String, len, Bool, true, false, not, ◌||◌, ◌&&◌, Option, none, some, List, [], ◌∷◌, ◌++◌,
  any, map, ltb, ◌==◌, str_eq, if◌then◌else◌, is_blank, find_where, timestamptz, update_where,
  Result, ok, err, Exec, pure, gets, modify, refuse_if, lift, ◌>>=◌, ◌>>◌, Io, Fields, Value, uuid,
  str, strs, num, obj, field, end,
}
use sessionweft.Tenancy.{
  Tenant, TenantStatus, active, suspended, closed, TenantRole, owner, admin, billing, member,
  viewer, Membership, TenantQuota, QuotaDimension, ResourceKind, QuotaReservation, TenancyError,
  validation, conflict, repository, quota_exceeded, dimension_text, parse_dimension, kind_text,
  parse_principal, has_role,
}

pub record TenantRow : Type 0 where
  pub id : ℕ
  pub slug : String
  pub display_name : String
  pub status : String
  pub created_at : ℕ
  pub updated_at : ℕ

pub record QuotaRow : Type 0 where
  pub tenant_id : ℕ
  pub dimension : String
  pub hard_limit : ℕ
  pub updated_at : ℕ

pub record UsageRow : Type 0 where
  pub tenant_id : ℕ
  pub dimension : String
  pub used : ℕ
  pub updated_at : ℕ

pub record ReservationRow : Type 0 where
  pub tenant_id : ℕ
  pub dimension : String
  pub idempotency_key : String
  pub amount : ℕ
  pub used_after : ℕ
  pub hard_limit : ℕ
  pub created_at : ℕ

pub record ResourceRow : Type 0 where
  pub tenant_id : ℕ
  pub resource_kind : String
  pub resource_id : String
  pub created_at : ℕ

pub record AuditRow : Type 0 where
  pub event_id : ℕ
  pub tenant_id : ℕ
  pub event_type : String
  pub payload : Value
  pub correlation_id : ℕ
  pub created_at : ℕ

pub record Tables : Type 0 where
  pub tenants : List TenantRow
  pub memberships : List Membership
  pub quotas : List QuotaRow
  pub usage : List UsageRow
  pub reservations : List ReservationRow
  pub resources : List ResourceRow
  pub outbox : List AuditRow

abbrev pub Action : Type 0 → Type 0
Action A = Exec Tables TenancyError A

-- What is not committed is rolled back.
unfoldable pub transaction : {A : Type 0} → Action A → Action A
transaction m s = elim (m s).0 [ ok a ↦ m s | err e ↦ (err e, s) ]

abbrev pub i64_max : ℕ
i64_max = 9223372036854775807

-- `i64::try_from`.
pub as_i64 : String → ℕ → Action Unit
as_i64 message n = refuse_if (ltb i64_max n) (validation message)

unfoldable pub status_text : TenantStatus → String
status_text active = "active"
status_text suspended = "suspended"
status_text closed = "closed"

unfoldable pub status_from_text : String → Result TenancyError TenantStatus
status_from_text s =
    if str_eq s "active"
    then ok active
    else if str_eq s "suspended"
    then ok suspended
    else if str_eq s "closed"
    then ok closed
    else err (repository (append_text "unknown persisted tenant status '" (append_text s "'")))

unfoldable pub tenant_from_row : TenantRow → Result TenancyError Tenant
unfolding status_from_text
tenant_from_row r = elim (status_from_text r.status) [
  | err e ↦ err e
  | ok status ↦ ok (record {
    id = r.id;
    slug = r.slug;
    display_name = r.display_name;
    status = status;
    created_at = r.created_at;
    updated_at = r.updated_at;
  })
]

unfoldable pub membership_from_row : Membership → Result TenancyError Membership
membership_from_row r = elim (parse_principal r.principal_id) [
  | err e ↦ err e
  | ok principal_id ↦ ok (record r { principal_id = principal_id })
]

unfoldable pub quota_from_row : QuotaRow → Result TenancyError TenantQuota
quota_from_row r = elim (parse_dimension r.dimension) [
  | err e ↦ err e
  | ok dimension ↦ ok (record {
    tenant_id = r.tenant_id;
    dimension = dimension;
    hard_limit = r.hard_limit;
    updated_at = r.updated_at;
  })
]

-- A reference to sessionweft_tenants(id).
unfoldable pub tenant_exists : ℕ → Tables → Bool
tenant_exists id s = any (λ (r : TenantRow). r.id == id) s.tenants

pub refer_to_tenant : ℕ → Action Unit
unfolding tenant_exists
refer_to_tenant id = do
  there ← gets (tenant_exists id)
  refuse_if (not there) (repository "violates foreign key constraint")

abbrev role_text : TenantRole → String
role_text owner = "owner"
role_text admin = "admin"
role_text billing = "billing"
role_text member = "member"
role_text viewer = "viewer"

pub insert_audit : Io → ℕ → String → Fields → Action Unit
unfolding refer_to_tenant
insert_audit io tenant_id event_type payload = do
  taken ← gets (λ s. any (λ (r : AuditRow). r.event_id == io.uuid 0) s.outbox)
  refuse_if taken (repository "violates unique constraint sessionweft_saas_outbox_pkey")
  refer_to_tenant tenant_id
  modify (λ s. record s {
    outbox =
        s.outbox
        ++ (record {
          event_id = io.uuid 0;
          tenant_id = tenant_id;
          event_type = event_type;
          payload = obj payload;
          correlation_id = io.uuid 1;
          created_at = io.clock 0;
        })
          ∷ [];
  })

abbrev pub is_membership : ℕ → String → Membership → Bool
is_membership tenant_id principal_id r =
    r.tenant_id == tenant_id && str_eq r.principal_id principal_id

pub membership_row : Membership → Membership
membership_row m = record m {
  created_at = timestamptz m.created_at;
  updated_at = timestamptz m.updated_at;
}

pub put_membership : Membership → List Membership → List Membership
unfolding membership_row
put_membership m rows = elim (find_where (is_membership m.tenant_id m.principal_id) rows) [
  | none ↦ rows ++ membership_row m ∷ []
  | some old ↦
      update_where (is_membership m.tenant_id m.principal_id)
        (λ (r : Membership). record r { roles = m.roles; updated_at = timestamptz m.updated_at })
        rows
]

-- INSERT .. ON CONFLICT (tenant_id, principal_id) DO UPDATE.
pub insert_membership : Membership → Action Unit
unfolding put_membership refer_to_tenant
insert_membership m = do
  refer_to_tenant m.tenant_id
  modify (λ s. record s { memberships = put_membership m s.memberships })

pub tenant_row : Tenant → TenantRow
unfolding status_text
tenant_row t = record {
  id = t.id;
  slug = t.slug;
  display_name = t.display_name;
  status = status_text t.status;
  created_at = timestamptz t.created_at;
  updated_at = timestamptz t.updated_at;
}

unfoldable pub create_tenant : Io → Tenant → Membership → Action Tenant
unfolding transaction tenant_row insert_membership insert_audit
create_tenant io t m = do
  refuse_if (not (m.tenant_id == t.id) || not (has_role m owner))
      (validation "tenant bootstrap membership must be an owner for the same tenant")
  transaction (do
    taken ← gets (λ s. any (λ (r : TenantRow). r.id == t.id || str_eq r.slug t.slug) s.tenants)
    refuse_if taken (repository "violates unique constraint sessionweft_tenants")
    modify (λ s. record s { tenants = s.tenants ++ tenant_row t ∷ [] })
    insert_membership m
    insert_audit io t.id "tenant.created" (
        field "tenant_id" (uuid t.id)
          (field "slug" (str t.slug) (field "owner_principal_id" (str m.principal_id) end)))
    pure t)

pub read_row :
    {A B : Type 0} → (A → Result TenancyError B) → Option A → Result TenancyError (Option B)
read_row from none = ok none
read_row from (some r) = elim (from r) [ ok b ↦ ok (some b) | err e ↦ err e ]

unfoldable pub get_tenant : ℕ → Action (Option Tenant)
unfolding read_row
get_tenant id s =
    (read_row tenant_from_row (find_where (λ (r : TenantRow). r.id == id) s.tenants), s)

unfoldable pub upsert_membership : Io → Membership → Action Unit
unfolding transaction insert_membership insert_audit
upsert_membership io m = transaction (do
  insert_membership m
  insert_audit io m.tenant_id "tenant.membership_updated" (
      field "principal_id" (str m.principal_id) (field "roles" (strs (map role_text m.roles)) end)))

unfoldable pub membership : ℕ → String → Action (Option Membership)
unfolding read_row
membership tenant_id principal_id s = (
  read_row membership_from_row (find_where (is_membership tenant_id principal_id) s.memberships),
  s,
)

abbrev pub is_quota : ℕ → String → QuotaRow → Bool
is_quota tenant_id dimension r = r.tenant_id == tenant_id && str_eq r.dimension dimension

pub put_quota : QuotaRow → List QuotaRow → List QuotaRow
put_quota q rows = elim (find_where (is_quota q.tenant_id q.dimension) rows) [
  | none ↦ rows ++ q ∷ []
  | some old ↦
      update_where (is_quota q.tenant_id q.dimension)
        (λ (r : QuotaRow). record r { hard_limit = q.hard_limit; updated_at = q.updated_at }) rows
]

unfoldable pub set_quota : Io → TenantQuota → Action Unit
unfolding transaction as_i64 put_quota refer_to_tenant insert_audit
set_quota io q = do
  as_i64 "quota hard limit exceeds PostgreSQL BIGINT" q.hard_limit
  transaction (do
    refer_to_tenant q.tenant_id
    modify (λ s. record s {
      quotas =
          put_quota
            (record {
              tenant_id = q.tenant_id;
              dimension = dimension_text q.dimension;
              hard_limit = q.hard_limit;
              updated_at = timestamptz q.updated_at;
            })
            s.quotas;
    })
    insert_audit io q.tenant_id "tenant.quota_updated" (
        field "dimension" (str (dimension_text q.dimension))
          (field "hard_limit" (num q.hard_limit) end)))

unfoldable pub quota : ℕ → QuotaDimension → Action (Option TenantQuota)
unfolding read_row
quota tenant_id d s =
    (read_row quota_from_row (find_where (is_quota tenant_id (dimension_text d)) s.quotas), s)

unfoldable pub validate_resource_id : String → Result TenancyError Unit
validate_resource_id value =
    if is_blank value || ltb 512 (len value)
    then err (validation "resource ID must be between 1 and 512 bytes")
    else ok tt

abbrev pub is_resource : String → String → ResourceRow → Bool
is_resource kind id r = str_eq r.resource_kind kind && str_eq r.resource_id id

abbrev already_bound : String → String → TenancyError
already_bound kind id = conflict (
    append_text "resource "
      (append_text kind (append_text "/" (append_text id " is already bound"))))

unfoldable pub bind_resource : Io → ℕ → ResourceKind → String → Action Unit
unfolding transaction validate_resource_id refer_to_tenant insert_audit
bind_resource io tenant_id kind id = do
  lift (validate_resource_id id)
  transaction (do
    taken ← gets (λ s. any (is_resource (kind_text kind) id) s.resources)
    refuse_if taken (already_bound (kind_text kind) id)
    refer_to_tenant tenant_id
    modify (λ s. record s {
      resources =
          s.resources
          ++ (record {
            tenant_id = tenant_id;
            resource_kind = kind_text kind;
            resource_id = id;
            created_at = io.clock 0;
          })
            ∷ [];
    })
    insert_audit io tenant_id "tenant.resource_bound"
        (field "kind" (str (kind_text kind)) (field "resource_id" (str id) end)))

unfoldable pub owns_resource : ℕ → ResourceKind → String → Action Bool
unfolding validate_resource_id
owns_resource tenant_id kind id = do
  lift (validate_resource_id id)
  gets (λ s.
      any (λ (r : ResourceRow). r.tenant_id == tenant_id && is_resource (kind_text kind) id r)
        s.resources)

abbrev pub is_reservation : ℕ → String → String → ReservationRow → Bool
is_reservation tenant_id dimension key r =
    r.tenant_id == tenant_id && str_eq r.dimension dimension && str_eq r.idempotency_key key

abbrev pub is_usage : ℕ → String → UsageRow → Bool
is_usage tenant_id dimension r = r.tenant_id == tenant_id && str_eq r.dimension dimension

abbrev pub limit_of : Option QuotaRow → ℕ
limit_of none = 0
limit_of (some r) = r.hard_limit

abbrev pub used_of : Option UsageRow → ℕ
used_of none = 0
used_of (some r) = r.used

-- The quota in force and the usage so far; no row counts as zero.
unfoldable pub hard_limit : ℕ → String → Tables → ℕ
hard_limit tenant_id dimension s = limit_of (find_where (is_quota tenant_id dimension) s.quotas)

unfoldable pub used : ℕ → String → Tables → ℕ
used tenant_id dimension s = used_of (find_where (is_usage tenant_id dimension) s.usage)

-- INSERT .. ON CONFLICT (tenant_id, dimension) DO NOTHING.
pub open_usage : ℕ → ℕ → String → Tables → Tables
open_usage now tenant_id dimension s = elim (find_where (is_usage tenant_id dimension) s.usage) [
  | some old ↦ s
  | none ↦ record s {
    usage =
        s.usage
        ++ (record { tenant_id = tenant_id; dimension = dimension; used = 0; updated_at = now })
          ∷ [];
  }
]

pub set_used : ℕ → ℕ → String → ℕ → Tables → Tables
set_used now tenant_id dimension n s = record s {
  usage =
      update_where (is_usage tenant_id dimension)
        (λ (r : UsageRow). record r { used = n; updated_at = now }) s.usage;
}

pub add_reservation : ReservationRow → Tables → Tables
add_reservation r s = record s { reservations = s.reservations ++ r ∷ [] }

-- What a row of the table says of a reservation.
pub reservation_from_row : QuotaDimension → ReservationRow → QuotaReservation
reservation_from_row d r = record {
  tenant_id = r.tenant_id;
  dimension = d;
  amount = r.amount;
  idempotency_key = r.idempotency_key;
  used_after = r.used_after;
  hard_limit = r.hard_limit;
}

pub reserved_details : QuotaDimension → ReservationRow → Fields
reserved_details d r = field "dimension" (str (dimension_text d)) (
    field "amount" (num r.amount) (
      field "used_after" (num r.used_after) (
        field "hard_limit" (num r.hard_limit)
          (field "idempotency_key" (str r.idempotency_key) end))))

pub reservation_row : ℕ → ℕ → QuotaDimension → ℕ → String → ℕ → ℕ → ReservationRow
reservation_row now tenant_id d amount key used_after limit = record {
  tenant_id = tenant_id;
  dimension = dimension_text d;
  idempotency_key = key;
  amount = amount;
  used_after = used_after;
  hard_limit = limit;
  created_at = now;
}

-- The writes of a new reservation.
pub write_reservation : Io → QuotaDimension → ReservationRow → Action QuotaReservation
unfolding set_used add_reservation insert_audit reserved_details reservation_from_row
write_reservation io d r = do
  modify (set_used (io.clock 0) r.tenant_id r.dimension r.used_after)
  modify (add_reservation r)
  insert_audit io r.tenant_id "tenant.quota_reserved" (reserved_details d r)
  pure (reservation_from_row d r)

-- What is left once the limit and the usage are read.
pub reserve_within : Io → ℕ → QuotaDimension → ℕ → String → ℕ → ℕ → Action QuotaReservation
unfolding write_reservation reservation_row
reserve_within io tenant_id d amount key limit before = do
  refuse_if (ltb i64_max (before + amount)) (validation "quota usage overflow")
  refuse_if (ltb limit (before + amount)) (quota_exceeded tenant_id d amount before limit)
  write_reservation io d
      (reservation_row (io.clock 0) tenant_id d amount key (before + amount) limit)

-- What is left of `reserve_quota` under a new key.
pub reserve_new : Io → ℕ → QuotaDimension → ℕ → String → Action QuotaReservation
unfolding hard_limit used refer_to_tenant open_usage reserve_within
reserve_new io tenant_id d amount key = do
  limit ← gets (hard_limit tenant_id (dimension_text d))
  refer_to_tenant tenant_id
  modify (open_usage (io.clock 0) tenant_id (dimension_text d))
  before ← gets (used tenant_id (dimension_text d))
  reserve_within io tenant_id d amount key limit before

-- The reservation that the key has already, or a new one.
pub reserve_once :
    Io → ℕ → QuotaDimension → ℕ → String → Option ReservationRow → Action QuotaReservation
unfolding reserve_new reservation_from_row
reserve_once io tenant_id d amount key none = reserve_new io tenant_id d amount key
reserve_once io tenant_id d amount key (some r) = pure (reservation_from_row d r)

unfoldable pub reserve_quota : Io → ℕ → QuotaDimension → ℕ → String → Action QuotaReservation
unfolding transaction as_i64 reserve_once
reserve_quota io tenant_id d amount key = do
  refuse_if (amount == 0) (validation "quota reservation amount must be greater than zero")
  as_i64 "quota reservation exceeds PostgreSQL BIGINT" amount
  transaction (do
    old ← gets (λ s. find_where (is_reservation tenant_id (dimension_text d) key) s.reservations)
    reserve_once io tenant_id d amount key old)
