-- ===== src/Tenancy/Service.antt =====
-- `TenantService` of crates/sessionweft-tenancy/src/lib.rs over any repository: `TenantRepository` is the
-- record of the operations that it calls, on a state that it keeps.
use sessionweft.Common.{
  ℕ, String, ◌≡◌, Bool, true, false, not, ◌⊎◌, inl, inr, Option, none, some, [], ◌∷◌, arith,
  Bool-cases, Result-cases, ok, is_ok, Exec, pure, refuse_if, or_raise, lift, ◌>>=◌, ◌>>◌, Io,
}
use sessionweft.Tenancy.{
  Tenant, TenantStatus, active, suspended, closed, owner, Membership, TenantContext, QuotaDimension,
  QuotaReservation, ResourceKind, TenancyError, tenant_not_found, tenant_inactive, access_denied,
  resource_not_found, new_tenant, new_membership, from_membership, can_mutate_runtime, any_role,
  validate_idempotency_key,
}
use sessionweft.Tenancy.Store.{
  create_tenant, get_tenant, membership, owns_resource, reserve_quota, Tables,
}
use sessionweft.Tenancy.Store as Store

-- The operations of `TenantRepository` that the service calls.
pub record TenantRepository (S : Type 0) : Type 0 where
  pub create_tenant : Io → Tenant → Membership → Exec S TenancyError Tenant
  pub get_tenant : ℕ → Exec S TenancyError (Option Tenant)
  pub membership : ℕ → String → Exec S TenancyError (Option Membership)
  pub owns_resource : ℕ → ResourceKind → String → Exec S TenancyError Bool
  pub reserve_quota : Io → ℕ → QuotaDimension → ℕ → String → Exec S TenancyError QuotaReservation

-- PostgresTenantRepository.
abbrev pub postgres : TenantRepository Tables
postgres = record {
  create_tenant = Store.create_tenant;
  get_tenant = Store.get_tenant;
  membership = Store.membership;
  owns_resource = Store.owns_resource;
  reserve_quota = Store.reserve_quota;
}

abbrev pub is_active : TenantStatus → Bool
is_active active = true
is_active suspended = false
is_active closed = false

module _ {S : Type 0} (repository : TenantRepository S) where
  unfoldable pub bootstrap :
      Io → Io → Io → String → String → String → Exec S TenancyError (Tenant × Membership)
  bootstrap io_tenant io_owner io slug display_name principal = do
    given ← lift (new_tenant io_tenant slug display_name)
    first ← lift (new_membership io_owner given.id principal (owner ∷ []))
    stored ← repository.create_tenant io given first
    pure (stored, first)

  unfoldable pub context : ℕ → String → ℕ → Exec S TenancyError TenantContext
  context tenant_id principal_id correlation_id = do
    found ← repository.get_tenant tenant_id
    tenant ← or_raise (tenant_not_found tenant_id) found
    refuse_if (not (is_active tenant.status)) (tenant_inactive tenant_id)
    belongs ← repository.membership tenant_id principal_id
    m ← or_raise (access_denied tenant_id principal_id) belongs
    pure (from_membership m correlation_id)

  unfoldable pub require_resource : TenantContext → ResourceKind → String → Exec S TenancyError Unit
  require_resource c kind resource_id = do
    owned ← repository.owns_resource c.tenant_id kind resource_id
    refuse_if (not owned) (resource_not_found c.tenant_id kind resource_id)

  unfoldable pub reserve :
      Io → TenantContext → QuotaDimension → ℕ → String → Exec S TenancyError QuotaReservation
  reserve io c d amount key = do
    refuse_if (not (any_role can_mutate_runtime c.roles)) (access_denied c.tenant_id c.principal_id)
    lift (validate_idempotency_key key)
    repository.reserve_quota io c.tenant_id d amount key

  -- A reservation that the service makes is the repository's own, under a valid key, for a caller with a
  -- role that may mutate; on any error of the service's the repository is as it was.
  pub reserve-IsAllowed :
      (io : Io) (c : TenantContext) (d : QuotaDimension) (amount : ℕ) (key : String) (s : S)
      → (reserve io c d amount key s ≡ repository.reserve_quota io c.tenant_id d amount key s)
          × (any_role can_mutate_runtime c.roles ≡ true)
          × (validate_idempotency_key key ≡ ok tt)
        ⊎ (is_ok (reserve io c d amount key s).0 ≡ false) × ((reserve io c d amount key s).1 ≡ s)
  unfolding reserve
  reserve-IsAllowed io c d amount key s = elim (Bool-cases (any_role can_mutate_runtime c.roles)) [
    | inr denied ↦ inr (ground arith, ground arith)
    | inl may ↦ elim (Result-cases (validate_idempotency_key key)) [
      | inr (e, bad) ↦ inr (ground arith, ground arith)
      | inl (u, good) ↦ inl (ground arith, may, good)
    ]
  ]

  -- A context is given only for an active tenant and a member of it, with the member's roles: both read
  -- from the repository, one after the other.
  pub context-IsMember :
      (tenant_id : ℕ) (principal_id : String) (correlation_id : ℕ) (s : S) (c : TenantContext)
      → (context tenant_id principal_id correlation_id s).0 ≡ ok c
      → (tenant : Tenant) × (m : Membership) × (t : S) × (u : S) × (repository.get_tenant tenant_id
            s
          ≡ (ok (some tenant), t))
        × (is_active tenant.status ≡ true)
        × (repository.membership tenant_id principal_id t ≡ (ok (some m), u))
        × (c ≡ from_membership m correlation_id)
  unfolding context
  context-IsMember tenant_id principal_id correlation_id s c h =
      elim (Result-cases (repository.get_tenant tenant_id s).0) [
        | inr (x, e) ↦ absurd (ground arith)
        | inl (none, e) ↦ absurd (ground arith)
        | inl (some tenant, e) ↦ elim (Bool-cases (is_active tenant.status)) [
          | inr off ↦ absurd (ground arith)
          | inl on ↦
              let t : S = (repository.get_tenant tenant_id s).1 in
              elim (Result-cases (repository.membership tenant_id principal_id t).0) [
                | inr (x, f) ↦ absurd (ground arith)
                | inl (none, f) ↦ absurd (ground arith)
                | inl (some m, f) ↦ (
                  tenant,
                  m,
                  t,
                  (repository.membership tenant_id principal_id t).1,
                  ground arith,
                  on,
                  ground arith,
                  ground arith,
                )
              ]
        ]
      ]
