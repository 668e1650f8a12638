-- ===== src/Billing/Service.antt =====
-- `BillingService::record_usage` of crates/sessionweft-billing/src/lib.rs over the repository of a tenant.
-- The provider is a parameter: what `report_usage` answers to a record, after the requests made before.
use sessionweft.Common.{
  ℕ, String, Bool, true, false, not, Option, none, some, List, [], ◌∷◌, ◌++◌, str_eq, any,
  if◌then◌else◌, Map, lookup, Result, ok, err, Exec, pure, refuse_if, or_raise, lift, gets, ◌>>=◌,
  ◌>>◌, Io,
}
pub mod Once
use Prim.Native.String.{◌++◌ as append_text}
use sessionweft.Tenancy.{TenantContext, any_role, can_mutate_runtime}
use sessionweft.Billing.{
  BillingPlan, Subscription, UsageRecord, BillingError, validation, provider, provider_uncertain,
  repository, access_denied, conflict, version_overflow, plan_not_found, plan_inactive,
  no_active_subscription, usage_not_found, meter_not_in_plan, grants_entitlements, new_usage,
}
use sessionweft.Billing.Store.{
  Tables, Action, is_reported, active_subscription, plan, prepare_usage, mark_usage_reporting,
  mark_usage_reported, mark_usage_failed,
}

-- The tables, and the requests to the provider so far.
pub record World : Type 0 where
  pub tables : Tables
  pub calls : List UsageRecord

abbrev pub Service : Type 0 → Type 0
Service A = Exec World BillingError A

abbrev pub on_tables : {A : Type 0} → Action A → Service A
on_tables m w = ((m w.tables).0, record w { tables = (m w.tables).1 })

-- `matches!(error, BillingError::ProviderUncertain(_))`.
abbrev is_uncertain : BillingError → Bool
is_uncertain (provider_uncertain message) = true
is_uncertain _ = false

-- `.filter(Subscription::grants_entitlements)`.
keep_granting : Option Subscription → Option Subscription
keep_granting none = none
keep_granting (some c) = if grants_entitlements c then some c else none

is_some {ℓ} : {A : Type ℓ} → Option A → Bool
is_some none = false
is_some (some a) = true

-- `Display` of BillingError, with the one of the uuid library.
error_text : (ℕ → String) → BillingError → String
error_text show_id (validation m) = append_text "billing validation failed: " m
error_text show_id access_denied = "billing access denied"
error_text show_id (plan_not_found id) =
    append_text "billing plan " (append_text id " was not found")
error_text show_id (plan_inactive id) = append_text "billing plan " (append_text id " is inactive")
error_text show_id (no_active_subscription t) =
    append_text "tenant " (append_text (show_id t) " has no active subscription")
error_text show_id (meter_not_in_plan m p) =
    append_text "meter " (append_text m (append_text " is not available in plan " p))
error_text show_id conflict = "billing optimistic concurrency conflict"
error_text show_id version_overflow = "billing version overflow"
error_text show_id (provider m) = append_text "billing provider rejected the operation: " m
error_text show_id (provider_uncertain m) = append_text "billing provider result is uncertain: " m
error_text show_id (repository m) = append_text "billing repository failure: " m
error_text show_id (usage_not_found id) =
    append_text "billing repository failure: usage record " (append_text (show_id id) " not found")

-- What each of the three writes of `record_usage` reads from outside.
pub record Readings : Type 0 where
  pub create : Io
  pub start : Io
  pub finish : Io

-- What is charged to a meter.
pub record Charge : Type 0 where
  pub meter : String
  pub quantity : ℕ
  pub idempotency_key : String
  pub occurred_at : ℕ

module _ (tenant_id : ℕ) (show_id : ℕ → String)
    (answer : List UsageRecord → Subscription → UsageRecord → Result BillingError String) where
  -- The subscription that a meter is charged to.
  pub billable : TenantContext → String → Action Subscription
  unfolding keep_granting is_some
  billable context meter = do
    found ← active_subscription tenant_id context.tenant_id
    c ← or_raise (no_active_subscription context.tenant_id) (keep_granting found)
    given ← plan c.plan_id
    p ← or_raise (plan_not_found c.plan_id) given
    refuse_if (not (is_some (lookup meter p.meters))) (meter_not_in_plan meter p.id)
    pure c

  -- `self.provider.report_usage`, whose result is matched on.
  pub report : Subscription → UsageRecord → Service (Result BillingError String)
  report c u w = (ok (answer w.calls c u), record w { calls = w.calls ++ u ∷ [] })

  -- The two arms of the match; the error of `mark_usage_failed` is dropped.
  pub settle : Io → UsageRecord → Result BillingError String → Service UsageRecord
  unfolding error_text
  settle io u (ok event_id) w = on_tables (mark_usage_reported tenant_id io u.id event_id) w
  settle io u (err e) w = (
    err e,
    (on_tables (mark_usage_failed tenant_id io u.id (is_uncertain e) (error_text show_id e)) w).1,
  )

  pub report_prepared : Readings → Subscription → UsageRecord → Service UsageRecord
  unfolding report settle
  report_prepared io c u = if is_reported u.state then pure u else (do
    reporting ← on_tables (mark_usage_reporting tenant_id io.start u.id)
    result ← report c reporting
    settle io.finish reporting result)

  unfoldable pub record_usage : Readings → TenantContext → Charge → Service UsageRecord
  unfolding billable report_prepared
  record_usage io context x = do
    refuse_if (not (any_role can_mutate_runtime context.roles)) access_denied
    c ← on_tables (billable context x.meter)
    given ← lift (
        new_usage io.create context.tenant_id c.id x.meter x.quantity x.idempotency_key
          x.occurred_at)
    prepared ← on_tables (prepare_usage tenant_id given)
    report_prepared io c prepared
