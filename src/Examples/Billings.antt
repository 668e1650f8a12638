-- ===== src/Examples/Billings.antt =====
-- A meter that is charged: crates/sessionweft-billing/src/lib.rs.
use sessionweft.Common.{
  ℕ, ◌+◌, String, ◌≡◌, refl, sym, subst, ◌↔◌, some, none, true, List, [], ◌∷◌, Result, ok, err,
  arith, decimal, Io, pos, any, lookup, find_where, update_where, trim, is_blank,
}
use sessionweft.Tenancy.{TenantContext, member, can_mutate_runtime}
use sessionweft.Billing.{
  BillingPlan, Money, Subscription, UsageRecord, BillingError, monthly, active, reported, uncertain,
  provider_uncertain, parse_state, state_text, parse_status, status_text, parse_interval,
  interval_text, grants_entitlements, new_usage,
}
use sessionweft.Billing.Texts.{parse_billing_iff}
use sessionweft.Billing.Store.{
  active_subscription, plan, prepare_usage, mark_usage_reporting, mark_usage_reported,
  mark_usage_failed, require_tenant, differs,
}
use sessionweft.Billing.Service.{World, Readings, Charge, record_usage}
use sessionweft.Billing.Service.Once.{IsKeyed, record_usage-once}

abbrev at : ℕ → Io
at n = record { clock = λ k. n + k; uuid = λ k. n + k }

abbrev readings : ℕ → Readings
readings n = record { create = at n; start = at (n + 10); finish = at (n + 20) }

abbrev price : Money
price = record { currency = "EUR"; minor_units = pos 5 }

abbrev basic : BillingPlan
basic = record {
  id = "basic";
  display_name = "Basic";
  base_price = price;
  interval = monthly;
  entitlements = [];
  meters = ("tokens", record { name = "tokens"; unit_name = "token"; unit_price = price }) ∷ [];
  active = true;
}

abbrev subscribed : Subscription
subscribed = record {
  id = 3;
  tenant_id = 7;
  plan_id = "basic";
  provider = "stripe";
  provider_customer_id = some "cus";
  provider_subscription_id = some "sub";
  status = active;
  period_start = 0;
  period_end = 100;
  version = 1;
  created_at = 0;
  updated_at = 0;
}

abbrev world : World
world = record {
  tables = record {
    tenants = 7 ∷ [];
    plans = basic ∷ [];
    subscriptions = record { provider = "stripe"; created_at = 0; data_json = subscribed } ∷ [];
    usage = [];
    webhooks = [];
    outbox = [];
  };
  calls = [];
}

abbrev bob : TenantContext
bob = record { tenant_id = 7; principal_id = "bob"; roles = member ∷ []; correlation_id = 9 }

abbrev charge : Charge
charge = record { meter = "tokens"; quantity = 12; idempotency_key = "k-1"; occurred_at = 50 }

-- A provider that does not answer the first request, and accepts the others.
abbrev answer : List UsageRecord → Subscription → UsageRecord → Result BillingError String
answer [] c u = err (provider_uncertain "timeout")
answer (x ∷ xs) c u = ok "evt-1"

abbrev first_try : World
first_try = (record_usage 7 decimal answer (readings 100) bob charge world).1

abbrev recorded : UsageRecord
recorded = record {
  id = 100;
  tenant_id = 7;
  subscription_id = 3;
  meter = "tokens";
  quantity = 12;
  idempotency_key = "k-1";
  occurred_at = 50;
  state = reported;
  provider_event_id = some "evt-1";
  attempts = 2;
  last_error = none;
  created_at = 100;
  updated_at = 220;
}

-- After the first try its outcome is not known.
abbrev unknown : UsageRecord
unknown = record recorded {
  state = uncertain;
  provider_event_id = none;
  attempts = 1;
  last_error = some "billing provider result is uncertain: timeout";
  updated_at = 120;
}

unknown_kept : first_try.tables.usage ≡ unknown ∷ []
unfolding record_usage any can_mutate_runtime active_subscription grants_entitlements plan
    find_where update_where lookup new_usage trim prepare_usage mark_usage_reporting
    mark_usage_reported mark_usage_failed is_blank require_tenant differs
unknown_kept = refl

single : (u : UsageRecord) → IsKeyed 7 (u ∷ [])
unfolding IsKeyed find_where
single u key v h = ground arith

keyed : IsKeyed 7 first_try.tables.usage
keyed = subst (IsKeyed 7) (sym unknown_kept) (single unknown)

second_try : (record_usage 7 decimal answer (readings 200) bob charge first_try).0 ≡ ok recorded
unfolding record_usage any can_mutate_runtime active_subscription grants_entitlements plan
    find_where update_where lookup new_usage trim prepare_usage mark_usage_reporting
    mark_usage_reported mark_usage_failed is_blank require_tenant differs
second_try = refl

record_usage-once_example :
    record_usage 7 decimal answer
      (readings 300)
      bob
      charge
      (record_usage 7 decimal answer (readings 200) bob charge first_try).1
    ≡ (ok recorded, (record_usage 7 decimal answer (readings 200) bob charge first_try).1)
record_usage-once_example =
    record_usage-once 7 decimal answer (readings 200) (readings 300) bob charge first_try recorded
      keyed second_try

parse_billing_iff_example :
    ((parse_state "reported" ≡ ok reported) ↔ ("reported" ≡ state_text reported))
    × ((parse_status "active" ≡ ok active) ↔ ("active" ≡ status_text active))
    × ((parse_interval "monthly" ≡ ok monthly) ↔ ("monthly" ≡ interval_text monthly))
parse_billing_iff_example = parse_billing_iff "reported" "active" "monthly" reported active monthly
