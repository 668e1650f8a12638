-- ===== src/Billing/Store.antt =====
-- crates/sessionweft-saas-postgres/src/billing.rs: the repository of one tenant's billing over its
-- tables. Each method that writes is one transaction, and the locks of its rows order it among the
-- others. A row is its `data_json`, whose columns hold the same values, but for a subscription's provider
-- and instant of creation, which no UPDATE sets; the keys, references and checks are those of crates/sessionweft-saas-postgres/src/database.rs, of whose tenants the identifiers count.
pub mod Usage
use Prim.Native.String.{◌++◌ as append_text}
use sessionweft.Common.{
  ℕ, zero, suc, ◌+◌, String, len, Bool, true, false, not, ◌||◌, ◌&&◌, Option, none, some, List, [],
  ◌∷◌, ◌++◌, any, ltb, leb, ◌==◌, str_eq, if◌then◌else◌, is_blank, find_where, update_where,
  timestamptz, Result, ok, err, Exec, pure, raise, gets, modify, refuse_if, or_raise, lift, ◌>>=◌,
  ◌>>◌, Io, Fields, Value, obj, field, end, decimal,
}
use sessionweft.Tenancy.Store.{AuditRow}
use sessionweft.Billing.{
  BillingPlan, Subscription, SubscriptionStatus, active, trialing, is_active, UsageRecord,
  UsageState, prepared, reporting, reported, failed, uncertain, BillingError, validation,
  repository, access_denied, conflict, version_overflow, usage_not_found, validate_plan,
  parse_status, status_text, state_text,
}

pub record WebhookRow : Type 0 where
  pub provider : String
  pub event_id : String
  pub tenant_id : ℕ
  pub event_type : String
  pub payload : Value
  pub occurred_at : ℕ
  pub processed_at : ℕ

-- The columns that stay as they were inserted, and `data_json`.
pub record SubscriptionRow : Type 0 where
  pub provider : String
  pub created_at : ℕ
  pub data_json : Subscription

pub record Tables : Type 0 where
  pub tenants : List ℕ
  pub plans : List BillingPlan
  pub subscriptions : List SubscriptionRow
  pub usage : List UsageRecord
  pub webhooks : List WebhookRow
  pub outbox : List AuditRow

pub record ProviderWebhookEvent : Type 0 where
  pub provider : String
  pub event_id : String
  pub event_type : String
  pub tenant_id : ℕ
  pub payload : Value
  pub occurred_at : ℕ

abbrev pub Action : Type 0 → Type 0
Action A = Exec Tables BillingError A

-- What is not committed is rolled back.
pub transaction : {A : Type 0} → Action A → Action A
transaction m s = elim (m s).0 [ ok a ↦ m s | err e ↦ (err e, s) ]

abbrev pub i64_max : ℕ
i64_max = 9223372036854775807

abbrev pub i32_max : ℕ
i32_max = 2147483647

abbrev pub u32_max : ℕ
u32_max = 4294967295

abbrev pub u64_max : ℕ
u64_max = 18446744073709551615

abbrev pub as_i64 : ℕ → Action Unit
as_i64 n = refuse_if (ltb i64_max n) version_overflow

abbrev pub as_i32 : ℕ → Action Unit
as_i32 n = refuse_if (ltb i32_max n) version_overflow

pub refer_to_tenant : ℕ → Action Unit
refer_to_tenant id = do
  there ← gets (λ s. any (λ t. t == id) s.tenants)
  refuse_if (not there) (repository "violates foreign key constraint")

pub insert_audit : Io → ℕ → String → Fields → Action Unit
unfolding refer_to_tenant
insert_audit io tenant_id event_type payload = do
  taken ← gets (λ s. any (λ (r : AuditRow). r.event_id == io.uuid 0) s.outbox)
  refuse_if taken (repository "violates unique constraint sessionweft_saas_outbox_pkey")
  refer_to_tenant tenant_id
  modify (λ s. record s {
    outbox =
        s.outbox
        ++ (record {
          event_id = io.uuid 0;
          tenant_id = tenant_id;
          event_type = event_type;
          payload = obj payload;
          correlation_id = io.uuid 1;
          created_at = io.clock 0;
        })
          ∷ [];
  })

put_plan : BillingPlan → List BillingPlan → List BillingPlan
put_plan p rows = elim (find_where (λ (r : BillingPlan). str_eq r.id p.id) rows) [
  | none ↦ rows ++ p ∷ []
  | some old ↦ update_where (λ (r : BillingPlan). str_eq r.id p.id) (λ r. p) rows
]

pub upsert_plan : BillingPlan → Action Unit
unfolding put_plan
upsert_plan p = do lift (validate_plan p); modify (λ s. record s { plans = put_plan p s.plans })

unfoldable pub plan : String → Action (Option BillingPlan)
plan id = gets (λ s. find_where (λ (r : BillingPlan). str_eq r.id id) s.plans)

abbrev pub is_usage_key : ℕ → String → UsageRecord → Bool
is_usage_key tenant_id key r = r.tenant_id == tenant_id && str_eq r.idempotency_key key

abbrev pub is_usage : ℕ → ℕ → UsageRecord → Bool
is_usage tenant_id id r = r.tenant_id == tenant_id && r.id == id

abbrev pub is_subscription : ℕ → ℕ → SubscriptionRow → Bool
is_subscription tenant_id id r = r.data_json.tenant_id == tenant_id && r.data_json.id == id

abbrev data_of : Option SubscriptionRow → Option Subscription
data_of none = none
data_of (some r) = some r.data_json

-- UPDATE, which replaces every column but the provider and the instant of creation.
put_subscription : ℕ → ℕ → Subscription → List SubscriptionRow → List SubscriptionRow
put_subscription tenant_id id c rows =
    update_where (is_subscription tenant_id id) (λ r. record r { data_json = c }) rows

abbrev is_missing : Option SubscriptionRow → Bool
is_missing none = true
is_missing (some r) = false

-- ORDER BY updated_at DESC LIMIT 1; SQL leaves the choice among equals open, here it is the first.
latest : (SubscriptionRow → Bool) → List SubscriptionRow → Option SubscriptionRow
latest test [] = none
latest test (r ∷ rows) =
    let rest = latest test rows in
    if test r
    then elim rest [
      | none ↦ some r
      | some q ↦
          if ltb (timestamptz r.data_json.updated_at) (timestamptz q.data_json.updated_at)
          then some q
          else some r
    ]
    else rest

same_text : Option String → Option String → Bool
same_text (some a) (some b) = str_eq a b
same_text _ _ = false

-- idx_sessionweft_subscription_provider, on the rows with a provider's identifier.
same_provider_subscription : String → Option String → SubscriptionRow → Bool
unfolding same_text
same_provider_subscription provider id r =
    str_eq provider r.provider && same_text id r.data_json.provider_subscription_id

-- The other rows that an UPDATE of the row `r` to `c` meets in that index.
is_taken : Subscription → Option SubscriptionRow → List SubscriptionRow → Bool
unfolding same_provider_subscription
is_taken c none rows = false
is_taken c (some r) rows =
    any
      (λ (x : SubscriptionRow).
        not (x.data_json.id == c.id)
        && same_provider_subscription r.provider c.provider_subscription_id x)
      rows

-- `value.chars().take(4_096).collect()`.
take_chars : ℕ → String → String
take_chars zero s = ""
take_chars (suc n) String.[] = ""
take_chars (suc n) (String.◌∷◌ c s) = String.◌∷◌ c (take_chars n s)

sanitize : Option String → Option String
unfolding take_chars
sanitize none = none
sanitize (some s) = some (take_chars 4096 s)

abbrev pub is_reported : UsageState → Bool
is_reported reported = true
is_reported _ = false

-- `payload.get(name).and_then(|value| value.as_str())`.
get_str : String → Fields → Option String
get_str name end = none
get_str name (field key (Value.str s) rest) =
    let later = get_str name rest in if str_eq key name then some s else later
get_str name (field key _ rest) =
    let later = get_str name rest in if str_eq key name then none else later

payload_str : String → Value → Option String
unfolding get_str
payload_str name (obj fields) = get_str name fields
payload_str name _ = none

-- The methods of the repository of a tenant.
module _ (tenant_id : ℕ) where
  unfoldable pub require_tenant : ℕ → Action Unit
  require_tenant id = refuse_if (not (id == tenant_id)) access_denied

  pub create_subscription : Io → Subscription → Action Subscription
  unfolding require_tenant transaction refer_to_tenant insert_audit same_provider_subscription
  create_subscription io c = do
    require_tenant c.tenant_id
    transaction (do
      as_i64 c.version
      refer_to_tenant c.tenant_id
      known ← gets (λ s. any (λ (p : BillingPlan). str_eq p.id c.plan_id) s.plans)
      refuse_if (not known) (repository "violates foreign key constraint")
      taken ← gets (λ s.
          any
            (λ (r : SubscriptionRow).
              r.data_json.id == c.id
              || same_provider_subscription c.provider c.provider_subscription_id r)
            s.subscriptions)
      refuse_if taken (repository "violates unique constraint")
      modify (λ s. record s {
        subscriptions =
            s.subscriptions
            ++ (record {
              provider = c.provider;
              created_at = timestamptz c.created_at;
              data_json = c;
            })
              ∷ [];
      })
      insert_audit io tenant_id "billing.subscription_created" (
          field "subscription_id" (Value.uuid c.id)
            (field "plan_id" (Value.str c.plan_id) (field "provider" (Value.str c.provider) end)))
      pure c)

  pub subscription : ℕ → ℕ → Action (Option Subscription)
  unfolding require_tenant
  subscription id subscription_id = do
    require_tenant id
    gets (λ s. data_of (find_where (is_subscription tenant_id subscription_id) s.subscriptions))

  unfoldable pub active_subscription : ℕ → Action (Option Subscription)
  unfolding require_tenant latest
  active_subscription id = do
    require_tenant id
    gets (λ s. data_of (
        latest
          (λ (r : SubscriptionRow).
            r.data_json.tenant_id == tenant_id && is_active r.data_json.status)
          s.subscriptions))

  pub save_subscription : Io → ℕ → Subscription → Action Subscription
  unfolding require_tenant transaction insert_audit is_taken put_subscription
  save_subscription io expected c = do
    require_tenant c.tenant_id
    transaction (do
      as_i64 c.version
      as_i64 expected
      known ← gets (λ s. any (λ (p : BillingPlan). str_eq p.id c.plan_id) s.plans)
      row ← gets (λ s.
          find_where
            (λ (r : SubscriptionRow).
              is_subscription tenant_id c.id r && r.data_json.version == expected)
            s.subscriptions)
      refuse_if (is_missing row) conflict
      refuse_if (not known) (repository "violates foreign key constraint")
      taken ← gets (λ s. is_taken c row s.subscriptions)
      refuse_if taken (repository "violates unique constraint")
      modify (λ s. record s { subscriptions = put_subscription tenant_id c.id c s.subscriptions })
      insert_audit io tenant_id "billing.subscription_updated" (
          field "subscription_id" (Value.uuid c.id) (
            field "status" (Value.str (status_text c.status))
              (field "version" (Value.num c.version) end)))
      pure c)

  -- INSERT .. ON CONFLICT (tenant_id, idempotency_key) DO NOTHING.
  pub insert_usage : UsageRecord → Option UsageRecord → Action Unit
  unfolding refer_to_tenant
  insert_usage u (some old) = pure tt
  insert_usage u none = do
    taken ← gets (λ s. any (λ (r : UsageRecord). r.id == u.id) s.usage)
    refuse_if taken (repository "violates unique constraint sessionweft_billing_usage_pkey")
    refer_to_tenant tenant_id
    known ←
        gets
          (λ s. any (λ (r : SubscriptionRow). r.data_json.id == u.subscription_id) s.subscriptions)
    refuse_if (not known) (repository "violates foreign key constraint")
    modify (λ s. record s { usage = s.usage ++ u ∷ [] })

  unfoldable pub differs : UsageRecord → UsageRecord → Bool
  differs persisted u =
      not (persisted.subscription_id == u.subscription_id)
      || not (str_eq persisted.meter u.meter)
      || not (persisted.quantity == u.quantity)
      || not (persisted.occurred_at == u.occurred_at)

  pub prepare_steps : UsageRecord → Action UsageRecord
  unfolding insert_usage differs
  prepare_steps u = do
    as_i64 u.quantity
    as_i32 u.attempts
    refuse_if (u.quantity == 0) (repository "violates check constraint")
    old ← gets (λ s. find_where (is_usage_key tenant_id u.idempotency_key) s.usage)
    insert_usage u old
    row ← gets (λ s. find_where (is_usage_key tenant_id u.idempotency_key) s.usage)
    persisted ← or_raise (repository "no rows returned") row
    refuse_if (differs persisted u)
        (validation "billing idempotency key was reused with different usage parameters")
    pure persisted

  unfoldable pub prepare_usage : UsageRecord → Action UsageRecord
  unfolding require_tenant transaction prepare_steps
  prepare_usage u = do require_tenant u.tenant_id; transaction (prepare_steps u)

  -- The record after a transition.
  pub moved : Io → UsageState → Option String → Option String → ℕ → UsageRecord → UsageRecord
  unfolding sanitize
  moved io state provider_event_id last_error attempts u = record u {
    attempts = attempts;
    state = state;
    provider_event_id = provider_event_id;
    last_error = sanitize last_error;
    updated_at = io.clock 0;
  }

  pub move_usage :
      Io → UsageState → Option String → Option String → Bool → UsageRecord → Action UsageRecord
  unfolding moved insert_audit
  move_usage io state provider_event_id last_error increment u = do
    refuse_if (increment && leb u32_max u.attempts) version_overflow
    let u' =
        moved io state provider_event_id last_error
          (if increment then u.attempts + 1 else u.attempts) u
    as_i32 u'.attempts
    modify (λ s. record s { usage = update_where (is_usage tenant_id u.id) (λ r. u') s.usage })
    insert_audit io tenant_id "billing.usage_transitioned" (
        field "usage_id" (Value.uuid u'.id) (
          field "state" (Value.str (state_text u'.state))
            (field "attempts" (Value.num u'.attempts) end)))
    pure u'

  pub transition_usage :
      Io → ℕ → UsageState → Option String → Option String → Bool → Action UsageRecord
  unfolding transaction move_usage
  transition_usage io usage_id state provider_event_id last_error increment = transaction (do
    row ← gets (λ s. find_where (is_usage tenant_id usage_id) s.usage)
    u ← or_raise (usage_not_found usage_id) row
    (if is_reported u.state
        then pure u
        else move_usage io state provider_event_id last_error increment u))

  unfoldable pub mark_usage_reporting : Io → ℕ → Action UsageRecord
  unfolding transition_usage
  mark_usage_reporting io id = transition_usage io id reporting none none true

  unfoldable pub mark_usage_reported : Io → ℕ → String → Action UsageRecord
  unfolding transition_usage
  mark_usage_reported io id provider_event_id = do
    refuse_if (is_blank provider_event_id || ltb 512 (len provider_event_id))
        (validation "provider usage event ID must be between 1 and 512 bytes")
    transition_usage io id reported (some provider_event_id) none false

  unfoldable pub mark_usage_failed : Io → ℕ → Bool → String → Action UsageRecord
  unfolding transition_usage
  mark_usage_failed io id is_uncertain error =
      transition_usage io id (if is_uncertain then uncertain else failed) none (some error) false

  set_status : Io → SubscriptionStatus → Subscription → Action Unit
  unfolding put_subscription
  set_status io status c = do
    refuse_if (leb u64_max c.version) version_overflow
    as_i64 (c.version + 1)
    modify (λ s. record s {
      subscriptions =
          put_subscription tenant_id c.id
            (record c { status = status; version = c.version + 1; updated_at = io.clock 0 })
            s.subscriptions;
    })

  apply_status : Io → ProviderWebhookEvent → Option String → Option String → Action Unit
  unfolding set_status
  apply_status io e (some id) (some text) = do
    status ← lift (parse_status text)
    row ← gets (λ s.
        find_where
          (λ (r : SubscriptionRow).
            r.data_json.tenant_id == tenant_id
            && str_eq r.provider e.provider
            && (elim r.data_json.provider_subscription_id [ none ↦ false | some x ↦ str_eq x id ]))
          s.subscriptions)
    elim row [ none ↦ pure tt | some r ↦ set_status io status r.data_json ]
  apply_status io e _ _ = pure tt

  pub apply_webhook : Io → ProviderWebhookEvent → Action Bool
  unfolding require_tenant transaction refer_to_tenant apply_status payload_str insert_audit
  apply_webhook io e = do
    require_tenant e.tenant_id
    transaction (do
      seen ← gets (λ s.
          any (λ (r : WebhookRow). str_eq r.provider e.provider && str_eq r.event_id e.event_id)
            s.webhooks)
      (if seen then pure false else (do
        refer_to_tenant tenant_id
        modify (λ s. record s {
          webhooks =
              s.webhooks
              ++ (record {
                provider = e.provider;
                event_id = e.event_id;
                tenant_id = tenant_id;
                event_type = e.event_type;
                payload = e.payload;
                occurred_at = timestamptz e.occurred_at;
                processed_at = io.clock 0;
              })
                ∷ [];
        })
        apply_status io e (payload_str "provider_subscription_id" e.payload)
            (payload_str "status" e.payload)
        insert_audit io tenant_id "billing.webhook_applied" (
            field "provider" (Value.str e.provider) (
              field "event_id" (Value.str e.event_id)
                (field "event_type" (Value.str e.event_type) end)))
        pure true)))
