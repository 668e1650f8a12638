-- ===== src/Billing.antt =====
-- crates/sessionweft-billing/src/lib.rs: plans, subscriptions and usage records. A `PlanId` and a
-- `MeterName` are the text that `parse` has accepted, identifiers and instants are numbers.
pub mod Store
pub mod Texts
pub mod Service
use Prim.Native.String.{◌++◌ as append_text}
use sessionweft.Common.{
  ℕ, String, len, Bool, true, false, not, ◌||◌, ◌&&◌, Option, none, some, List, [], ◌∷◌, ltb, leb,
  ◌==◌, str_eq, if◌then◌else◌, is_blank, trim, is_empty_text, to_ascii_lowercase, all_chars, Map,
  Result, ok, err, Io, ℤ, decimal,
}

pub data BillingInterval : Type 0 where
  monthly annual : BillingInterval

pub data SubscriptionStatus : Type 0 where
  pending trialing active past_due paused cancelled : SubscriptionStatus

pub data UsageState : Type 0 where
  prepared reporting reported failed uncertain : UsageState

pub record Money : Type 0 where
  pub currency : String
  pub minor_units : ℤ

pub record MeterDefinition : Type 0 where
  pub name : String
  pub unit_name : String
  pub unit_price : Money

pub record BillingPlan : Type 0 where
  pub id : String
  pub display_name : String
  pub base_price : Money
  pub interval : BillingInterval
  pub entitlements : Map ℕ
  pub meters : Map MeterDefinition
  pub active : Bool

pub record Subscription : Type 0 where
  pub id : ℕ
  pub tenant_id : ℕ
  pub plan_id : String
  pub provider : String
  pub provider_customer_id : Option String
  pub provider_subscription_id : Option String
  pub status : SubscriptionStatus
  pub period_start : ℕ
  pub period_end : ℕ
  pub version : ℕ
  pub created_at : ℕ
  pub updated_at : ℕ

pub record UsageRecord : Type 0 where
  pub id : ℕ
  pub tenant_id : ℕ
  pub subscription_id : ℕ
  pub meter : String
  pub quantity : ℕ
  pub idempotency_key : String
  pub occurred_at : ℕ
  pub state : UsageState
  pub provider_event_id : Option String
  pub attempts : ℕ
  pub last_error : Option String
  pub created_at : ℕ
  pub updated_at : ℕ

-- The text of a usage record that the repository does not find is kept as the record's identifier.
pub data BillingError : Type 0 where
  validation provider provider_uncertain repository : String → BillingError
  access_denied conflict version_overflow : BillingError
  plan_not_found plan_inactive : String → BillingError
  no_active_subscription usage_not_found : ℕ → BillingError
  meter_not_in_plan : String → String → BillingError

abbrev is_name_char : ℕ → Bool
is_name_char c =
    (leb b'a' c && leb c b'z') || (leb b'0' c && leb c b'9') || c == b'-' || c == b'_' || c == b'.'

-- `PlanId::parse` and `MeterName::parse`, which differ in their message.
parse_name : String → String → Result BillingError String
parse_name message given =
    let value = to_ascii_lowercase (trim given) in
    if is_empty_text value || ltb 128 (len value) || not (all_chars is_name_char value)
    then err (validation message)
    else ok value

pub parse_plan_id : String → Result BillingError String
unfolding parse_name
parse_plan_id =
    parse_name "plan ID must contain 1-128 lowercase letters, numbers, dots, hyphens or underscores"

pub parse_meter_name : String → Result BillingError String
unfolding parse_name
parse_meter_name =
    parse_name
      "meter name must contain 1-128 lowercase letters, numbers, dots, hyphens or underscores"

check_meters : Map MeterDefinition → Result BillingError Unit
check_meters [] = ok tt
check_meters ((name, d) ∷ rest) =
    let later = check_meters rest in
    if not (str_eq name d.name)
    then err (
        validation (
          append_text "meter map key '" (
            append_text name
              (append_text "' does not match definition '" (append_text d.name "'")))))
    else if is_blank d.unit_name || ltb 64 (len d.unit_name)
    then err (
        validation
          (append_text "meter '" (append_text name "' unit name must be between 1 and 64 bytes")))
    else later

-- `BillingPlan::validate`.
unfoldable pub validate_plan : BillingPlan → Result BillingError Unit
unfolding check_meters
validate_plan p =
    if is_blank p.display_name || ltb 256 (len p.display_name)
    then err (validation "plan display name must be between 1 and 256 bytes")
    else check_meters p.meters

unfoldable pub interval_text : BillingInterval → String
interval_text monthly = "monthly"
interval_text annual = "annual"

unfoldable pub parse_interval : String → Result BillingError BillingInterval
parse_interval s =
    if str_eq s "monthly"
    then ok monthly
    else if str_eq s "annual"
    then ok annual
    else err (validation (append_text "unknown billing interval '" (append_text s "'")))

unfoldable pub status_text : SubscriptionStatus → String
status_text pending = "pending"
status_text trialing = "trialing"
status_text active = "active"
status_text past_due = "past_due"
status_text paused = "paused"
status_text cancelled = "cancelled"

unfoldable pub parse_status : String → Result BillingError SubscriptionStatus
parse_status s =
    if str_eq s "pending"
    then ok pending
    else if str_eq s "trialing"
    then ok trialing
    else if str_eq s "active"
    then ok active
    else if str_eq s "past_due"
    then ok past_due
    else if str_eq s "paused"
    then ok paused
    else if str_eq s "cancelled"
    then ok cancelled
    else err (validation (append_text "unknown subscription status '" (append_text s "'")))

unfoldable pub state_text : UsageState → String
state_text prepared = "prepared"
state_text reporting = "reporting"
state_text reported = "reported"
state_text failed = "failed"
state_text uncertain = "uncertain"

unfoldable pub parse_state : String → Result BillingError UsageState
parse_state s =
    if str_eq s "prepared"
    then ok prepared
    else if str_eq s "reporting"
    then ok reporting
    else if str_eq s "reported"
    then ok reported
    else if str_eq s "failed"
    then ok failed
    else if str_eq s "uncertain"
    then ok uncertain
    else err (validation (append_text "unknown usage state '" (append_text s "'")))

-- `Subscription::pending`.
unfoldable pub pending_subscription :
    Io → ℕ → String → String → ℕ → ℕ → Result BillingError Subscription
pending_subscription io tenant_id plan_id given period_start period_end =
    let provider = trim given in
    if leb period_end period_start
    then err (validation "subscription period end must be after period start")
    else if is_empty_text provider || ltb 64 (len provider)
    then err (validation "billing provider name must be between 1 and 64 bytes")
    else ok (record {
      id = io.uuid 0;
      tenant_id = tenant_id;
      plan_id = plan_id;
      provider = provider;
      provider_customer_id = none;
      provider_subscription_id = none;
      status = pending;
      period_start = period_start;
      period_end = period_end;
      version = 0;
      created_at = io.clock 0;
      updated_at = io.clock 0;
    })

abbrev pub is_active : SubscriptionStatus → Bool
is_active trialing = true
is_active active = true
is_active _ = false

unfoldable pub grants_entitlements : Subscription → Bool
grants_entitlements s = is_active s.status

-- `UsageRecord::new`.
unfoldable pub new_usage : Io → ℕ → ℕ → String → ℕ → String → ℕ → Result BillingError UsageRecord
new_usage io tenant_id subscription_id meter quantity given occurred_at =
    let key = trim given in
    if quantity == 0
    then err (validation "usage quantity must be greater than zero")
    else if is_empty_text key || ltb 255 (len key)
    then err (validation "usage idempotency key must be between 1 and 255 bytes")
    else ok (record {
      id = io.uuid 0;
      tenant_id = tenant_id;
      subscription_id = subscription_id;
      meter = meter;
      quantity = quantity;
      idempotency_key = key;
      occurred_at = occurred_at;
      state = prepared;
      provider_event_id = none;
      attempts = 0;
      last_error = none;
      created_at = io.clock 0;
      updated_at = io.clock 0;
    })

unfoldable pub validate_idempotency_key : String → Result BillingError Unit
validate_idempotency_key value =
    if is_blank value || ltb 255 (len value)
    then err (validation "billing idempotency key must be between 1 and 255 bytes")
    else ok tt
