-- ===== src/Billing/Texts.antt =====
-- The texts of states, statuses and intervals are read back as they were written:
-- crates/sessionweft-billing/src/lib.rs.
use sessionweft.Common.{String, ◌≡◌, refl, subst, sym, ◌↔◌, ok, eq_iff, arith}
use sessionweft.Billing.{
  BillingInterval, monthly, annual, SubscriptionStatus, pending, trialing, active, past_due, paused,
  cancelled, UsageState, prepared, reporting, reported, failed, uncertain, interval_text,
  parse_interval, status_text, parse_status, state_text, parse_state,
}

read_state : (v : UsageState) → parse_state (state_text v) ≡ ok v
unfolding parse_state state_text
read_state prepared = refl
read_state reporting = refl
read_state reported = refl
read_state failed = refl
read_state uncertain = refl

state_read : (s : String) (v : UsageState) → parse_state s ≡ ok v → s ≡ state_text v
unfolding parse_state state_text
state_read s prepared h = ground (arith, eq_iff s "prepared")
state_read s reporting h = ground (arith, eq_iff s "reporting")
state_read s reported h = ground (arith, eq_iff s "reported")
state_read s failed h = ground (arith, eq_iff s "failed")
state_read s uncertain h = ground (arith, eq_iff s "uncertain")

read_status : (v : SubscriptionStatus) → parse_status (status_text v) ≡ ok v
unfolding parse_status status_text
read_status pending = refl
read_status trialing = refl
read_status active = refl
read_status past_due = refl
read_status paused = refl
read_status cancelled = refl

status_read : (s : String) (v : SubscriptionStatus) → parse_status s ≡ ok v → s ≡ status_text v
unfolding parse_status status_text
status_read s pending h = ground (arith, eq_iff s "pending")
status_read s trialing h = ground (arith, eq_iff s "trialing")
status_read s active h = ground (arith, eq_iff s "active")
status_read s past_due h = ground (arith, eq_iff s "past_due")
status_read s paused h = ground (arith, eq_iff s "paused")
status_read s cancelled h = ground (arith, eq_iff s "cancelled")

read_interval : (v : BillingInterval) → parse_interval (interval_text v) ≡ ok v
unfolding parse_interval interval_text
read_interval monthly = refl
read_interval annual = refl

interval_read : (s : String) (v : BillingInterval) → parse_interval s ≡ ok v → s ≡ interval_text v
unfolding parse_interval interval_text
interval_read s monthly h = ground (arith, eq_iff s "monthly")
interval_read s annual h = ground (arith, eq_iff s "annual")

-- Of usage states, subscription statuses and billing intervals: a text is read as a value exactly when it
-- is the one that the value is displayed as.
pub parse_billing_iff :
    (s t u : String) (v : UsageState) (w : SubscriptionStatus) (i : BillingInterval)
    → ((parse_state s ≡ ok v) ↔ (s ≡ state_text v))
      × ((parse_status t ≡ ok w) ↔ (t ≡ status_text w))
      × ((parse_interval u ≡ ok i) ↔ (u ≡ interval_text i))
parse_billing_iff s t u v w i = (
  (state_read s v, λ e. subst (λ x. parse_state x ≡ ok v) (sym e) (read_state v)),
  (status_read t w, λ e. subst (λ x. parse_status x ≡ ok w) (sym e) (read_status w)),
  (interval_read u i, λ e. subst (λ x. parse_interval x ≡ ok i) (sym e) (read_interval i)),
)
