-- ===== src/Billing/Service/Once.antt =====
-- A usage that was recorded is not reported again: crates/sessionweft-billing/src/lib.rs,
-- `BillingService::record_usage`.
use sessionweft.Common.{
  ℕ, ltb, String, ◌≡◌, refl, sym, subst, ◌∙◌, ap, true, false, inl, inr, Option, none, some, List,
  [], ◌∷◌, any, ◌||◌, arith, Option-cases, Bool-cases, Result-cases, Result, ok, is_empty_text, len,
  Io, find_where, find_where-test, find_where_last, trim, ◌==◌, str_eq,
}
use sessionweft.Tenancy.{TenantContext, any_role, can_mutate_runtime}
use sessionweft.Billing.{
  BillingPlan, Subscription, UsageRecord, UsageState, BillingError, prepared, reporting, reported,
  new_usage,
}
use sessionweft.Billing.Store.{
  Tables, is_reported, is_usage_key, is_usage, differs, active_subscription, plan, prepare_usage,
  mark_usage_reporting, mark_usage_reported, require_tenant,
}
use sessionweft.Billing.Store.Usage.{
  terms, Prepared, prepare_usage-Prepared, prepare_usage-again, Moved, mark_reporting-Moved,
  mark_reported-Moved, find_where-replaced,
}
use sessionweft.Billing.Service.{
  World, Readings, keep_granting, Charge, billable, report, settle, report_prepared, record_usage,
}

-- The identifier of a record with a key is its own.
unfoldable pub IsKeyed : ℕ → List UsageRecord → Type 0
IsKeyed t rows =
    (key : String) (u : UsageRecord)
    → find_where (is_usage_key t key) rows ≡ some u
    → find_where (is_usage t u.id) rows ≡ some u

active_subscription-reads :
    (t id : ℕ) (s s' : Tables)
    → s'.subscriptions ≡ s.subscriptions
    → ((active_subscription t id s').0 ≡ (active_subscription t id s).0)
      × ((active_subscription t id s).1 ≡ s)
      × ((active_subscription t id s').1 ≡ s')
unfolding active_subscription require_tenant
active_subscription-reads t id s s' e = ground arith

-- The record of a key after a transition that wrote.
row_moves :
    (t : ℕ) (io : Io) (state : UsageState) (event : Option String) (key : String)
    (u v : UsageRecord) (s s' : Tables)
    → find_where (is_usage_key t key) s.usage ≡ some u
    → find_where (is_usage t u.id) s.usage ≡ some u
    → is_reported u.state ≡ false
    → Moved t io state event u v s s'
    → (find_where (is_usage_key t key) s'.usage ≡ some v)
      × (find_where (is_usage t v.id) s'.usage ≡ some v)
      × (v.state ≡ state)
      × ((w : UsageRecord) → differs t v w ≡ differs t u w)
row_moves t io state event key u v s s' by_key by_id ongoing m = elim m.how [
  | inl (final, same, kept) ↦ absurd (ground arith)
  | inr (ongoing', to, named, id, tenant, text, same, rows) ↦
      let hit = find_where-test (is_usage t u.id) u s.usage by_id in
      let hit_key = find_where-test (is_usage_key t key) u s.usage by_key in
      let a =
        find_where-replaced (is_usage t u.id) (is_usage_key t key) u v s.usage by_key hit
          (rw (tenant, text) hit_key) in
      let b =
        find_where-replaced (is_usage t u.id) (is_usage t u.id) u v s.usage by_id hit
          (rw (tenant, id) hit) in
      (
        rw rows a,
        subst (λ n. find_where (is_usage t n) s'.usage ≡ some v) (sym id) (rw rows b),
        to,
        same,
      )
]

not_there :
    (t id : ℕ) (rows : List UsageRecord)
    → any (λ (r : UsageRecord). r.id == id) rows ≡ false
    → find_where (is_usage t id) rows ≡ none
unfolding any find_where
not_there t id [] h = refl
not_there t id (r ∷ rows) h = ground (arith, not_there t id rows)

module _ (t : ℕ) (show_id : ℕ → String)
    (answer : List UsageRecord → Subscription → UsageRecord → Result BillingError String) where
  -- `billable` reads the plans and the subscriptions, and writes nothing.
  billable-reads :
      (context : TenantContext) (meter : String) (s s' : Tables)
      → terms s' ≡ terms s
      → ((billable t show_id answer context meter s').0
          ≡ (billable t show_id answer context meter s).0)
        × ((billable t show_id answer context meter s).1 ≡ s)
        × ((billable t show_id answer context meter s').1 ≡ s')
  unfolding billable plan
  billable-reads context meter s s' e =
      let plans : s'.plans ≡ s.plans = ap (λ x. x.0) e in
      let subscriptions : s'.subscriptions ≡ s.subscriptions = ap (λ x. x.1) e in
      let reads = active_subscription-reads t context.tenant_id s s' subscriptions in
      elim (Result-cases (active_subscription t context.tenant_id s).0) [
        | inr (x, h) ↦ (ground arith, ground arith, ground arith)
        | inl (found, h) ↦ elim (Option-cases (keep_granting found)) [
          | inl k ↦ (ground arith, ground arith, ground arith)
          | inr (c, k) ↦
              let same : find_where (λ (r : BillingPlan). str_eq r.id c.plan_id) s'.plans
                  ≡ find_where (λ (r : BillingPlan). str_eq r.id c.plan_id) s.plans =
                rw plans refl in
              elim (Option-cases
                (find_where (λ (r : BillingPlan). str_eq r.id c.plan_id) s.plans)) [
                  | inl n ↦ (ground arith, ground arith, ground arith)
                  | inr (p, n) ↦ (ground arith, ground arith, ground arith)
                ]
        ]
      ]

  -- What `report_prepared` leaves when it succeeds: the record, reported, under its key.
  report_prepared-done :
      (io : Readings) (c : Subscription) (key : String) (u v : UsageRecord) (w : World)
      → find_where (is_usage_key t key) w.tables.usage ≡ some u
      → find_where (is_usage t u.id) w.tables.usage ≡ some u
      → (report_prepared t show_id answer io c u w).0 ≡ ok v
      → (find_where (is_usage_key t key) (report_prepared t show_id answer io c u w).1.tables.usage
          ≡ some v)
        × (is_reported v.state ≡ true)
        × ((x : UsageRecord) → differs t v x ≡ differs t u x)
        × (terms (report_prepared t show_id answer io c u w).1.tables ≡ terms w.tables)
  unfolding report_prepared report settle
  report_prepared-done io c key u v w by_key by_id h = elim (Bool-cases (is_reported u.state)) [
    | inl final ↦
        let same : v ≡ u = ground arith in
        let kept : (report_prepared t show_id answer io c u w).1 ≡ w = ground arith in
        (rw (kept, same) by_key, rw same final, λ x. rw same refl, rw kept refl)
    | inr ongoing ↦ elim (Result-cases (mark_usage_reporting t io.start u.id w.tables).0) [
      | inr (x, e) ↦ absurd (ground arith)
      | inl (u1, e) ↦
          let s1 : Tables = (mark_usage_reporting t io.start u.id w.tables).1 in
          let (u0, there, m) = mark_reporting-Moved t io.start u.id w.tables u1 e in
          let same : u0 ≡ u = ground arith in
          let m' : Moved t io.start reporting none u u1 w.tables s1 =
            subst (λ x. Moved t io.start reporting none x u1 w.tables s1) same m in
          let (key1, id1, state1, alike1) =
            row_moves t io.start reporting none key u u1 w.tables s1 by_key by_id ongoing m' in
          elim (Result-cases (answer w.calls c u1)) [
            | inr (x, f) ↦ absurd (ground arith)
            | inl (event, f) ↦
                let s2 : Tables = (mark_usage_reported t io.finish u1.id event s1).1 in
                let last : (mark_usage_reported t io.finish u1.id event s1).0 ≡ ok v =
                  ground arith in
                let kept : (report_prepared t show_id answer io c u w).1.tables ≡ s2 =
                  ground arith in
                let (u2, there2, m2) = mark_reported-Moved t io.finish u1.id event s1 v last in
                let same2 : u2 ≡ u1 = ground arith in
                let m3 : Moved t io.finish reported (some event) u1 v s1 s2 =
                  subst (λ x. Moved t io.finish reported (some event) x v s1 s2) same2 m2 in
                let (key2, id2, state2, alike2) =
                  row_moves t io.finish reported (some event) key u1 v s1 s2 key1 id1
                    (rw state1 refl) m3 in
                (
                  rw kept key2,
                  rw state2 refl,
                  λ x. alike2 x ∙ alike1 x,
                  rw kept (m3.terms_kept ∙ m'.terms_kept),
                )
          ]
    ]
  ]

  -- A record as it is asked for, at two readings of the clock and the identifiers.
  new_usage-alike :
      (io later : Io) (tenant subscription : ℕ) (meter : String) (quantity : ℕ) (key : String)
      (at : ℕ) (u : UsageRecord)
      → new_usage io tenant subscription meter quantity key at ≡ ok u
      → (x : UsageRecord) × (new_usage later tenant subscription meter quantity key at ≡ ok x)
        × (x.idempotency_key ≡ u.idempotency_key)
        × (x.tenant_id ≡ u.tenant_id)
        × (x.quantity ≡ u.quantity)
        × ((u.quantity == 0) ≡ false)
        × (x.attempts ≡ 0)
        × ((p : UsageRecord) → differs t p x ≡ differs t p u)
  unfolding new_usage differs
  new_usage-alike io later tenant subscription meter quantity key at u h =
      elim (Bool-cases (quantity == 0)) [
        | inl zero ↦ absurd (ground arith)
        | inr positive ↦ elim (Bool-cases (is_empty_text (trim key) || ltb 255 (len (trim key)))) [
          | inl bad ↦ absurd (ground arith)
          | inr good ↦
              let made : UsageRecord = record {
                id = later.uuid 0;
                tenant_id = tenant;
                subscription_id = subscription;
                meter = meter;
                quantity = quantity;
                idempotency_key = trim key;
                occurred_at = at;
                state = prepared;
                provider_event_id = none;
                attempts = 0;
                last_error = none;
                created_at = later.clock 0;
                updated_at = later.clock 0;
              } in
              (
                made,
                ground arith,
                ground arith,
                ground arith,
                ground arith,
                ground arith,
                refl,
                λ p. ground arith,
              )
        ]
      ]

  -- The table after a record was prepared holds it under its identifier too.
  own_id :
      (u p : UsageRecord) (s s' : Tables)
      → IsKeyed t s.usage
      → Prepared t u p s s'
      → find_where (is_usage t p.id) s'.usage ≡ some p
  unfolding IsKeyed
  own_id u p s s' v m = elim m.how [
    | inl kept ↦ rw kept (
        v u.idempotency_key p (
          subst (λ rows. find_where (is_usage_key t u.idempotency_key) rows ≡ some p) kept m.found))
    | inr (same, fresh, rows) ↦
        let mine = m.mine in
        let none_there = not_there t u.id s.usage fresh in
        let last = find_where_last (is_usage t u.id) u s.usage (ground arith) none_there in
        rw (rows, same) last
  ]

  -- A charge whose checks pass is prepared and reported.
  record_usage-steps :
      (io : Readings) (context : TenantContext) (x : Charge) (w : World) (c : Subscription)
      (u p : UsageRecord)
      → any_role can_mutate_runtime context.roles ≡ true
      → (billable t show_id answer context x.meter w.tables).0 ≡ ok c
      → new_usage io.create context.tenant_id c.id x.meter x.quantity x.idempotency_key
          x.occurred_at
        ≡ ok u
      → (prepare_usage t u w.tables).0 ≡ ok p
      → record_usage t show_id answer io context x w
        ≡ report_prepared t show_id answer io c p
            (record w { tables = (prepare_usage t u w.tables).1 })
  unfolding record_usage
  record_usage-steps io context x w c u p may good made ready =
      let kept = (billable-reads context x.meter w.tables w.tables refl).1 in ground arith

  report_prepared-final :
      (io : Readings) (c : Subscription) (v : UsageRecord) (w : World)
      → is_reported v.state ≡ true
      → report_prepared t show_id answer io c v w ≡ (ok v, w)
  unfolding report_prepared
  report_prepared-final io c v w final = rw final refl

  once :
      (io later : Readings) (context : TenantContext) (x : Charge) (w : World) (c : Subscription)
      (u p v : UsageRecord)
      → IsKeyed t w.tables.usage
      → any_role can_mutate_runtime context.roles ≡ true
      → (billable t show_id answer context x.meter w.tables).0 ≡ ok c
      → new_usage io.create context.tenant_id c.id x.meter x.quantity x.idempotency_key
          x.occurred_at
        ≡ ok u
      → (prepare_usage t u w.tables).0 ≡ ok p
      → record_usage t show_id answer io context x w
        ≡ report_prepared t show_id answer io c p
            (record w { tables = (prepare_usage t u w.tables).1 })
      → (record_usage t show_id answer io context x w).0 ≡ ok v
      → record_usage t show_id answer later context x
          (record_usage t show_id answer io context x w).1
        ≡ (ok v, (record_usage t show_id answer io context x w).1)
  unfolding report_prepared
  once io later context x w c u p v keyed may good made ready steps h =
      let w2 : World = record w { tables = (prepare_usage t u w.tables).1 } in
      let m = prepare_usage-Prepared t u p w.tables ready in
      let by_id = own_id u p w.tables w2.tables keyed m in
      let (found, final, alike, terms_kept) =
        report_prepared-done io c u.idempotency_key p v w2 m.found by_id
          (subst (λ o. o.0 ≡ ok v) steps h) in
      let end_ : World = (report_prepared t show_id answer io c p w2).1 in
      let reads = billable-reads context x.meter w.tables end_.tables (terms_kept ∙ m.terms_kept) in
      let (y, made', key, tenant, amount, positive, first, same) =
        new_usage-alike io.create later.create context.tenant_id c.id x.meter x.quantity
          x.idempotency_key x.occurred_at u made in
      let again =
        prepare_usage-again t y v end_.tables (rw key found) (same v ∙ alike u ∙ m.same)
          (rw tenant m.mine) (rw amount m.fits) (rw amount positive) first in
      let steps' =
        record_usage-steps later context x end_ c y v may (reads.0 ∙ good) made'
          (ap (λ o. o.0) again) in
      let fin : record_usage t show_id answer later context x end_ ≡ (ok v, end_) =
        steps'
        ∙ ap (λ o. report_prepared t show_id answer later c v (record end_ { tables = o.1 })) again
        ∙ report_prepared-final later c v end_ final in
      subst (λ o. record_usage t show_id answer later context x o.1 ≡ (ok v, o.1)) (sym steps) fin

  -- The same charge again, after it was recorded: the record is returned as it is, and neither the tables
  -- nor the requests to the provider change, so it is not reported twice. Where the identifier of a record
  -- that has a key is its own.
  pub record_usage-once :
      (io later : Readings) (context : TenantContext) (x : Charge) (w : World) (v : UsageRecord)
      → IsKeyed t w.tables.usage
      → (record_usage t show_id answer io context x w).0 ≡ ok v
      → record_usage t show_id answer later context x
          (record_usage t show_id answer io context x w).1
        ≡ (ok v, (record_usage t show_id answer io context x w).1)
  unfolding record_usage
  record_usage-once io later context x w v keyed h =
      elim (Bool-cases (any_role can_mutate_runtime context.roles)) [
        | inr denied ↦ absurd (ground arith)
        | inl may ↦ elim (Result-cases (billable t show_id answer context x.meter w.tables).0) [
          | inr (e, bad) ↦ absurd (ground arith)
          | inl (c, good) ↦
              let kept = (billable-reads context x.meter w.tables w.tables refl).1 in
              elim (Result-cases (
                new_usage io.create context.tenant_id c.id x.meter x.quantity x.idempotency_key
                  x.occurred_at)) [
                    | inr (e, bad) ↦ absurd (ground arith)
                    | inl (u, made) ↦ elim (Result-cases (prepare_usage t u w.tables).0) [
                      | inr (e, bad) ↦ absurd (ground arith)
                      | inl (p, ready) ↦
                          once io later context x w c u p v keyed may good made ready
                            (record_usage-steps io context x w c u p may good made ready) h
                    ]
                  ]
        ]
      ]
