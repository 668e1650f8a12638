-- ===== src/Billing/Store/Usage.antt =====
-- What the writes of usage records do: crates/sessionweft-saas-postgres/src/billing.rs, `prepare_usage`
-- and `transition_usage`.
use sessionweft.Common.{
  ℕ, ltb, String, ◌≡◌, sym, subst, Bool, true, false, ◌⊎◌, inl, inr, Option, none, some, List, [],
  ◌∷◌, ◌++◌, any, ◌||◌, arith, Option-cases, Bool-cases, ok, Io, is_blank, len, find_where,
  update_where, find_where_last, ◌==◌, eq_refl,
}
use sessionweft.Billing.{BillingPlan, UsageRecord, UsageState, reporting, reported}
use sessionweft.Billing.Store.{
  Tables, SubscriptionRow, i64_max, is_usage_key, is_usage, is_reported, differs, prepare_usage,
  prepare_steps, insert_usage, require_tenant, transaction, transition_usage, move_usage, moved,
  insert_audit, refer_to_tenant, mark_usage_reporting, mark_usage_reported,
}

-- The rows that name plans and subscriptions.
abbrev pub terms : Tables → List BillingPlan × List SubscriptionRow
terms s = (s.plans, s.subscriptions)

module _ (t : ℕ) where
  -- A record that was prepared: the one of its key, as it stood or as it was given.
  pub record Prepared (u p : UsageRecord) (s s' : Tables) : Type 0 where
    pub found : find_where (is_usage_key t u.idempotency_key) s'.usage ≡ some p
    pub same : differs t p u ≡ false
    pub fits : ltb i64_max u.quantity ≡ false
    pub mine : (u.tenant_id == t) ≡ true
    pub terms_kept : terms s' ≡ terms s
    pub how :
        (s'.usage ≡ s.usage)
        ⊎ (p ≡ u)
          × (any (λ (r : UsageRecord). r.id == u.id) s.usage ≡ false)
          × (s'.usage ≡ s.usage ++ u ∷ [])

  pub prepare_usage-Prepared :
      (u p : UsageRecord) (s : Tables)
      → (prepare_usage t u s).0 ≡ ok p
      → Prepared u p s (prepare_usage t u s).1
  unfolding prepare_usage prepare_steps insert_usage require_tenant transaction refer_to_tenant
  prepare_usage-Prepared u p s h =
      elim (Option-cases (find_where (is_usage_key t u.idempotency_key) s.usage)) [
        | inr (old, e) ↦ record {
          found = ground arith;
          same = ground arith;
          fits = ground arith;
          mine = ground arith;
          terms_kept = ground arith;
          how = inl (ground arith);
        }
        | inl e ↦
            let mine : (u.tenant_id == t) ≡ true = ground arith in
            let last =
              find_where_last (is_usage_key t u.idempotency_key) u s.usage
                (ground (arith, eq_refl u.idempotency_key)) e in
            let rows : (prepare_usage t u s).1.usage ≡ s.usage ++ u ∷ [] = ground arith in
            let mine' : p ≡ u = ground arith in
            record {
              found = ground arith;
              same = ground arith;
              fits = ground arith;
              mine = mine;
              terms_kept = ground arith;
              how = inr (mine', ground arith, rows);
            }
      ]

  -- A transition: nothing on a reported record, else the record's new state.
  pub record Moved (io : Io) (state : UsageState) (event : Option String) (u v : UsageRecord)
      (s s' : Tables) : Type 0 where
    pub terms_kept : terms s' ≡ terms s
    pub how :
        (is_reported u.state ≡ true) × (v ≡ u) × (s' ≡ s)
        ⊎ (is_reported u.state ≡ false)
          × (v.state ≡ state)
          × (v.provider_event_id ≡ event)
          × (v.id ≡ u.id)
          × (v.tenant_id ≡ u.tenant_id)
          × (v.idempotency_key ≡ u.idempotency_key)
          × ((w : UsageRecord) → differs t v w ≡ differs t u w)
          × (s'.usage ≡ update_where (is_usage t u.id) (λ r. v) s.usage)

  pub transition_usage-Moved :
      (io : Io) (id : ℕ) (state : UsageState) (event error : Option String) (increment : Bool)
      (s : Tables) (v : UsageRecord)
      → (transition_usage t io id state event error increment s).0 ≡ ok v
      → (u : UsageRecord) × (find_where (is_usage t id) s.usage ≡ some u)
        × Moved io state event u v s (transition_usage t io id state event error increment s).1
  unfolding transition_usage transaction move_usage moved insert_audit refer_to_tenant differs
  transition_usage-Moved io id state event error increment s v h =
      elim (Option-cases (find_where (is_usage t id) s.usage)) [
        | inl e ↦ absurd (ground arith)
        | inr (u, e) ↦ elim (Bool-cases (is_reported u.state)) [
          | inl final ↦ (
            u,
            e,
            record { terms_kept = ground arith; how = inl (final, ground arith, ground arith) },
          )
          | inr ongoing ↦ (
            u,
            e,
            record {
              terms_kept = ground arith;
              how = inr (
                ongoing,
                ground arith,
                ground arith,
                ground arith,
                ground arith,
                ground arith,
                λ w. ground arith,
                ground arith,
              );
            },
          )
        ]
      ]

  pub mark_reporting-Moved :
      (io : Io) (id : ℕ) (s : Tables) (v : UsageRecord)
      → (mark_usage_reporting t io id s).0 ≡ ok v
      → (u : UsageRecord) × (find_where (is_usage t id) s.usage ≡ some u)
        × Moved io reporting none u v s (mark_usage_reporting t io id s).1
  unfolding mark_usage_reporting
  mark_reporting-Moved io id s v h = transition_usage-Moved io id reporting none none true s v h

  pub mark_reported-Moved :
      (io : Io) (id : ℕ) (event : String) (s : Tables) (v : UsageRecord)
      → (mark_usage_reported t io id event s).0 ≡ ok v
      → (u : UsageRecord) × (find_where (is_usage t id) s.usage ≡ some u)
        × Moved io reported (some event) u v s (mark_usage_reported t io id event s).1
  unfolding mark_usage_reported
  mark_reported-Moved io id event s v h =
      elim (Bool-cases (is_blank event || ltb 512 (len event))) [
        | inl bad ↦ absurd (ground arith)
        | inr good ↦
            let same : mark_usage_reported t io id event s
                ≡ transition_usage t io id reported (some event) none false s =
              ground arith in
            subst
              (λ o.
                (u : UsageRecord) × (find_where (is_usage t id) s.usage ≡ some u)
                × Moved io reported (some event) u v s o.1)
              (sym same)
              (transition_usage-Moved io id reported (some event) none false s v
                (subst (λ o. o.0 ≡ ok v) same h))
      ]

  -- A key that is in the table is answered from its row.
  pub prepare_usage-again :
      (u v : UsageRecord) (s : Tables)
      → find_where (is_usage_key t u.idempotency_key) s.usage ≡ some v
      → differs t v u ≡ false
      → (u.tenant_id == t) ≡ true
      → ltb i64_max u.quantity ≡ false
      → (u.quantity == 0) ≡ false
      → u.attempts ≡ 0
      → prepare_usage t u s ≡ (ok v, s)
  unfolding prepare_usage prepare_steps insert_usage require_tenant transaction
  prepare_usage-again u v s found same mine fits positive first = ground arith

-- A row that is replaced is still found under another of its keys.
pub find_where-replaced :
    (p q : UsageRecord → Bool) (u v : UsageRecord) (rows : List UsageRecord)
    → find_where q rows ≡ some u
    → p u ≡ true
    → q v ≡ true
    → find_where q (update_where p (λ r. v) rows) ≡ some v
unfolding find_where update_where
find_where-replaced p q u v [] found hit new = ground arith
find_where-replaced p q u v (r ∷ rows) found hit new =
    ground (arith, find_where-replaced p q u v rows)
