-- ===== src/Tenancy/Store/Resources.antt =====
-- A resource belongs to one tenant: crates/sessionweft-saas-postgres/src/tenancy.rs, `bind_resource` and
-- `owns_resource`.
use sessionweft.Common.{
  ℕ, String, ◌≡◌, refl, sym, subst, ◌∙◌, ap, Bool, true, false, ◌⊎◌, inl, inr, none, some, List, [],
  ◌∷◌, ◌++◌, any, ◌&&◌, arith, Bool-cases, ok, is_ok, Io, find_where, find_where_last,
  find_where_kept, ◌==◌, eq_iff, eq_refl,
}
use sessionweft.Tenancy.{Tenant, Membership, TenantQuota, ResourceKind, kind_text}
use sessionweft.Tenancy.Store.{
  Tables, ResourceRow, is_resource, bind_resource, owns_resource, create_tenant, upsert_membership,
  set_quota, transaction, as_i64, insert_membership, refer_to_tenant, insert_audit,
}
use sessionweft.Tenancy.Store.Ledger.{reserve_quota-outcome}
use sessionweft.Tenancy.Store.Usage.{
  Request, Call, creates, upserts, limits, binds, reserves, serve_request, run, empty,
}

owned : ℕ → String → String → List ResourceRow → Bool
owned t k id = any (λ (r : ResourceRow). r.tenant_id == t && is_resource k id r)

-- The tenant that is found first is the only one.
IsExclusive : List ResourceRow → Type 0
IsExclusive rows =
    (t : ℕ) (k id : String)
    → owned t k id rows ≡ true
    → (r : ResourceRow) × (find_where (is_resource k id) rows ≡ some r) × (r.tenant_id ≡ t)

not_any :
    (k id : String) (rows : List ResourceRow)
    → any (is_resource k id) rows ≡ false
    → find_where (is_resource k id) rows ≡ none
unfolding any find_where
not_any k id [] h = refl
not_any k id (r ∷ rows) h = ground (arith, not_any k id rows)

owned-append :
    (t : ℕ) (k id : String) (y : ResourceRow) (rows : List ResourceRow)
    → owned t k id (rows ++ y ∷ []) ≡ true
    → (owned t k id rows ≡ true) ⊎ ((y.tenant_id ≡ t) × (is_resource k id y ≡ true))
unfolding owned any
owned-append t k id y [] h = inr (ground arith)
owned-append t k id y (r ∷ rows) h = elim (Bool-cases (r.tenant_id == t && is_resource k id r)) [
  | inl here ↦ inl (ground arith)
  | inr not_here ↦ elim (owned-append t k id y rows (ground arith)) [
    | inl there ↦ inl (ground arith)
    | inr last ↦ inr last
  ]
]

append-IsExclusive :
    (k id : String) (y : ResourceRow) (rows : List ResourceRow)
    → is_resource k id y ≡ true
    → any (is_resource k id) rows ≡ false
    → IsExclusive rows
    → IsExclusive (rows ++ y ∷ [])
unfolding IsExclusive
append-IsExclusive k id y rows hit fresh v t l i h = elim (owned-append t l i y rows h) [
  | inl old ↦
      let (r, found, same) = v t l i old in
      (r, find_where_kept (is_resource l i) y r rows found, same)
  | inr (same, here) ↦
      let same_k : l ≡ k = ground (arith, eq_iff y.resource_kind k, eq_iff y.resource_kind l) in
      let same_i : i ≡ id = ground (arith, eq_iff y.resource_id id, eq_iff y.resource_id i) in
      (
        y,
        find_where_last (is_resource l i) y rows here
            (rw (same_k, same_i) (not_any k id rows fresh)),
        same,
      )
]

-- What a transaction leaves of the bindings.
others-resources :
    (s : Tables)
    → ((io : Io) (q : TenantQuota) → (set_quota io q s).1.resources ≡ s.resources)
      × ((io : Io) (m : Membership) → (upsert_membership io m s).1.resources ≡ s.resources)
      × ((io : Io) (t : Tenant) (m : Membership)
          → (create_tenant io t m s).1.resources ≡ s.resources)
unfolding set_quota upsert_membership create_tenant transaction as_i64 insert_membership
    refer_to_tenant insert_audit
others-resources s = (λ io q. ground arith, λ io m. ground arith, λ io t m. ground arith)

-- `bind_resource` binds nothing, or a resource that no tenant has.
bind_resource-outcome :
    (io : Io) (t : ℕ) (k : ResourceKind) (id : String) (s : Tables)
    → ((bind_resource io t k id s).1.resources ≡ s.resources)
      ⊎ ((y : ResourceRow) × (is_resource (kind_text k) id y ≡ true)
          × (any (is_resource (kind_text k) id) s.resources ≡ false)
          × ((bind_resource io t k id s).1.resources ≡ s.resources ++ y ∷ []))
unfolding bind_resource transaction refer_to_tenant insert_audit
bind_resource-outcome io t k id s =
    elim (Bool-cases (any (is_resource (kind_text k) id) s.resources)) [
      | inl taken ↦ inl (ground arith)
      | inr free ↦ elim (Bool-cases (is_ok (bind_resource io t k id s).0)) [
        | inr bad ↦ inl (ground arith)
        | inl good ↦ inr (
          record {
            tenant_id = t;
            resource_kind = kind_text k;
            resource_id = id;
            created_at = io.clock 0;
          },
          ground (arith, eq_refl (kind_text k), eq_refl id),
          free,
          ground arith,
        )
      ]
    ]

-- The bindings after a transaction.
Grows : List ResourceRow → List ResourceRow → Type 0
Grows rows rows' =
    (rows' ≡ rows)
    ⊎ ((k id : String) × (y : ResourceRow) × (is_resource k id y ≡ true)
        × (any (is_resource k id) rows ≡ false)
        × (rows' ≡ rows ++ y ∷ []))

serve_request-Grows :
    (io : Io) (q : Request) (s : Tables) → Grows s.resources (serve_request io q s).resources
unfolding Grows serve_request
serve_request-Grows io (creates t m) s = inl ((others-resources s).2 io t m)
serve_request-Grows io (upserts m) s = inl ((others-resources s).1 io m)
serve_request-Grows io (limits q) s = inl ((others-resources s).0 io q)
serve_request-Grows io (binds t k id) s = elim (bind_resource-outcome io t k id s) [
  | inl e ↦ inl e
  | inr (y, hit, free, e) ↦ inr (kind_text k, id, y, hit, free, e)
]
serve_request-Grows io (reserves t d amount key) s =
    elim (reserve_quota-outcome io t d amount key s) [
      | inl (e, w) ↦ inl (ap (λ (x : Tables). x.resources) e)
      | inr (fresh, m) ↦ inl m.bindings
    ]

grown-IsExclusive :
    (rows rows' : List ResourceRow) → Grows rows rows' → IsExclusive rows → IsExclusive rows'
unfolding Grows
grown-IsExclusive rows rows' (inl e) v = subst IsExclusive (sym e) v
grown-IsExclusive rows rows' (inr (k, id, y, hit, free, e)) v =
    subst IsExclusive (sym e) (append-IsExclusive k id y rows hit free v)

owned-kept :
    (t : ℕ) (k id : String) (y : ResourceRow) (rows : List ResourceRow)
    → owned t k id rows ≡ true
    → owned t k id (rows ++ y ∷ []) ≡ true
unfolding owned any
owned-kept t k id y [] h = ground arith
owned-kept t k id y (r ∷ rows) h = elim (Bool-cases (r.tenant_id == t && is_resource k id r)) [
  | inl here ↦ ground arith
  | inr other ↦ let rest = owned-kept t k id y rows (ground arith) in ground arith
]

grown-owned :
    (rows rows' : List ResourceRow) (t : ℕ) (k id : String)
    → Grows rows rows'
    → owned t k id rows ≡ true
    → owned t k id rows' ≡ true
unfolding Grows
grown-owned rows rows' t k id (inl e) h = rw e h
grown-owned rows rows' t k id (inr (k', id', y, hit, free, e)) h = rw e (owned-kept t k id y rows h)

run-IsExclusive :
    (s : Tables) (cs : List Call) → IsExclusive s.resources → IsExclusive (run s cs).resources
unfolding run
run-IsExclusive s [] v = v
run-IsExclusive s (c ∷ cs) v =
    run-IsExclusive (serve_request c.io c.request s) cs
      (grown-IsExclusive s.resources _ (serve_request-Grows c.io c.request s) v)

run-owned :
    (s : Tables) (cs : List Call) (t : ℕ) (k id : String)
    → owned t k id s.resources ≡ true
    → owned t k id (run s cs).resources ≡ true
unfolding run
run-owned s [] t k id h = h
run-owned s (c ∷ cs) t k id h =
    run-owned (serve_request c.io c.request s) cs t k id
      (grown-owned s.resources _ t k id (serve_request-Grows c.io c.request s) h)

one_owner :
    (rows : List ResourceRow) (t u : ℕ) (k id : String)
    → IsExclusive rows
    → owned t k id rows ≡ true
    → owned u k id rows ≡ true
    → u ≡ t
unfolding IsExclusive
one_owner rows t u k id v of_t of_u =
    let (r, found, mine) = v t k id of_t in
    let (q, found', yours) = v u k id of_u in
    let same : q.tenant_id ≡ r.tenant_id = ground arith in sym yours ∙ same ∙ mine

owns_resource-owned :
    (t : ℕ) (k : ResourceKind) (id : String) (s : Tables)
    → (owns_resource t k id s).0 ≡ ok true
    → owned t (kind_text k) id s.resources ≡ true
unfolding owns_resource owned
owns_resource-owned t k id s h = ground arith

-- A resource belongs to at most one tenant for good: where one tenant owns it after some history of the
-- repository's transactions from empty tables, it is the only one that does, then and after any further
-- history.
pub owned_for_good :
    (cs later : List Call) (t u : ℕ) (k : ResourceKind) (id : String)
    → (owns_resource t k id (run empty cs)).0 ≡ ok true
    → (owns_resource u k id (run (run empty cs) later)).0 ≡ ok true
    → u ≡ t
unfolding IsExclusive owned any
owned_for_good cs later t u k id of_t of_u =
    let s : Tables = run empty cs in
    let v =
      run-IsExclusive s later (run-IsExclusive empty cs (λ t k id h. absurd (ground arith))) in
    one_owner (run s later).resources t u (kind_text k) id v
      (run-owned s later t (kind_text k) id (owns_resource-owned t k id s of_t))
      (owns_resource-owned u k id (run s later) of_u)
