-- ===== src/Tenancy/Store/Usage.antt =====
-- The usage of a quota is the sum of its reservations, and stays within the limits in force:
-- crates/sessionweft-saas-postgres/src/tenancy.rs. A history is a list of the repository's transactions.
use sessionweft.Common.{
  ℕ, ◌+◌, ◌≤◌, String, ◌≡◌, refl, sym, ap, subst, ◌&&◌, ◌⊎◌, inl, inr, List, [], ◌∷◌, All,
  All-append, arith, Io, find_where, ◌==◌, str_eq, if◌then◌else◌, Bool-cases, eq_iff,
}
use sessionweft.Tenancy.{
  Tenant, Membership, TenantQuota, QuotaDimension, ResourceKind, dimension_text,
}
use sessionweft.Tenancy.Store.{
  Tables, UsageRow, ReservationRow, insert_audit, used, hard_limit, i64_max, set_used, open_usage,
  create_tenant, upsert_membership, set_quota, bind_resource, reserve_quota, reservation_row,
  as_i64, refer_to_tenant, insert_membership, transaction,
}
use sessionweft.Tenancy.Store.Ledger.{
  total, total-append, Reserved, reserve_quota-outcome, set_used-used, next_row,
}

pub data Request : Type 0 where
  creates : Tenant → Membership → Request
  upserts : Membership → Request
  limits : TenantQuota → Request
  binds : ℕ → ResourceKind → String → Request
  reserves : ℕ → QuotaDimension → ℕ → String → Request

pub record Call : Type 0 where
  pub io : Io
  pub request : Request

unfoldable pub serve_request : Io → Request → Tables → Tables
serve_request io (creates t m) s = (create_tenant io t m s).1
serve_request io (upserts m) s = (upsert_membership io m s).1
serve_request io (limits q) s = (set_quota io q s).1
serve_request io (binds t k id) s = (bind_resource io t k id s).1
serve_request io (reserves t d amount key) s = (reserve_quota io t d amount key s).1

unfoldable pub run : Tables → List Call → Tables
unfolding serve_request
run s [] = s
run s (c ∷ cs) = run (serve_request c.io c.request s) cs

-- The usage is the sum of the reservations, and each was within its limit.
pub record IsBalanced (s : Tables) : Type 0 where
  pub sums : (t : ℕ) (k : String) → used t k s ≡ total t k s.reservations
  pub small : (t : ℕ) (k : String) → used t k s ≤ i64_max
  pub capped : All (λ (r : ReservationRow). r.used_after ≤ r.hard_limit) s.reservations

-- The part of the tables that reservations write.
abbrev books : Tables → List UsageRow × List ReservationRow
books s = (s.usage, s.reservations)

apart-IsBalanced : (s s' : Tables) → books s' ≡ books s → IsBalanced s → IsBalanced s'
unfolding used
apart-IsBalanced s s' e v =
    let usage : s'.usage ≡ s.usage = ap (λ b. b.0) e in
    let rows : s'.reservations ≡ s.reservations = ap (λ b. b.1) e in
    record {
      sums = λ t k. rw (usage, rows) (v.sums t k);
      small = λ t k. rw usage (v.small t k);
      capped = rw rows v.capped;
    }

set_quota-Keeps : (io : Io) (q : TenantQuota) (s : Tables) → books (set_quota io q s).1 ≡ books s
unfolding set_quota transaction as_i64 refer_to_tenant insert_audit
set_quota-Keeps io q s = ground arith

insert_membership-Keeps : (m : Membership) (s : Tables) → books (insert_membership m s).1 ≡ books s
unfolding insert_membership refer_to_tenant
insert_membership-Keeps m s = ground arith

upsert_membership-Keeps :
    (io : Io) (m : Membership) (s : Tables) → books (upsert_membership io m s).1 ≡ books s
unfolding upsert_membership transaction insert_membership refer_to_tenant insert_audit
upsert_membership-Keeps io m s = ground arith

create_tenant-Keeps :
    (io : Io) (t : Tenant) (m : Membership) (s : Tables)
    → books (create_tenant io t m s).1 ≡ books s
unfolding create_tenant transaction insert_membership refer_to_tenant insert_audit
create_tenant-Keeps io t m s = ground arith

bind_resource-Keeps :
    (io : Io) (t : ℕ) (k : ResourceKind) (id : String) (s : Tables)
    → books (bind_resource io t k id s).1 ≡ books s
unfolding bind_resource transaction refer_to_tenant insert_audit
bind_resource-Keeps io t k id s = ground arith

-- The usage after a reservation.
reserved-used :
    (io : Io) (t : ℕ) (d : QuotaDimension) (amount : ℕ) (key : String) (s s' : Tables) (j : ℕ)
    (l : String)
    → s'.usage
      ≡ (set_used
          (io.clock 0)
          t
          (dimension_text d)
          (used t (dimension_text d) s + amount)
          (open_usage (io.clock 0) t (dimension_text d) s)).usage
    → used j l s' ≡ (
        if t == j && str_eq (dimension_text d) l
        then used t (dimension_text d) s + amount
        else used j l s)
unfolding used
reserved-used io t d amount key s s' j l e =
    rw e
      (set_used-used (io.clock 0) t j (used t (dimension_text d) s + amount) (dimension_text d) l s)

Reserved-IsBalanced :
    (io : Io) (t : ℕ) (d : QuotaDimension) (amount : ℕ) (key : String) (s : Tables)
    → Reserved io t d amount key s (reserve_quota io t d amount key s)
    → IsBalanced s
    → IsBalanced (reserve_quota io t d amount key s).1
unfolding reservation_row
Reserved-IsBalanced io t d amount key s h v =
    let k : String = dimension_text d in
    let after = reserved-used io t d amount key s (reserve_quota io t d amount key s).1 in
    record {
      sums = λ j l.
          let a = after j l h.usage_of in
          let b = total-append j l (next_row io t d amount key s) s.reservations in
          let p = v.sums j l in
          let q = v.sums t k in
          rw h.rows (elim (Bool-cases (t == j && str_eq k l)) [
            | inr out ↦ ground arith
            | inl hit ↦
                let same_t : t ≡ j = ground arith in
                let same_k : k ≡ l = ground (arith, eq_iff k l) in
                let sum : used j l s ≡ used t k s = rw (same_t, same_k) refl in ground arith
          ]);
      small = λ j l.
          let a = after j l h.usage_of in let p = v.small j l in let q = h.small in ground arith;
      capped = rw h.rows (
          All-append (λ (r : ReservationRow). r.used_after ≤ r.hard_limit) s.reservations _ v.capped
            (h.within, tt));
    }

serve_request-IsBalanced :
    (io : Io) (q : Request) (s : Tables) → IsBalanced s → IsBalanced (serve_request io q s)
unfolding serve_request
serve_request-IsBalanced io (creates t m) s v =
    apart-IsBalanced s _ (create_tenant-Keeps io t m s) v
serve_request-IsBalanced io (upserts m) s v =
    apart-IsBalanced s _ (upsert_membership-Keeps io m s) v
serve_request-IsBalanced io (limits q) s v = apart-IsBalanced s _ (set_quota-Keeps io q s) v
serve_request-IsBalanced io (binds t k id) s v =
    apart-IsBalanced s _ (bind_resource-Keeps io t k id s) v
serve_request-IsBalanced io (reserves t d amount key) s v =
    elim (reserve_quota-outcome io t d amount key s) [
      | inl (e, w) ↦ subst IsBalanced (sym e) v
      | inr (fresh, h) ↦ Reserved-IsBalanced io t d amount key s h v
    ]

run_from : (s : Tables) (cs : List Call) → IsBalanced s → IsBalanced (run s cs)
unfolding run
run_from s [] v = v
run_from s (c ∷ cs) v =
    run_from (serve_request c.io c.request s) cs (serve_request-IsBalanced c.io c.request s v)

abbrev pub empty : Tables
empty = record {
  tenants = [];
  memberships = [];
  quotas = [];
  usage = [];
  reservations = [];
  resources = [];
  outbox = [];
}

-- After any history of the repository's transactions from empty tables, the usage of each dimension of
-- each tenant is the sum of the amounts reserved in it, fits a BIGINT, and every reservation kept the
-- usage within the limit that was in force.
pub run_tenancy-IsBalanced : (cs : List Call) → IsBalanced (run empty cs)
unfolding used total find_where
run_tenancy-IsBalanced cs =
    run_from empty cs (record { sums = λ t k. refl; small = λ t k. omega arith; capped = tt })

-- A reservation leaves the usage of every tenant and dimension as it was, or within the limit in force.
pub reserve_quota-bounded :
    (io : Io) (t : ℕ) (d : QuotaDimension) (amount : ℕ) (key : String) (s : Tables) (j : ℕ)
    (l : String)
    → (used j l (reserve_quota io t d amount key s).1 ≡ used j l s)
      ⊎ (used j l (reserve_quota io t d amount key s).1 ≤ hard_limit j l s)
reserve_quota-bounded io t d amount key s j l = elim (reserve_quota-outcome io t d amount key s) [
  | inl (e, w) ↦ inl (ap (used j l) e)
  | inr (fresh, h) ↦
      let k : String = dimension_text d in
      let a =
        reserved-used io t d amount key s (reserve_quota io t d amount key s).1 j l h.usage_of in
      elim (Bool-cases (t == j && str_eq k l)) [
        | inr out ↦ inl (ground arith)
        | inl hit ↦
            let same_t : j ≡ t = ground arith in
            let same_k : l ≡ k = ground (arith, eq_iff k l) in
            let within = h.within in
            let bound : hard_limit t k s ≡ hard_limit j l s = rw (same_t, same_k) refl in
            inr (ground arith)
      ]
]
