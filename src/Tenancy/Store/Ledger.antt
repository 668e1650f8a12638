-- ===== src/Tenancy/Store/Ledger.antt =====
-- The usage of a quota is the sum of its reservations, and stays within the limit in force:
-- crates/sessionweft-saas-postgres/src/tenancy.rs, `reserve_quota`.
use sessionweft.Common.{
  ℕ, ltb, ◌+◌, ◌≤◌, String, ◌≡◌, refl, sym, subst, ◌∙◌, ap, true, false, ◌&&◌, ◌⊎◌, inl, inr, none,
  some, List, [], ◌∷◌, ◌++◌, arith, Option-cases, Bool-cases, Result-cases, ok, is_ok, Io, Fields,
  Result, find_where, find_where_append, find_where_last, find_where_updated, find_where_other,
  ◌==◌, str_eq, eq_iff, eq_refl, if◌then◌else◌,
}
use sessionweft.Tenancy.{TenancyError, QuotaDimension, QuotaReservation, dimension_text}
use sessionweft.Tenancy.Store.{
  Tables, Action, UsageRow, ReservationRow, is_usage, is_reservation, used, hard_limit, i64_max,
  open_usage, set_used, reserve_quota, reserve_new, reserve_within, reserve_once, write_reservation,
  insert_audit, refer_to_tenant, add_reservation, reservation_row, reservation_from_row,
  transaction, as_i64, reserved_details,
}

-- The amounts reserved in one dimension of a tenant.
abbrev amount_in : ℕ → String → ReservationRow → ℕ
amount_in t k r = if r.tenant_id == t && str_eq r.dimension k then r.amount else 0

unfoldable pub total : ℕ → String → List ReservationRow → ℕ
total t k [] = 0
total t k (r ∷ rs) = amount_in t k r + total t k rs

pub total-append :
    (t : ℕ) (k : String) (r : ReservationRow) (rs : List ReservationRow)
    → total t k (rs ++ r ∷ []) ≡ total t k rs + amount_in t k r
unfolding total
total-append t k r [] = omega arith
total-append t k r (x ∷ rs) = omega (arith, total-append t k r rs)

abbrev blank : ℕ → ℕ → String → UsageRow
blank now t k = record { tenant_id = t; dimension = k; used = 0; updated_at = now }

-- Opening a row for the usage changes no usage.
open_usage-used :
    (now t j : ℕ) (k l : String) (s : Tables) → used j l (open_usage now t k s) ≡ used j l s
unfolding used open_usage
open_usage-used now t j k l s = elim (Option-cases (find_where (is_usage t k) s.usage)) [
  | inr (x, e) ↦ ground arith
  | inl e ↦ elim (Bool-cases (is_usage j l (blank now t k))) [
    | inr out ↦ let h = find_where_append (is_usage j l) (blank now t k) s.usage out in ground arith
    | inl hit ↦
        let same_t : j ≡ t = ground arith in
        let same_k : l ≡ k = ground (arith, eq_iff k l) in
        let h =
          find_where_last (is_usage t k) (blank now t k) s.usage (ground (arith, eq_refl k)) e in
        rw (same_t, same_k) (ground arith)
  ]
]

opened_row :
    (now t : ℕ) (k : String) (s : Tables)
    → (row : UsageRow) × (find_where (is_usage t k) (open_usage now t k s).usage ≡ some row)
unfolding open_usage
opened_row now t k s = elim (Option-cases (find_where (is_usage t k) s.usage)) [
  | inr (x, e) ↦ (x, ground arith)
  | inl e ↦
      let last =
        find_where_last (is_usage t k) (blank now t k) s.usage (ground (arith, eq_refl k)) e in
      (blank now t k, ground arith)
]

-- The usage after a row is opened and set.
pub set_used-used :
    (now t j n : ℕ) (k l : String) (s : Tables)
    → used j l (set_used now t k n (open_usage now t k s))
      ≡ (if t == j && str_eq k l then n else used j l s)
unfolding used set_used
set_used-used now t j n k l s = elim (Bool-cases (t == j && str_eq k l)) [
  | inl hit ↦
      let same_t : j ≡ t = ground arith in
      let same_k : l ≡ k = ground (arith, eq_iff k l) in
      let (row, e) = opened_row now t k s in
      let h =
        find_where_updated (is_usage t k)
          (λ (r : UsageRow). record r { used = n; updated_at = now }) row
          (open_usage now t k s).usage (λ r. refl) e in
      rw (same_t, same_k) (ground (arith, eq_refl k))
  | inr out ↦
      let h =
        find_where_other (is_usage j l) (is_usage t k)
          (λ (r : UsageRow). record r { used = n; updated_at = now }) (open_usage now t k s).usage
          (λ r there. ground (arith, eq_iff r.dimension k, eq_iff r.dimension l, eq_iff k l))
          (λ r. refl) in
      let o = open_usage-used now t j k l s in ground arith
]

pub insert_audit-tables :
    (io : Io) (t : ℕ) (event : String) (payload : Fields) (s : Tables)
    → ((insert_audit io t event payload s).1.usage ≡ s.usage)
      × ((insert_audit io t event payload s).1.reservations ≡ s.reservations)
      × ((insert_audit io t event payload s).1.quotas ≡ s.quotas)
      × ((insert_audit io t event payload s).1.resources ≡ s.resources)
unfolding insert_audit refer_to_tenant
insert_audit-tables io t event payload s = ground arith

-- The row of a new reservation.
abbrev pub next_row : Io → ℕ → QuotaDimension → ℕ → String → Tables → ReservationRow
next_row io t d amount key s =
    reservation_row (io.clock 0) t d amount key (used t (dimension_text d) s + amount)
      (hard_limit t (dimension_text d) s)

-- A reservation that was written.
pub record Reserved (io : Io) (t : ℕ) (d : QuotaDimension) (amount : ℕ) (key : String) (s : Tables)
    (out : Result TenancyError QuotaReservation × Tables) : Type 0 where
  pub small : used t (dimension_text d) s + amount ≤ i64_max
  pub within : used t (dimension_text d) s + amount ≤ hard_limit t (dimension_text d) s
  pub usage_of :
      out.1.usage
      ≡ (set_used
          (io.clock 0)
          t
          (dimension_text d)
          (used t (dimension_text d) s + amount)
          (open_usage (io.clock 0) t (dimension_text d) s)).usage
  pub rows : out.1.reservations ≡ s.reservations ++ next_row io t d amount key s ∷ []
  pub answer : out.0 ≡ ok (reservation_from_row d (next_row io t d amount key s))
  pub limits : out.1.quotas ≡ s.quotas
  pub bindings : out.1.resources ≡ s.resources

-- What is written once the limit and the usage are read.
record Written (io : Io) (d : QuotaDimension) (limit : ℕ) (r : ReservationRow) (s : Tables)
    (out : Result TenancyError QuotaReservation × Tables) : Type 0 where
  pub small : r.used_after ≤ i64_max
  pub within : r.used_after ≤ limit
  pub usage_of : out.1.usage ≡ (set_used (io.clock 0) r.tenant_id r.dimension r.used_after s).usage
  pub rows : out.1.reservations ≡ s.reservations ++ r ∷ []
  pub answer : out.0 ≡ ok (reservation_from_row d r)
  pub limits : out.1.quotas ≡ s.quotas
  pub bindings : out.1.resources ≡ s.resources

reserve_within-Written :
    (io : Io) (t : ℕ) (d : QuotaDimension) (amount : ℕ) (key : String) (limit before : ℕ)
    (s : Tables)
    → is_ok (reserve_within io t d amount key limit before s).0 ≡ true
    → Written io d limit
        (reservation_row (io.clock 0) t d amount key (before + amount) limit)
        s
        (reserve_within io t d amount key limit before s)
unfolding reserve_within write_reservation add_reservation set_used reservation_row
reserve_within-Written io t d amount key limit before s h =
    let r : ReservationRow = reservation_row (io.clock 0) t d amount key (before + amount) limit in
    let written : Tables =
      add_reservation r (set_used (io.clock 0) t (dimension_text d) (before + amount) s) in
    let a = insert_audit-tables io t "tenant.quota_reserved" (reserved_details d r) written in
    record {
      small = ground arith;
      within = ground arith;
      usage_of = ground arith;
      rows = ground arith;
      answer = ground arith;
      limits = ground arith;
      bindings = ground arith;
    }

pub open_usage-tables :
    (now t : ℕ) (k : String) (s : Tables)
    → ((open_usage now t k s).reservations ≡ s.reservations)
      × ((open_usage now t k s).quotas ≡ s.quotas)
      × ((open_usage now t k s).resources ≡ s.resources)
unfolding open_usage
open_usage-tables now t k s = ground arith

reserve_new-Reserved :
    (io : Io) (t : ℕ) (d : QuotaDimension) (amount : ℕ) (key : String) (s : Tables)
    → is_ok (reserve_new io t d amount key s).0 ≡ true
    → Reserved io t d amount key s (reserve_new io t d amount key s)
unfolding reserve_new refer_to_tenant reservation_row set_used
reserve_new-Reserved io t d amount key s h =
    let o = open_usage-used (io.clock 0) t t (dimension_text d) (dimension_text d) s in
    let opened : Tables = open_usage (io.clock 0) t (dimension_text d) s in
    let limit : ℕ = hard_limit t (dimension_text d) s in
    let kept = open_usage-tables (io.clock 0) t (dimension_text d) s in
    let same : reserve_new io t d amount key s
        ≡ reserve_within io t d amount key limit (used t (dimension_text d) opened) opened =
      ground arith in
    let before : reserve_new io t d amount key s
        ≡ reserve_within io t d amount key limit (used t (dimension_text d) s) opened =
      same ∙ ap (λ n. reserve_within io t d amount key limit n opened) o in
    let w =
      reserve_within-Written io t d amount key limit (used t (dimension_text d) s) opened
        (ground arith) in
    record {
      small = w.small;
      within = w.within;
      usage_of = rw before w.usage_of;
      rows = rw before (w.rows ∙ ap (λ xs. xs ++ next_row io t d amount key s ∷ []) kept.0);
      answer = rw before w.answer;
      limits = rw before (w.limits ∙ kept.1);
      bindings = rw before (w.bindings ∙ kept.2);
    }

pub transaction-cases :
    {A : Type 0} (m : Action A) (s : Tables)
    → (((transaction m s).1 ≡ s) × (is_ok (transaction m s).0 ≡ false))
      ⊎ ((is_ok (m s).0 ≡ true) × (transaction m s ≡ m s))
unfolding transaction
transaction-cases m s = elim (Result-cases (m s).0) [
  | inl (a, e) ↦ inr (ground arith, ground arith)
  | inr (x, e) ↦ inl (ground arith, ground arith)
]

-- The steps inside the transaction of `reserve_quota`.
reserve_steps : Io → ℕ → QuotaDimension → ℕ → String → Action QuotaReservation
reserve_steps io t d amount key s =
    reserve_once io t d amount key
      (find_where (is_reservation t (dimension_text d) key) s.reservations) s

-- The key has a reservation.
abbrev pub Known : ℕ → QuotaDimension → String → Tables → Type 0
Known t d key s =
    (r : ReservationRow) × (find_where (is_reservation t (dimension_text d) key) s.reservations
      ≡ some r)

-- What `reserve_quota` does: nothing, or one reservation, under a new key.
pub reserve_quota-outcome :
    (io : Io) (t : ℕ) (d : QuotaDimension) (amount : ℕ) (key : String) (s : Tables)
    → (((reserve_quota io t d amount key s).1 ≡ s)
        × ((is_ok (reserve_quota io t d amount key s).0 ≡ false) ⊎ Known t d key s))
      ⊎ ((find_where (is_reservation t (dimension_text d) key) s.reservations ≡ none)
          × Reserved io t d amount key s (reserve_quota io t d amount key s))
unfolding reserve_quota as_i64 reserve_once reserve_steps
reserve_quota-outcome io t d amount key s = elim (Bool-cases (amount == 0)) [
  | inl zero ↦ inl (rw zero refl, inl (rw zero refl))
  | inr positive ↦ elim (Bool-cases (ltb i64_max amount)) [
    | inl large ↦ inl (rw (positive, large) refl, inl (rw (positive, large) refl))
    | inr small ↦
        let same : reserve_quota io t d amount key s
            ≡ transaction (reserve_steps io t d amount key) s =
          rw (positive, small) refl in
        elim (transaction-cases (reserve_steps io t d amount key) s) [
          | inl (e, bad) ↦ inl (rw same e, inl (rw same bad))
          | inr (good, e) ↦
              elim (Option-cases
                (find_where (is_reservation t (dimension_text d) key) s.reservations)) [
                  | inr (r, f) ↦ inl (rw (same, e, f) refl, inr (r, f))
                  | inl f ↦
                      let new : reserve_steps io t d amount key s
                          ≡ reserve_new io t d amount key s =
                        rw f refl in
                      inr (
                        f,
                        subst (Reserved io t d amount key s) (sym (same ∙ e ∙ new)) (
                            reserve_new-Reserved io t d amount key s
                              (subst (λ o. is_ok o.0 ≡ true) new good)),
                      )
                ]
        ]
  ]
]
