-- ===== src/Tenancy/Store/Replays.antt =====
-- A reservation under a key that was used before: crates/sessionweft-saas-postgres/src/tenancy.rs,
-- `reserve_quota`.
use sessionweft.Common.{
  ℕ, ltb, ◌≤◌, String, ◌≡◌, true, false, inl, inr, some, arith, Bool-cases, ok, is_ok, Io,
  find_where, find_where_last, ◌==◌, eq_refl,
}
use sessionweft.Tenancy.{QuotaDimension, QuotaReservation, dimension_text}
use sessionweft.Tenancy.Store.{
  Tables, ReservationRow, is_reservation, i64_max, reserve_quota, reserve_once, reservation_row,
  reservation_from_row, transaction, as_i64,
}
use sessionweft.Tenancy.Store.Ledger.{reserve_quota-outcome, next_row}

-- A key that is in the table is answered from its row, whatever the amount.
pub reserve_quota-known :
    (io : Io) (t : ℕ) (d : QuotaDimension) (amount : ℕ) (key : String) (s : Tables)
    (r : ReservationRow)
    → find_where (is_reservation t (dimension_text d) key) s.reservations ≡ some r
    → (amount == 0) ≡ false
    → amount ≤ i64_max
    → reserve_quota io t d amount key s ≡ (ok (reservation_from_row d r), s)
unfolding reserve_quota as_i64 reserve_once transaction
reserve_quota-known io t d amount key s r e positive small = ground arith

reserve_quota-valid :
    (io : Io) (t : ℕ) (d : QuotaDimension) (amount : ℕ) (key : String) (s : Tables)
    → is_ok (reserve_quota io t d amount key s).0 ≡ true
    → ((amount == 0) ≡ false) × (amount ≤ i64_max)
unfolding reserve_quota as_i64
reserve_quota-valid io t d amount key s h = elim (Bool-cases (amount == 0)) [
  | inl zero ↦ absurd (ground arith)
  | inr positive ↦ elim (Bool-cases (ltb i64_max amount)) [
    | inl large ↦ absurd (ground arith)
    | inr small ↦ (positive, ground arith)
  ]
]

-- The row of a successful reservation stands in the table that it leaves.
reserve_quota-row :
    (io : Io) (t : ℕ) (d : QuotaDimension) (amount : ℕ) (key : String) (s : Tables)
    (v : QuotaReservation)
    → (reserve_quota io t d amount key s).0 ≡ ok v
    → (r : ReservationRow) × (find_where
          (is_reservation t (dimension_text d) key)
          (reserve_quota io t d amount key s).1.reservations
        ≡ some r)
      × (v ≡ reservation_from_row d r)
unfolding reservation_row
reserve_quota-row io t d amount key s v h = elim (reserve_quota-outcome io t d amount key s) [
  | inr (fresh, m) ↦
      let last =
        find_where_last (is_reservation t (dimension_text d) key) (next_row io t d amount key s)
          s.reservations (ground (arith, eq_refl (dimension_text d), eq_refl key)) fresh in
      let answer = m.answer in (next_row io t d amount key s, rw m.rows last, ground arith)
  | inl (e, inl bad) ↦ absurd (ground arith)
  | inl (e, inr (r, f)) ↦
      let (positive, small) = reserve_quota-valid io t d amount key s (ground arith) in
      let known = reserve_quota-known io t d amount key s r f positive small in
      (r, rw e f, ground arith)
]

-- A reservation that has succeeded is answered again under its key, from the same row, and changes
-- nothing: neither a repetition nor a later one for another amount.
pub reserve_quota-replay :
    (io later : Io) (t : ℕ) (d : QuotaDimension) (amount other : ℕ) (key : String) (s : Tables)
    (v : QuotaReservation)
    → (reserve_quota io t d amount key s).0 ≡ ok v
    → (other == 0) ≡ false
    → other ≤ i64_max
    → reserve_quota later t d other key (reserve_quota io t d amount key s).1
      ≡ (ok v, (reserve_quota io t d amount key s).1)
reserve_quota-replay io later t d amount other key s v h positive small =
    let (r, found, same) = reserve_quota-row io t d amount key s v h in
    rw same (
      reserve_quota-known later t d other key (reserve_quota io t d amount key s).1 r found positive
        small)
