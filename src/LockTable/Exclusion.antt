-- ===== src/LockTable/Exclusion.antt =====
-- Locks exclude one another: crates/sessionweft-orchestration-sqlite/src/lib.rs, `acquire_lock`.
use sessionweft.Common.{
  ℕ, ◌≡◌, Bool, true, false, ◌&&◌, none, List, [], ◌∷◌, ◌++◌, All, All-append, filter, ltb, str_eq,
  ◌==◌, arith, inl, inr, Bool-cases, Io, Trace,
}
use sessionweft.Lock.{
  LockRequest, LockLease, workspace_id, overlaps, modes_conflict, conflicts_with,
}
use sessionweft.LockTable.{
  Tables, acquire_lock, heartbeat_lock, release_lock, active_locks, first_conflict, lease_for,
  extend_lease, Fence,
}
use sessionweft.LockTable.Outcome.{live, acquire_outcome, heartbeat_outcome, release_outcome}

-- Two leases that may not both be held: their resources overlap, and one of them is exclusive.
abbrev pub clash : LockLease → LockLease → Bool
clash l m = overlaps l.resource m.resource && modes_conflict l.mode m.mode

-- No lease of the table clashes with a later one.
abbrev pub Compatible : List LockLease → Type 0
Compatible [] = Unit {0}
Compatible (l ∷ ls) = All (λ m. clash l m ≡ false) ls × Compatible ls

All-filter :
    (P : LockLease → Type 0) (p : LockLease → Bool) (ls : List LockLease)
    → All P ls
    → All P (filter p ls)
unfolding filter
All-filter P p [] h = tt
All-filter P p (l ∷ ls) h = elim (Bool-cases (p l)) [
  | inl e ↦ rw e (h.0, All-filter P p ls h.1)
  | inr e ↦ rw e (All-filter P p ls h.1)
]

Compatible-filter :
    (p : LockLease → Bool) (ls : List LockLease) → Compatible ls → Compatible (filter p ls)
unfolding filter
Compatible-filter p [] h = tt
Compatible-filter p (l ∷ ls) h = elim (Bool-cases (p l)) [
  | inl e ↦ rw e (All-filter (λ m. clash l m ≡ false) p ls h.0, Compatible-filter p ls h.1)
  | inr e ↦ rw e (Compatible-filter p ls h.1)
]

Compatible-append :
    (ls : List LockLease) (m : LockLease)
    → Compatible ls
    → All (λ l. clash l m ≡ false) ls
    → Compatible (ls ++ m ∷ [])
Compatible-append [] m h c = (tt, tt)
Compatible-append (l ∷ ls) m h c =
    (All-append (λ k. clash l k ≡ false) ls (m ∷ []) h.0 (c.0, tt), Compatible-append ls m h.1 c.1)

extend_lease-clash :
    (id n : ℕ) (l : LockLease) (ls : List LockLease)
    → All (λ m. clash l m ≡ false) ls
    → All (λ m. clash l m ≡ false) (extend_lease id n ls)
unfolding extend_lease
extend_lease-clash id n l [] h = tt
extend_lease-clash id n l (m ∷ ls) h = elim (Bool-cases (m.lock_id == id)) [
  | inl e ↦ rw e (h.0, extend_lease-clash id n l ls h.1)
  | inr e ↦ rw e (h.0, extend_lease-clash id n l ls h.1)
]

extend_lease-Compatible :
    (id n : ℕ) (ls : List LockLease) → Compatible ls → Compatible (extend_lease id n ls)
unfolding extend_lease
extend_lease-Compatible id n [] h = tt
extend_lease-Compatible id n (l ∷ ls) h = elim (Bool-cases (l.lock_id == id)) [
  | inl e ↦ rw e (extend_lease-clash id n l ls h.0, extend_lease-Compatible id n ls h.1)
  | inr e ↦ rw e (extend_lease-clash id n l ls h.0, extend_lease-Compatible id n ls h.1)
]

-- A lease that outlives `now` and was not found to conflict does not clash with the new lease: it
-- was read by the query, or belongs to another workspace.
no_clash :
    (io : Io) (r : LockRequest) (n : ℕ) (l : LockLease)
    → ltb (io.clock 0) l.expires_at ≡ true
    → ((str_eq (workspace_id l.resource) (workspace_id r.resource) ≡ true)
        → conflicts_with l r (io.clock 0) ≡ false)
    → clash l (lease_for io r n) ≡ false
unfolding lease_for conflicts_with overlaps
no_clash io r n l runs clear =
    elim (Bool-cases (str_eq (workspace_id l.resource) (workspace_id r.resource))) [
      | inl e ↦ let quiet = clear e in ground arith
      | inr e ↦ ground arith
    ]

pub first_conflict-none :
    (r : LockRequest) (now : ℕ) (p : LockLease → Bool) (ls : List LockLease)
    → first_conflict r now (filter p ls) ≡ none
    → All (λ l. p l ≡ true → conflicts_with l r now ≡ false) ls
unfolding first_conflict filter
first_conflict-none r now p [] h = tt
first_conflict-none r now p (l ∷ ls) h = elim (Bool-cases (p l)) [
  | inl e ↦
      let h' : first_conflict r now (l ∷ filter p ls) ≡ none = rw e at h in
      (λ _. ground arith, first_conflict-none r now p ls (ground arith))
  | inr e ↦ (λ f. cc, first_conflict-none r now p ls (rw e at h))
]

pub All-live :
    (now : ℕ) (ls : List LockLease) → All (λ l. ltb now l.expires_at ≡ true) (live now ls)
unfolding filter
All-live now [] = tt
All-live now (l ∷ ls) = elim (Bool-cases (ltb now l.expires_at)) [
  | inl e ↦ rw e (e, All-live now ls)
  | inr e ↦ rw e (All-live now ls)
]

-- What the loop of `acquire_lock` establishes when it finds no conflict.
pub clear-clash :
    (io : Io) (r : LockRequest) (n : ℕ) (ls : List LockLease)
    → All (λ l. ltb (io.clock 0) l.expires_at ≡ true) ls
    → All
        (λ l.
          (str_eq (workspace_id l.resource) (workspace_id r.resource)
              && ltb (io.clock 0) l.expires_at)
            ≡ true
          → conflicts_with l r (io.clock 0) ≡ false)
        ls
    → All (λ l. clash l (lease_for io r n) ≡ false) ls
clear-clash io r n [] runs clear = tt
clear-clash io r n (l ∷ ls) runs clear = (
  no_clash io r n l runs.0 (λ same. clear.0 (ground arith)),
  clear-clash io r n ls runs.1 clear.1,
)

pub acquire_lock-Compatible :
    (io : Io) (r : LockRequest) (trace : Trace) (t : Tables)
    → Compatible t.leases
    → Compatible (acquire_lock io r trace t).1.leases
acquire_lock-Compatible io r trace t h = elim (acquire_outcome io r trace t) [
  | inl (_, same) ↦ rw same h
  | inr (_, a) ↦ rw (a.stored) (
      Compatible-append (live (io.clock 0) t.leases) _ (Compatible-filter _ t.leases h) (
        clear-clash io r _ _ (All-live (io.clock 0) t.leases)
          (first_conflict-none r (io.clock 0) _ _ (unfold active_locks in a.clear))))
]

pub heartbeat_lock-Compatible :
    (io : Io) (f : Fence) (ttl : ℕ) (trace : Trace) (t : Tables)
    → Compatible t.leases
    → Compatible (heartbeat_lock io f ttl trace t).1.leases
heartbeat_lock-Compatible io f ttl trace t h = elim (heartbeat_outcome io f ttl trace t) [
  | inl (_, same) ↦ rw same h
  | inr (_, e) ↦ rw (e.stored) (extend_lease-Compatible f.lock_id _ t.leases h)
]

pub release_lock-Compatible :
    (io : Io) (f : Fence) (trace : Trace) (t : Tables)
    → Compatible t.leases
    → Compatible (release_lock io f trace t).1.leases
release_lock-Compatible io f trace t h = elim (release_outcome io f trace t) [
  | inl (_, same) ↦ rw same h
  | inr (_, e) ↦ rw (e.removed) (Compatible-filter _ t.leases h)
]
