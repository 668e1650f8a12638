-- ===== src/LockTable/Fencing.antt =====
-- Fencing tokens: crates/sessionweft-orchestration-sqlite/src/lib.rs, `acquire_lock`, `release_lock`
-- and `validate_fence`.
use sessionweft.Common.{
  ℕ, ◌+◌, ◌≤◌, ◌<◌, String, ◌≡◌, ◌≢◌, refl, Bool, true, false, some, List, [], ◌∷◌, ◌++◌, All, any,
  filter, ◌==◌, ==_iff, arith, inl, inr, Bool-cases, Io, Trace, err, is_ok,
}
use sessionweft.Lock.{LockRequest, LockLease, LockResource}
use sessionweft.LockTable.{
  Tables, acquire_lock, heartbeat_lock, release_lock, validate_fence, fences, find_lease, lease_for,
  extend_lease, delete_lease, Fence, i64_max, stale_fence,
}
use sessionweft.LockTable.Outcome.{live, acquire_outcome, heartbeat_outcome, release_outcome}

-- The tokens of the table rise along it, above `lo` and up to `hi`.
abbrev pub Ascending : ℕ → ℕ → List LockLease → Type 0
Ascending lo hi [] = lo ≤ hi
Ascending lo hi (l ∷ ls) = (lo < l.fencing_token) × Ascending l.fencing_token hi ls

Ascending-mono :
    (lo lo' hi : ℕ) (ls : List LockLease) → lo' ≤ lo → Ascending lo hi ls → Ascending lo' hi ls
Ascending-mono lo lo' hi [] h a = omega arith
Ascending-mono lo lo' hi (l ∷ ls) h a = (omega arith, a.1)

Ascending-le : (lo hi : ℕ) (ls : List LockLease) → Ascending lo hi ls → lo ≤ hi
Ascending-le lo hi [] a = a
Ascending-le lo hi (l ∷ ls) a = omega (arith, a.0, Ascending-le l.fencing_token hi ls a.1)

Ascending-filter :
    (p : LockLease → Bool) (lo hi : ℕ) (ls : List LockLease)
    → Ascending lo hi ls
    → Ascending lo hi (filter p ls)
unfolding filter
Ascending-filter p lo hi [] a = a
Ascending-filter p lo hi (l ∷ ls) a = elim (Bool-cases (p l)) [
  | inl e ↦ rw e (a.0, Ascending-filter p l.fencing_token hi ls a.1)
  | inr e ↦ rw e (
      Ascending-filter p lo hi ls
        (Ascending-mono l.fencing_token lo hi ls (omega (arith, a.0)) a.1))
]

Ascending-append :
    (lo hi : ℕ) (ls : List LockLease) (m : LockLease)
    → Ascending lo hi ls
    → hi < m.fencing_token
    → Ascending lo m.fencing_token (ls ++ m ∷ [])
Ascending-append lo hi [] m a h = omega arith
Ascending-append lo hi (l ∷ ls) m a h = (a.0, Ascending-append l.fencing_token hi ls m a.1 h)

Ascending-extend_lease :
    (id n lo hi : ℕ) (ls : List LockLease)
    → Ascending lo hi ls
    → Ascending lo hi (extend_lease id n ls)
unfolding extend_lease
Ascending-extend_lease id n lo hi [] a = a
Ascending-extend_lease id n lo hi (l ∷ ls) a = elim (Bool-cases (l.lock_id == id)) [
  | inl e ↦ rw e (a.0, Ascending-extend_lease id n l.fencing_token hi ls a.1)
  | inr e ↦ rw e (a.0, Ascending-extend_lease id n l.fencing_token hi ls a.1)
]

-- The tables number their leases in the order in which they were granted.
abbrev pub Numbered : Tables → Type 0
Numbered t = Ascending 0 t.sequence t.leases

pub acquire_lock-Numbered :
    (io : Io) (r : LockRequest) (trace : Trace) (t : Tables)
    → Numbered t
    → Numbered (acquire_lock io r trace t).1
unfolding lease_for
acquire_lock-Numbered io r trace t h = elim (acquire_outcome io r trace t) [
  | inl (_, same) ↦ rw same h
  | inr (_, a) ↦
      rw (a.stored, a.advanced)
        (Ascending-append 0 t.sequence (live (io.clock 0) t.leases)
          (lease_for io r (t.sequence + 1)) (Ascending-filter _ 0 t.sequence t.leases h)
          (omega arith))
]

pub heartbeat_lock-Numbered :
    (io : Io) (f : Fence) (ttl : ℕ) (trace : Trace) (t : Tables)
    → Numbered t
    → Numbered (heartbeat_lock io f ttl trace t).1
heartbeat_lock-Numbered io f ttl trace t h = elim (heartbeat_outcome io f ttl trace t) [
  | inl (_, same) ↦ rw same h
  | inr (_, e) ↦ rw (e.stored, e.kept) (Ascending-extend_lease f.lock_id _ 0 t.sequence t.leases h)
]

pub release_lock-Numbered :
    (io : Io) (f : Fence) (trace : Trace) (t : Tables)
    → Numbered t
    → Numbered (release_lock io f trace t).1
release_lock-Numbered io f trace t h = elim (release_outcome io f trace t) [
  | inl (_, same) ↦ rw same h
  | inr (_, e) ↦ rw (e.removed, e.kept) (Ascending-filter _ 0 t.sequence t.leases h)
]

-- A token that was given out, and that no lease of the table has any more.
pub record IsRetired (token : ℕ) (t : Tables) : Type 0 where
  pub issued : token ≤ t.sequence
  pub absent : All (λ l. l.fencing_token ≢ token) t.leases

absent-filter :
    (token : ℕ) (p : LockLease → Bool) (ls : List LockLease)
    → All (λ l. l.fencing_token ≢ token) ls
    → All (λ l. l.fencing_token ≢ token) (filter p ls)
unfolding filter
absent-filter token p [] h = tt
absent-filter token p (l ∷ ls) h = elim (Bool-cases (p l)) [
  | inl e ↦ rw e (h.0, absent-filter token p ls h.1)
  | inr e ↦ rw e (absent-filter token p ls h.1)
]

absent-append :
    (token : ℕ) (ls : List LockLease) (m : LockLease)
    → All (λ l. l.fencing_token ≢ token) ls
    → m.fencing_token ≢ token
    → All (λ l. l.fencing_token ≢ token) (ls ++ m ∷ [])
absent-append token [] m h n = (n, tt)
absent-append token (l ∷ ls) m h n = (h.0, absent-append token ls m h.1 n)

absent-extend_lease :
    (token id n : ℕ) (ls : List LockLease)
    → All (λ l. l.fencing_token ≢ token) ls
    → All (λ l. l.fencing_token ≢ token) (extend_lease id n ls)
unfolding extend_lease
absent-extend_lease token id n [] h = tt
absent-extend_lease token id n (l ∷ ls) h = elim (Bool-cases (l.lock_id == id)) [
  | inl e ↦ rw e (h.0, absent-extend_lease token id n ls h.1)
  | inr e ↦ rw e (h.0, absent-extend_lease token id n ls h.1)
]

pub acquire_lock-IsRetired :
    (token : ℕ) (io : Io) (r : LockRequest) (trace : Trace) (t : Tables)
    → IsRetired token t
    → IsRetired token (acquire_lock io r trace t).1
unfolding lease_for
acquire_lock-IsRetired token io r trace t h = elim (acquire_outcome io r trace t) [
  | inl (_, same) ↦ rw same h
  | inr (_, a) ↦ record {
    issued = omega (arith, a.advanced, h.issued);
    absent = rw (a.stored) (
        absent-append token (live (io.clock 0) t.leases) (lease_for io r (t.sequence + 1))
          (absent-filter token _ t.leases h.absent) (omega (arith, h.issued)));
  }
]

pub heartbeat_lock-IsRetired :
    (token : ℕ) (io : Io) (f : Fence) (ttl : ℕ) (trace : Trace) (t : Tables)
    → IsRetired token t
    → IsRetired token (heartbeat_lock io f ttl trace t).1
heartbeat_lock-IsRetired token io f ttl trace t h = elim (heartbeat_outcome io f ttl trace t) [
  | inl (_, same) ↦ rw same h
  | inr (_, e) ↦ record {
    issued = omega (arith, e.kept, h.issued);
    absent = rw (e.stored) (absent-extend_lease token f.lock_id _ t.leases h.absent);
  }
]

pub release_lock-IsRetired :
    (token : ℕ) (io : Io) (f : Fence) (trace : Trace) (t : Tables)
    → IsRetired token t
    → IsRetired token (release_lock io f trace t).1
release_lock-IsRetired token io f trace t h = elim (release_outcome io f trace t) [
  | inl (_, same) ↦ rw same h
  | inr (_, e) ↦ record {
    issued = omega (arith, e.kept, h.issued);
    absent = rw (e.removed) (absent-filter token _ t.leases h.absent);
  }
]

any-fences :
    (r : LockResource) (owner : String) (token now : ℕ) (ls : List LockLease)
    → All (λ l. l.fencing_token ≢ token) ls
    → any (fences r owner token now) ls ≡ false
unfolding any fences
any-fences r owner token now [] h = refl
any-fences r owner token now (l ∷ ls) h =
    ground (arith, h.0, ==_iff l.fencing_token token, any-fences r owner token now ls h.1)

-- Whoever shows a retired token is refused.
pub validate_fence_retired :
    (r : LockResource) (owner : String) (token now : ℕ) (t : Tables)
    → IsRetired token t
    → t.sequence ≤ i64_max
    → validate_fence r owner token now t ≡ err stale_fence
unfolding validate_fence
validate_fence_retired r owner token now t h fits =
    ground (arith, h.issued, any-fences r owner token now t.leases h.absent)

above : (lo hi : ℕ) (ls : List LockLease) → Ascending lo hi ls → All (λ l. lo < l.fencing_token) ls
above lo hi [] a = tt
above lo hi (l ∷ ls) a =
    (a.0, above lo hi ls (Ascending-mono l.fencing_token lo hi ls (omega (arith, a.0)) a.1))

find_lease-bounds :
    (id lo hi : ℕ) (ls : List LockLease) (l : LockLease)
    → Ascending lo hi ls
    → find_lease id ls ≡ some l
    → (lo < l.fencing_token) × (l.fencing_token ≤ hi)
unfolding find_lease
find_lease-bounds id lo hi [] l a h = cc
find_lease-bounds id lo hi (x ∷ ls) l a h = elim (Bool-cases (x.lock_id == id)) [
  | inl e ↦
      let same : x ≡ l = ground arith in rw (← same) (a.0, Ascending-le x.fencing_token hi ls a.1)
  | inr e ↦
      let (low, high) = find_lease-bounds id x.fencing_token hi ls l a.1 (ground arith) in
      (omega (arith, low, a.0), high)
]

ne_of_above :
    (n : ℕ) (ls : List LockLease)
    → All (λ l. n < l.fencing_token) ls
    → All (λ l. l.fencing_token ≢ n) ls
ne_of_above n [] h = tt
ne_of_above n (l ∷ ls) h = (omega (arith, h.0), ne_of_above n ls h.1)

-- Deleting a lease by its identifier deletes its token.
delete_lease-absent :
    (id lo hi : ℕ) (ls : List LockLease) (l : LockLease)
    → Ascending lo hi ls
    → find_lease id ls ≡ some l
    → All (λ m. m.fencing_token ≢ l.fencing_token) (delete_lease id ls)
unfolding find_lease filter
delete_lease-absent id lo hi [] l a h = cc
delete_lease-absent id lo hi (x ∷ ls) l a h = elim (Bool-cases (x.lock_id == id)) [
  | inl e ↦
      let same : x ≡ l = ground arith in
      rw (e, ← same)
        (absent-filter x.fencing_token _ ls
          (ne_of_above x.fencing_token ls (above x.fencing_token hi ls a.1)))
  | inr e ↦
      let found : find_lease id ls ≡ some l = ground arith in
      rw e (
        omega (arith, find_lease-bounds id x.fencing_token hi ls l a.1 found),
        delete_lease-absent id x.fencing_token hi ls l a.1 found,
      )
]

-- A lease that is given back retires its token.
pub release_lock-retires :
    (io : Io) (f : Fence) (trace : Trace) (t : Tables)
    → Numbered t
    → is_ok (release_lock io f trace t).0 ≡ true
    → IsRetired f.fencing_token (release_lock io f trace t).1
release_lock-retires io f trace t h done = elim (release_outcome io f trace t) [
  | inl (refused, _) ↦ cc
  | inr (_, e) ↦
      let same : e.lease.fencing_token ≡ f.fencing_token =
        ground (arith, e.held, ==_iff e.lease.fencing_token f.fencing_token) in
      record {
        issued = omega (
          arith,
          e.kept,
          same,
          find_lease-bounds f.lock_id 0 t.sequence t.leases e.lease h e.found,
        );
        absent =
            rw (e.removed, ← same)
              (delete_lease-absent f.lock_id 0 t.sequence t.leases e.lease h e.found);
      }
]
