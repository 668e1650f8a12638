-- ===== src/LockTable/Fences.antt =====
-- Which locks are granted, and what the fence of a granted lock is good for:
-- crates/sessionweft-orchestration-sqlite/src/lib.rs, `acquire_lock` and `validate_fence`.
use sessionweft.Common.{
  ℕ, ◌+◌, ◌≤◌, ◌<◌, String, ◌≡◌, refl, sym, ap, ◌∙◌, Bool, true, false, List, [], ◌∷◌, ◌++◌, In,
  In-All, any, ==_refl, arith, inl, inr, ok, is_ok, Io, Trace, eq_refl, filter, Bool-cases, subst,
}
use sessionweft.Lock.{LockResource, workspace, LockRequest, LockLease, workspace_id}
use sessionweft.Lock.Overlap.{overlaps_refl, overlaps-workspace, overlaps_comm}
use sessionweft.LockTable.{
  Tables, i64_max, acquire_lock, validate_fence, lease_for, fences, active_locks,
}
use sessionweft.LockTable.Outcome.{live, acquire_outcome}
use sessionweft.LockTable.Exclusion.{clash, clear-clash, All-live, first_conflict-none}

any-In :
    (p : LockLease → Bool) (ls : List LockLease) (l : LockLease)
    → In l ls
    → p l ≡ true
    → any p ls ≡ true
unfolding any
any-In p [] l i h = absurd i
any-In p (x ∷ ls) l (inl e) h = let here : p x ≡ true = ap p (sym e) ∙ h in ground arith
any-In p (x ∷ ls) l (inr i) h = ground (arith, any-In p ls l i h)

In-last : (ls : List LockLease) (l : LockLease) → In l (ls ++ l ∷ [])
In-last [] l = inl refl
In-last (x ∷ ls) l = inr (In-last ls l)

validate_fence-In :
    (r : LockResource) (owner : String) (token now : ℕ) (t : Tables) (l : LockLease)
    → In l t.leases
    → token ≤ i64_max
    → fences r owner token now l ≡ true
    → validate_fence r owner token now t ≡ ok tt
unfolding validate_fence
validate_fence-In r owner token now t l i fits h =
    ground (arith, any-In (fences r owner token now) t.leases l i h)

lease_for-fences :
    (io : Io) (r : LockRequest) (token now : ℕ)
    → now < (lease_for io r token).expires_at
    → fences r.resource r.owner_id token now (lease_for io r token) ≡ true
unfolding lease_for fences
lease_for-fences io r token now h = ground (
  arith,
  eq_refl (workspace_id r.resource),
  eq_refl r.owner_id,
  overlaps_refl r.resource,
  ==_refl token,
)

-- A granted lock fences its own resource for its owner, under the next token of the sequence, until
-- it expires.
pub acquire-validate_fence :
    (io : Io) (r : LockRequest) (trace : Trace) (t : Tables) (now : ℕ) (l : LockLease)
    → (acquire_lock io r trace t).0 ≡ ok l
    → now < l.expires_at
    → (l.fencing_token ≡ t.sequence + 1)
      × (validate_fence r.resource r.owner_id l.fencing_token now (acquire_lock io r trace t).1
          ≡ ok tt)
unfolding lease_for
acquire-validate_fence io r trace t now l done h = elim (acquire_outcome io r trace t) [
  | inl (refused, _) ↦ ground arith
  | inr (granted, a) ↦
      let same : l ≡ lease_for io r (t.sequence + 1) = cc in
      let token : l.fencing_token ≡ t.sequence + 1 = ap (λ (x : LockLease). x.fencing_token) same in
      (
        token,
        validate_fence-In r.resource r.owner_id l.fencing_token now (acquire_lock io r trace t).1
            (lease_for io r (t.sequence + 1))
            (rw (a.stored) (In-last (live (io.clock 0) t.leases) _)) (omega (arith, token, a.fits))
            (rw token (
              lease_for-fences io r (t.sequence + 1) now
                (subst (λ (x : LockLease). now < x.expires_at) same h))),
      )
]

In-filter :
    (p : LockLease → Bool) (ls : List LockLease) (l : LockLease)
    → In l ls
    → p l ≡ true
    → In l (filter p ls)
unfolding filter
In-filter p [] l i h = i
In-filter p (x ∷ ls) l (inl e) h = let here : p x ≡ true = ap p (sym e) ∙ h in rw here (inl e)
In-filter p (x ∷ ls) l (inr i) h = elim (Bool-cases (p x)) [
  | inl e ↦ rw e (inr (In-filter p ls l i h))
  | inr e ↦ rw e (In-filter p ls l i h)
]

-- A lock is refused, and the tables stay as they are, while a lease runs whose resource overlaps the
-- one asked for, if one of the two is exclusive.
pub acquire_refuses :
    (io : Io) (r : LockRequest) (trace : Trace) (t : Tables) (l : LockLease)
    → In l t.leases
    → io.clock 0 < l.expires_at
    → clash l (lease_for io r (t.sequence + 1)) ≡ true
    → (is_ok (acquire_lock io r trace t).0 ≡ false) × ((acquire_lock io r trace t).1 ≡ t)
acquire_refuses io r trace t l i runs both = elim (acquire_outcome io r trace t) [
  | inl refused ↦ refused
  | inr (_, a) ↦
      let quiet =
        In-All (λ m. clash m (lease_for io r (t.sequence + 1)) ≡ false) (live (io.clock 0) t.leases)
          (clear-clash io r _ _ (All-live (io.clock 0) t.leases)
            (first_conflict-none r (io.clock 0) _ _ (unfold active_locks in a.clear)))
          l (In-filter _ t.leases l i (ground arith)) in
      cc
]

-- The fence check asks for overlap and not for coverage: the fence of any running lease, of one
-- symbol say and in shared mode, is accepted for the whole workspace of the lease.
pub validate_fence_workspace :
    (t : Tables) (l : LockLease) (now : ℕ)
    → In l t.leases
    → now < l.expires_at
    → l.fencing_token ≤ i64_max
    → validate_fence (workspace (workspace_id l.resource)) l.owner_id l.fencing_token now t ≡ ok tt
unfolding fences workspace_id
validate_fence_workspace t l now i runs fits =
    let w = workspace_id l.resource in
    validate_fence-In (workspace w) l.owner_id l.fencing_token now t l i fits (
      ground (
        arith,
        eq_refl w,
        eq_refl l.owner_id,
        ==_refl l.fencing_token,
        overlaps_comm l.resource (workspace w),
        overlaps-workspace w l.resource,
      ))
