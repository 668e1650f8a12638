-- ===== src/Lock/Overlap.antt =====
-- Which resources overlap: crates/sessionweft-orchestration/src/lib.rs, `overlaps` and `is_prefix`.
use mathlib.Core.List.{append-nil}
use Prim.Native.String.{◌++◌ as append_text}
use text.Mathlib.TextLemmas.{append_cancel_left}
use sessionweft.Common.{
  String, ◌≡◌, refl, sym, ap, ◌∙◌, ◌↔◌, inl, inr, true, ◌&&◌, ◌||◌, List, [], ◌∷◌, ◌++◌, IsPrefix,
  Bool-cases, arith, str_eq, eq_iff, eq_refl,
}
use sessionweft.Lock.{
  LockResource, workspace, workspace_id, segments, is_prefix, overlaps, inner_segments,
}

is_prefix-cons :
    (l r : String) (left right : List String)
    → is_prefix (l ∷ left) (r ∷ right) ≡ (str_eq l r && is_prefix left right)
unfolding is_prefix
is_prefix-cons l r left right = ground arith

-- The test by lengths and by pairs decides that one list begins with the other.
is_prefix_sound : (left right : List String) → is_prefix left right ≡ true → IsPrefix left right
unfolding is_prefix
is_prefix_sound [] right h = (right, refl)
is_prefix_sound (l ∷ left) [] h = ground arith
is_prefix_sound (l ∷ left) (r ∷ right) h =
    let both : (l ≡ r) × (is_prefix left right ≡ true) =
      ground (arith, eq_iff l r, is_prefix-cons l r left right) in
    let (rest, e) = is_prefix_sound left right both.1 in (rest, cc (e, both.0))

is_prefix_complete : (left rest : List String) → is_prefix left (left ++ rest) ≡ true
unfolding is_prefix
is_prefix_complete [] rest = ground arith
is_prefix_complete (l ∷ left) rest =
    rw is_prefix-cons (ground (arith, eq_refl l, is_prefix_complete left rest))

is_prefix-nil : (xs : List String) → is_prefix [] xs ≡ true
unfolding is_prefix
is_prefix-nil xs = ground arith

-- Two lists that begin one and the same list: the shorter begins the longer.
prefixes_comparable :
    (xs ys r s : List String) → xs ++ r ≡ ys ++ s → (is_prefix xs ys || is_prefix ys xs) ≡ true
prefixes_comparable [] ys r s e = rw (is_prefix-nil ys)
prefixes_comparable (x ∷ xs) [] r s e = ground (arith, is_prefix-nil (x ∷ xs))
prefixes_comparable (x ∷ xs) (y ∷ ys) r s e =
    let heads : x ≡ y = cc in
    let tails : xs ++ r ≡ ys ++ s = cc in
    rw (is_prefix-cons x y xs ys, is_prefix-cons y x ys xs)
      (ground (arith, heads, eq_refl x, prefixes_comparable xs ys r s tails))

same_workspace :
    (a b : LockResource) (r s : List String)
    → segments a ++ r ≡ segments b ++ s
    → workspace_id a ≡ workspace_id b
unfolding segments
same_workspace a b r s e =
    let heads : append_text "workspace:" (workspace_id a)
        ≡ append_text "workspace:" (workspace_id b) =
      cc in
    append_cancel_left "workspace:" (workspace_id a) (workspace_id b) heads

-- A place in the tree of a workspace lies below a resource if its path begins with the resource's.
abbrev pub LiesBelow : LockResource → List String → Type 0
LiesBelow r path = IsPrefix (segments r) path

overlaps-shares :
    (a b : LockResource)
    → overlaps a b ≡ true
    → (path : List String) × LiesBelow a path × LiesBelow b path
unfolding overlaps
overlaps-shares a b h = elim (Bool-cases (is_prefix (segments a) (segments b))) [
  | inl e ↦ (segments b, is_prefix_sound (segments a) (segments b) e, ([], sym (append-nil _)))
  | inr e ↦ (
    segments a,
    ([], sym (append-nil _)),
    is_prefix_sound (segments b) (segments a) (ground arith),
  )
]

shares-overlaps :
    (a b : LockResource) (path : List String)
    → LiesBelow a path
    → LiesBelow b path
    → overlaps a b ≡ true
unfolding overlaps
shares-overlaps a b path (r, p) (s, q) =
    let tops : segments a ++ r ≡ segments b ++ s = sym p ∙ q in
    ground (
      arith,
      prefixes_comparable (segments a) (segments b) r s tops,
      same_workspace a b r s tops,
      eq_iff (workspace_id a) (workspace_id b),
    )

-- Two resources overlap exactly when some place lies below both of them.
pub overlaps_iff :
    (a b : LockResource)
    → (overlaps a b ≡ true) ↔ ((path : List String) × LiesBelow a path × LiesBelow b path)
overlaps_iff a b = (overlaps-shares a b, λ w. shares-overlaps a b w.0 w.1 w.2)

-- Overlap goes both ways.
pub overlaps_comm : (a b : LockResource) → overlaps a b ≡ overlaps b a
unfolding overlaps
overlaps_comm a b =
    ground
      (arith, eq_iff (workspace_id a) (workspace_id b), eq_iff (workspace_id b) (workspace_id a))

-- A resource overlaps itself.
pub overlaps_refl : (a : LockResource) → overlaps a a ≡ true
overlaps_refl a = shares-overlaps a a (segments a) ([], sym (append-nil _)) ([], sym (append-nil _))

-- A lock on a workspace overlaps each resource of that workspace, and none of another.
pub overlaps-workspace :
    (w : String) (r : LockResource) → overlaps (workspace w) r ≡ str_eq w (workspace_id r)
unfolding overlaps segments
overlaps-workspace w r = ground (
  arith,
  eq_iff w (workspace_id r),
  is_prefix-cons (append_text "workspace:" w) (append_text "workspace:" (workspace_id r)) []
      (inner_segments r),
  is_prefix-nil (inner_segments r),
  eq_refl (append_text "workspace:" w),
  ap (λ (t : String). append_text "workspace:" t),
)
