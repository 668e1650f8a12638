-- ===== src/Common/Rows.antt =====
-- The rows of a SQL table with a primary key, in the order of their insertion.
use Prim.Native.Nat.{ℕ, ◌*◌, ◌/◌}
use mathlib.Core.Path.{◌≡◌, refl, sym, subst}
use mathlib.Core.Bool.{Bool, true, false}
use mathlib.Core.Logic.{inl, inr}
use mathlib.Core.Option.{Option, none, some}
use mathlib.Core.List.{List, [], ◌∷◌, ◌++◌}
use native.Mathlib.Omega.{arith}
use sessionweft.Common.Tests.{◌==◌, if◌then◌else◌, Bool-cases}

-- A TIMESTAMPTZ column: an instant in nanoseconds is kept to the microsecond.
unfoldable pub timestamptz : ℕ → ℕ
timestamptz instant = instant / 1000 * 1000

module _ {A : Type 0} (key : A → ℕ) where
  -- SELECT .. WHERE key = ?
  unfoldable pub find_by : ℕ → List A → Option A
  find_by k [] = none
  find_by k (x ∷ xs) = if key x == k then some x else find_by k xs

  -- UPDATE .. WHERE key = ?
  unfoldable pub replace_by : ℕ → A → List A → List A
  replace_by k y [] = []
  replace_by k y (x ∷ xs) =
      let rest = replace_by k y xs in if key x == k then y ∷ rest else x ∷ rest

  pub find_by-key : (k : ℕ) (x : A) (xs : List A) → find_by k xs ≡ some x → key x ≡ k
  unfolding find_by
  find_by-key k x [] h = ground arith
  find_by-key k x (y ∷ ys) h = ground (arith, find_by-key k x ys)

  find_by_other :
      (k j : ℕ) (y : A) (xs : List A)
      → key y ≡ k
      → (k == j) ≡ false
      → find_by j (replace_by k y xs) ≡ find_by j xs
  unfolding find_by replace_by
  find_by_other k j y [] e h = refl
  find_by_other k j y (x ∷ xs) e h = ground (arith, find_by_other k j y xs)

  find_by_self :
      (k : ℕ) (old y : A) (xs : List A)
      → key y ≡ k
      → find_by k xs ≡ some old
      → find_by k (replace_by k y xs) ≡ some y
  unfolding find_by replace_by
  find_by_self k old y [] e h = ground arith
  find_by_self k old y (x ∷ xs) e h = ground (arith, find_by_self k old y xs)

  pub find_by-replace_by :
      (k j : ℕ) (old y : A) (xs : List A)
      → find_by k xs ≡ some old
      → key y ≡ k
      → find_by j (replace_by k y xs) ≡ (if k == j then some y else find_by j xs)
  find_by-replace_by k j old y xs h e = elim (Bool-cases (k == j)) [
    | inl s ↦
        let same : k ≡ j = ground arith in let found = find_by_self k old y xs e h in ground arith
    | inr s ↦ let found = find_by_other k j y xs e s in ground arith
  ]

  pub find_by-append :
      (j : ℕ) (y : A) (xs : List A)
      → find_by (key y) xs ≡ none
      → find_by j (xs ++ y ∷ []) ≡ (if key y == j then some y else find_by j xs)
  unfolding find_by
  find_by-append j y [] h = refl
  find_by-append j y (x ∷ xs) h = ground (arith, find_by-append j y xs)

  -- What is found under a key is found under its own.
  pub find_by_own :
      (k : ℕ) (x : A) (xs : List A) → find_by k xs ≡ some x → find_by (key x) xs ≡ some x
  find_by_own k x xs h = subst (λ j. find_by j xs ≡ some x) (sym (find_by-key k x xs h)) h

module _ {A : Type 0} (test : A → Bool) where
  -- SELECT .. WHERE .. of at most one row.
  unfoldable pub find_where : List A → Option A
  find_where [] = none
  find_where (x ∷ xs) = if test x then some x else find_where xs

  -- UPDATE .. WHERE ..
  unfoldable pub update_where : (A → A) → List A → List A
  update_where f [] = []
  update_where f (x ∷ xs) = let rest = update_where f xs in if test x then f x ∷ rest else x ∷ rest

  pub find_where-test : (x : A) (xs : List A) → find_where xs ≡ some x → test x ≡ true
  unfolding find_where
  find_where-test x [] h = ground arith
  find_where-test x (y ∷ ys) h = ground (arith, find_where-test x ys)

  pub find_where_append :
      (y : A) (xs : List A) → test y ≡ false → find_where (xs ++ y ∷ []) ≡ find_where xs
  unfolding find_where
  find_where_append y [] h = ground arith
  find_where_append y (x ∷ xs) h = ground (arith, find_where_append y xs h)

  pub find_where_last :
      (y : A) (xs : List A)
      → test y ≡ true
      → find_where xs ≡ none
      → find_where (xs ++ y ∷ []) ≡ some y
  unfolding find_where
  find_where_last y [] h e = ground arith
  find_where_last y (x ∷ xs) h e = ground (arith, find_where_last y xs h)

  pub find_where_kept :
      (y x : A) (xs : List A) → find_where xs ≡ some x → find_where (xs ++ y ∷ []) ≡ some x
  unfolding find_where
  find_where_kept y x [] h = ground arith
  find_where_kept y x (z ∷ zs) h = ground (arith, find_where_kept y x zs)

  pub find_where_updated :
      (f : A → A) (old : A) (xs : List A)
      → ((x : A) → test (f x) ≡ test x)
      → find_where xs ≡ some old
      → find_where (update_where f xs) ≡ some (f old)
  unfolding find_where update_where
  find_where_updated f old [] same h = ground arith
  find_where_updated f old (x ∷ xs) same h =
      ground (arith, same x, find_where_updated f old xs same)

-- An update of rows that a query does not find, before and after.
pub find_where_other :
    {A : Type 0} (query test : A → Bool) (f : A → A) (xs : List A)
    → ((x : A) → test x ≡ true → query x ≡ false)
    → ((x : A) → query (f x) ≡ query x)
    → find_where query (update_where test f xs) ≡ find_where query xs
unfolding find_where update_where
find_where_other query test f [] apart same = refl
find_where_other query test f (x ∷ xs) apart same =
    ground (arith, same x, apart x, find_where_other query test f xs apart same)
