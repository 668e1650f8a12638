-- ===== src/Definition/Counts.antt =====
-- How often an identifier stands in a list: the measure of the queue and of the edges of a workflow
-- graph, crates/sessionweft-orchestration/src/lib.rs.
use sessionweft.Common.{
  ℕ, suc, ◌+◌, ◌≤◌, ◌<◌, String, ◌≡◌, refl, inl, inr, List, [], ◌∷◌, ◌++◌, length, str_eq, eq_iff,
  eq_refl, if◌then◌else◌, arith, Bool-cases, In,
}

unfoldable pub count : String → List String → ℕ
count j [] = 0
count j (x ∷ xs) = (if str_eq x j then 1 else 0) + count j xs

pub count-append : (j : String) (xs ys : List String) → count j (xs ++ ys) ≡ count j xs + count j ys
unfolding count
count-append j [] ys = omega arith
count-append j (x ∷ xs) ys = omega (arith, count-append j xs ys)

-- The list without the first copy of an identifier.
without : String → List String → List String
without j [] = []
without j (x ∷ xs) = let rest = without j xs in if str_eq x j then xs else x ∷ rest

count-without :
    (j k : String) (xs : List String)
    → 0 < count j xs
    → count k xs ≡ (if str_eq j k then 1 else 0) + count k (without j xs)
unfolding count without
count-without j k [] h = ground arith
count-without j k (x ∷ xs) h = elim (Bool-cases (str_eq x j)) [
  | inl e ↦ ground (arith, eq_iff x j)
  | inr e ↦ ground (arith, count-without j k xs)
]

length-without :
    (j : String) (xs : List String) → 0 < count j xs → length xs ≡ suc (length (without j xs))
unfolding count without
length-without j [] h = ground arith
length-without j (x ∷ xs) h = ground (arith, length-without j xs)

-- A list that holds each identifier at most as often as another is not longer.
pub count-length :
    (xs ys : List String) → ((j : String) → count j xs ≤ count j ys) → length xs ≤ length ys
unfolding count
count-length [] ys h = omega arith
count-length (x ∷ xs) ys h =
    let has : 0 < count x ys = ground (arith, h x, eq_refl x) in
    let rest = count-length xs (without x ys) (λ j. omega (arith, h j, count-without x j ys has)) in
    omega (arith, rest, length-without x ys has)

-- If it is as long too, then it holds each as often.
pub count_same :
    (xs ys : List String)
    → ((j : String) → count j xs ≤ count j ys)
    → length xs ≡ length ys
    → (j : String) → count j xs ≡ count j ys
unfolding count
count_same [] [] h e j = refl
count_same [] (y ∷ ys) h e j = absurd (omega (arith, e))
count_same (x ∷ xs) ys h e j =
    let has : 0 < count x ys = ground (arith, h x, eq_refl x) in
    let rest =
      count_same xs (without x ys) (λ k. omega (arith, h k, count-without x k ys has))
        (omega (arith, e, length-without x ys has)) j in
    omega (arith, rest, count-without x j ys has)

pub count-In : (j : String) (xs : List String) → 0 < count j xs → In j xs
unfolding count
count-In j [] h = absurd (omega (arith, h))
count-In j (x ∷ xs) h = elim (Bool-cases (str_eq x j)) [
  | inl e ↦ inl (ground (arith, eq_iff x j))
  | inr e ↦ inr (count-In j xs (ground arith))
]

pub In-count : (j : String) (xs : List String) → In j xs → 0 < count j xs
unfolding count
In-count j [] m = absurd m
In-count j (x ∷ xs) (inl e) = rw e (ground (arith, eq_refl x))
In-count j (x ∷ xs) (inr m) = let rest = In-count j xs m in omega (arith, rest)
