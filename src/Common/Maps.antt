-- ===== src/Common/Maps.antt =====
-- `BTreeMap<String, V>`: the entries in ascending order of their keys.
use Prim.Native.String.{String, compare}
use mathlib.Core.Path.{◌≡◌, refl}
use mathlib.Core.Option.{Option, none, some}
use mathlib.Core.List.{List, [], ◌∷◌, map}
use native.Mathlib.Omega.{arith}
use text.Mathlib.Text.{◌==◌, is_lt}
use text.Mathlib.TextEquality.{eq_iff}
use sessionweft.Common.Tests.{if◌then◌else◌}

abbrev pub Map {ℓ} : Type ℓ → Type ℓ
Map V = List (String × V)

module _ {ℓ} {V : Type ℓ} where
  unfoldable pub lookup : String → Map V → Option V
  lookup k [] = none
  lookup k ((j, v) ∷ m) = if j == k then some v else lookup k m

  unfoldable pub insert : String → V → Map V → Map V
  insert k v [] = (k, v) ∷ []
  insert k v ((j, w) ∷ m) =
      if j == k
      then (k, v) ∷ m
      else if is_lt (compare k j)
      then (k, v) ∷ (j, w) ∷ m
      else (j, w) ∷ insert k v m

  -- What a key holds after a write under another key or the same.
  pub lookup-insert :
      (written asked : String) (value : V) (entries : Map V)
      → lookup asked (insert written value entries)
        ≡ (if written == asked then some value else lookup asked entries)
  unfolding lookup insert
  lookup-insert written asked value [] = refl
  lookup-insert written asked value ((first, held) ∷ rest) = ground (
    lookup-insert written asked value rest,
    eq_iff written asked,
    eq_iff first written,
    eq_iff first asked,
    arith,
  )

  -- `get_mut(k)` and a write through it; a missing key leaves the map as it is.
  unfoldable pub set_entry : String → V → Map V → Map V
  set_entry k v [] = []
  set_entry k v ((j, w) ∷ m) = if j == k then (j, v) ∷ m else (j, w) ∷ set_entry k v m

  pub lookup-set_entry :
      (k j : String) (v w : V) (m : Map V)
      → lookup k m ≡ some w
      → lookup j (set_entry k v m) ≡ (if k == j then some v else lookup j m)
  unfolding lookup set_entry
  lookup-set_entry k j v w [] h = ground arith
  lookup-set_entry k j v w ((i, x) ∷ m) h =
      ground (arith, eq_iff k j, eq_iff i k, eq_iff i j, lookup-set_entry k j v w m)

  -- A write of what is there.
  pub set_entry_same : (k : String) (v : V) (m : Map V) → lookup k m ≡ some v → set_entry k v m ≡ m
  unfolding lookup set_entry
  set_entry_same k v [] h = refl
  set_entry_same k v ((j, w) ∷ m) h = ground (arith, set_entry_same k v m)

  abbrev pub keys : Map V → List String
  keys = map λ e. e.0

  abbrev pub values : Map V → List V
  values = map λ e. e.1

  pub keys-set_entry : (k : String) (v : V) (m : Map V) → keys (set_entry k v m) ≡ keys m
  unfolding set_entry
  keys-set_entry k v [] = refl
  keys-set_entry k v ((j, w) ∷ m) = ground (arith, keys-set_entry k v m)
