-- ===== src/Common/Maps.antt =====
-- Go maps as association lists: over texts (`map[string]V`) and over numbers (`map[int]V`).
-- The order of the list stands for the order in which a `range` visits the map.
use Prim.Native.Nat.{ℕ}
use Prim.Native.String.{String}
use text.Mathlib.TextEquality.{eq_iff}
use mathlib.Core.Logic.{◌≢◌}
use mathlib.Core.Path.{◌≡◌, refl}
use mathlib.Core.List.{List, [], ◌∷◌}
use mathlib.Core.Option.{Option, none, some}
use native.Mathlib.Omega.{arith}
use fluxo.Common.Tests.{◌==◌, ◌==ₛ◌, if◌then◌else◌, str_self}

module _ {ℓ} {V : Type ℓ} where
  unfoldable pub lookup : String → List (String × V) → Option V
  lookup k [] = none
  lookup k ((j, v) ∷ m) = if j ==ₛ k then some v else lookup k m

  unfoldable pub insert : String → V → List (String × V) → List (String × V)
  insert k v [] = (k, v) ∷ []
  insert k v ((j, w) ∷ m) = if j ==ₛ k then (k, v) ∷ m else (j, w) ∷ insert k v m

  unfoldable pub delete : String → List (String × V) → List (String × V)
  delete k [] = []
  delete k ((j, v) ∷ m) = if j ==ₛ k then delete k m else (j, v) ∷ delete k m

  pub lookup-nil : (k : String) → lookup k [] ≡ none
  unfolding lookup
  lookup-nil k = refl

  pub insert-ne-nil : (k : String) (v : V) (m : List (String × V)) → insert k v m ≢ []
  unfolding insert
  insert-ne-nil k v [] e = cc
  insert-ne-nil k v ((j, x) ∷ m) e = ground arith

  pub lookup-insert :
      (key asked : String) (new : V) (entries : List (String × V))
      → lookup asked (insert key new entries)
        ≡ (if key ==ₛ asked then some new else lookup asked entries)
  unfolding lookup insert
  lookup-insert key asked new [] = refl
  lookup-insert key asked new ((head, old) ∷ entries) = ground (
    arith,
    lookup-insert key asked new entries,
    eq_iff head key,
    eq_iff head asked,
    eq_iff key asked,
  )

  pub lookup-insert_self :
      (k : String) (v : V) (m : List (String × V)) → lookup k (insert k v m) ≡ some v
  lookup-insert_self k v m = ground (arith, lookup-insert k k v m, str_self k)

  pub lookup-delete :
      (k j : String) (m : List (String × V))
      → lookup j (delete k m) ≡ (if k ==ₛ j then none else lookup j m)
  unfolding lookup delete
  lookup-delete k j [] = ground arith
  lookup-delete k j ((i, w) ∷ m) =
      ground (arith, eq_iff k j, eq_iff i k, eq_iff i j, lookup-delete k j m)

module _ {ℓ} {V : Type ℓ} where
  unfoldable pub lookup_int : ℕ → List (ℕ × V) → Option V
  lookup_int k [] = none
  lookup_int k ((j, v) ∷ m) = if j == k then some v else lookup_int k m

  unfoldable pub insert_int : ℕ → V → List (ℕ × V) → List (ℕ × V)
  insert_int k v [] = (k, v) ∷ []
  insert_int k v ((j, w) ∷ m) = if j == k then (k, v) ∷ m else (j, w) ∷ insert_int k v m

  pub lookup_int-insert_int :
      (k j : ℕ) (v : V) (m : List (ℕ × V))
      → lookup_int j (insert_int k v m) ≡ (if k == j then some v else lookup_int j m)
  unfolding lookup_int insert_int
  lookup_int-insert_int k j v [] = refl
  lookup_int-insert_int k j v ((i, w) ∷ m) = ground (arith, lookup_int-insert_int k j v m)
