-- ===== src/Common/Tables.antt =====
-- Maps over numbers in which no key stands twice: the tables of a database under their primary key.
use Prim.Native.Nat.{ℕ}
use mathlib.Core.Path.{◌≡◌, refl}
use mathlib.Core.List.{List, [], ◌∷◌}
use mathlib.Core.Option.{none}
use native.Mathlib.Omega.{arith}
use fluxo.Common.Tests.{◌==◌, if◌then◌else◌}
use fluxo.Common.Maps.{lookup_int, insert_int, lookup_int-insert_int}

module _ {ℓ} {V : Type ℓ} where
  unfoldable pub delete_int : ℕ → List (ℕ × V) → List (ℕ × V)
  delete_int k [] = []
  delete_int k ((j, v) ∷ m) = if j == k then delete_int k m else (j, v) ∷ delete_int k m

  pub lookup_int-delete_int :
      (k j : ℕ) (m : List (ℕ × V))
      → lookup_int j (delete_int k m) ≡ (if k == j then none else lookup_int j m)
  unfolding lookup_int delete_int
  lookup_int-delete_int k j [] = ground arith
  lookup_int-delete_int k j ((i, w) ∷ m) = ground (arith, lookup_int-delete_int k j m)

  -- No key stands twice.
  abbrev pub Distinct : List (ℕ × V) → Type ℓ
  Distinct [] = Unit
  Distinct ((k, v) ∷ m) = (lookup_int k m ≡ none) × Distinct m

  pub insert_int-Distinct :
      (k : ℕ) (v : V) (m : List (ℕ × V)) → Distinct m → Distinct (insert_int k v m)
  unfolding insert_int lookup_int
  insert_int-Distinct k v [] h = (refl, tt)
  insert_int-Distinct k v ((j, w) ∷ m) (new, h) =
      ground (arith, insert_int-Distinct k v m h, lookup_int-insert_int k j v m, new, h)

  pub delete_int-Distinct : (k : ℕ) (m : List (ℕ × V)) → Distinct m → Distinct (delete_int k m)
  unfolding delete_int
  delete_int-Distinct k [] h = tt
  delete_int-Distinct k ((j, w) ∷ m) (new, h) =
      ground (arith, delete_int-Distinct k m h, lookup_int-delete_int k j m, new)
