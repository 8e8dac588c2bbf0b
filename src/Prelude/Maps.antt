-- ===== src/Prelude/Maps.antt =====
-- Go's maps with string keys: the list of the entries in the order in which a `range` visits them.
-- A nil map is the empty list where the program only reads it, and `none` where it writes it.
use Prim.Native.String.{String}
use mathlib.Core.Path.{◌≡◌, refl}
use mathlib.Core.Bool.{Bool, true, false, not, ◌||◌, ◌&&◌}
use mathlib.Core.Option.{Option, none, some}
use mathlib.Core.List.{List, [], ◌∷◌}
use native.Mathlib.Omega.{arith}
use text.Mathlib.Text.{◌==◌}
use text.Mathlib.TextEquality.{eq_iff}
use vlanman.Prelude.Lists.{keep, contains}
use vlanman.Prelude.Tests.{if◌then◌else◌}

abbrev pub Dict {ℓ} : Type ℓ → Type ℓ
Dict V = List (String × V)

module _ {ℓ} {V : Type ℓ} where
  -- v, ok := m[k]
  abbrev pub lookup : String → Dict V → Option V
  lookup k [] = none
  lookup k ((j, v) ∷ m) = if j == k then some v else lookup k m

  -- m[k] = v
  abbrev pub insert : String → V → Dict V → Dict V
  insert k v [] = (k, v) ∷ []
  insert k v ((j, w) ∷ m) = if j == k then (k, v) ∷ m else (j, w) ∷ insert k v m

  -- delete(m, k)
  abbrev pub delete : String → Dict V → Dict V
  delete k [] = []
  delete k ((j, v) ∷ m) = let rest = delete k m in if j == k then rest else (j, v) ∷ rest

  -- maps.Keys and maps.Values
  abbrev pub keys : Dict V → List String
  keys [] = []
  keys ((k, v) ∷ m) = k ∷ keys m

  abbrev pub values : Dict V → List V
  values [] = []
  values ((k, v) ∷ m) = v ∷ values m

  -- The entries that a maps.DeleteFunc leaves.
  abbrev pub keep_entries : (String → V → Bool) → Dict V → Dict V
  keep_entries p = keep (λ e. p e.0 e.1)

  -- `if m == nil { m = … }`
  abbrev pub or_empty : Option (Dict V) → Dict V
  or_empty none = []
  or_empty (some m) = m

  abbrev pub lookup_or : V → String → Dict V → V
  lookup_or d k m = elim (lookup k m) [ none ↦ d | some v ↦ v ]

  -- No key stands twice.
  abbrev IsMap : Dict V → Type 0
  IsMap [] = Unit
  IsMap ((k, v) ∷ m) = (contains (keys m) k ≡ false) × IsMap m

  pub lookup-insert :
      (k j : String) (v : V) (m : Dict V)
      → lookup j (insert k v m) ≡ (if k == j then some v else lookup j m)
  lookup-insert k j v [] = refl
  lookup-insert k j v ((i, w) ∷ m) =
      ground (arith, eq_iff k j, eq_iff i k, eq_iff i j, lookup-insert k j v m)

  pub lookup-delete :
      (k j : String) (m : Dict V) → lookup j (delete k m) ≡ (if k == j then none else lookup j m)
  lookup-delete k j [] = ground arith
  lookup-delete k j ((i, w) ∷ m) =
      ground (arith, eq_iff k j, eq_iff i k, eq_iff i j, lookup-delete k j m)

  pub contains-keys-insert :
      (k j : String) (v : V) (m : Dict V)
      → contains (keys (insert k v m)) j ≡ (k == j || contains (keys m) j)
  contains-keys-insert k j v [] = refl
  contains-keys-insert k j v ((i, w) ∷ m) =
      ground (arith, eq_iff k j, eq_iff i k, eq_iff i j, contains-keys-insert k j v m)

  pub contains-keys-delete :
      (k j : String) (m : Dict V)
      → contains (keys (delete k m)) j ≡ (contains (keys m) j && not (k == j))
  contains-keys-delete k j [] = ground arith
  contains-keys-delete k j ((i, w) ∷ m) =
      ground (arith, contains-keys-delete k j m, eq_iff i k, eq_iff k j, eq_iff i j, eq_iff k i)

  insert-IsMap : (k : String) (v : V) (m : Dict V) → IsMap m → IsMap (insert k v m)
  insert-IsMap k v [] h = (refl, tt)
  insert-IsMap k v ((i, w) ∷ m) (fresh, h) =
      ground (arith, insert-IsMap k v m h, contains-keys-insert k i v m, eq_iff i k, eq_iff k i)

  pub lookup-eq-none : (k : String) (m : Dict V) → contains (keys m) k ≡ false → lookup k m ≡ none
  lookup-eq-none k [] h = refl
  lookup-eq-none k ((i, w) ∷ m) h = ground (arith, lookup-eq-none k m)

  pub contains-keys-of-lookup :
      (k : String) (m : Dict V) (v : V) → lookup k m ≡ some v → contains (keys m) k ≡ true
  contains-keys-of-lookup k [] v h = cc
  contains-keys-of-lookup k ((i, w) ∷ m) v h = ground (arith, contains-keys-of-lookup k m v)
