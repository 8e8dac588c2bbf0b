-- ===== src/Prelude/Order/Found.antt =====
-- The search in a list that was sorted finds each element by its name, where the names differ.
use Prim.Native.String.{String}
use mathlib.Core.Path.{◌≡◌, refl, ap, sym, subst, ◌∙◌}
use mathlib.Core.Logic.{inl, inr}
use mathlib.Core.Bool.{true, false}
use mathlib.Core.Option.{some}
use mathlib.Core.List.{List, [], ◌∷◌, map}
use native.Mathlib.Omega.{arith}
use text.Mathlib.Text.{◌==◌}
use text.Mathlib.TextEquality.{eq_iff}
use text.Mathlib.TextPositions.{eq_refl}
use vlanman.Prelude.Tests.{Bool-cases, Option-cases}
use vlanman.Prelude.Lists.{any, All, contains, Distinct}
use vlanman.Prelude.Order.{
  text_lt, sort_by, search, All-insert_sorted, sort_by-Sorted, any-sort_by, is_some-search,
}

module _ {A : Type 0} (name : A → String) where
  pub All-sort_by : (P : A → Type 0) (xs : List A) → All P xs → All P (sort_by name xs)
  unfolding sort_by
  All-sort_by P [] all = tt
  All-sort_by P (x ∷ xs) (p, all) =
      All-insert_sorted name P x (sort_by name xs) p (All-sort_by P xs all)

  -- What the search finds has the name, and what holds of all elements.
  search-All :
      (P : A → Type 0) (target : String) (xs : List A) (y : A)
      → All P xs
      → search name target xs ≡ some y
      → P y × (name y ≡ target)
  unfolding search
  search-All P target [] y all e = cc
  search-All P target (x ∷ xs) y (p, all) e = elim (Bool-cases (text_lt (name x) target)) [
    | inl less ↦ search-All P target xs y all (ground (arith, less, e))
    | inr more ↦ elim (Bool-cases (name x == target)) [
      | inl same ↦
          let this : x ≡ y = ground (arith, more, same, e) in
          (subst P this p, ap name (sym this) ∙ (eq_iff (name x) target).0 same)
      | inr other ↦ absurd (ground (arith, more, other, e))
    ]
  ]

  -- In the list there is an element of the name of `x`, and none but `x` has it.
  abbrev IsOnly : List A → A → Type 0
  IsOnly xs x = All (λ y. name y ≡ name x → y ≡ x) xs × (any (λ y. name y == name x) xs ≡ true)

  others_differ :
      (x : A) (xs : List A)
      → contains (map name xs) (name x) ≡ false
      → All (λ y. name y ≡ name x → y ≡ x) xs
  others_differ x [] other = tt
  others_differ x (y ∷ ys) other = (
    (λ same. absurd (ground (arith, eq_iff (name y) (name x), same))),
    others_differ x ys (ground arith),
  )

  IsOnly-cons :
      (x : A) (xs zs : List A)
      → contains (map name zs) (name x) ≡ false
      → All (IsOnly xs) zs
      → All (IsOnly (x ∷ xs)) zs
  IsOnly-cons x xs [] other all = tt
  IsOnly-cons x xs (z ∷ zs) other ((only, there), all) = (
    (((λ same. absurd (ground (arith, eq_iff (name z) (name x), same))), only), ground arith),
    IsOnly-cons x xs zs (ground arith) all,
  )

  All-IsOnly : (xs : List A) → Distinct (map name xs) → All (IsOnly xs) xs
  All-IsOnly [] distinct = tt
  All-IsOnly (x ∷ xs) (other, distinct) = (
    (((λ _. refl), others_differ x xs other), rw (eq_refl (name x)) refl),
    IsOnly-cons x xs xs other (All-IsOnly xs distinct),
  )

  -- Where the names differ, the search in the sorted list finds each element by its name.
  pub search-sort_by :
      (xs : List A)
      → Distinct (map name xs)
      → All (λ x. search name (name x) (sort_by name xs) ≡ some x) (sort_by name xs)
  search-sort_by xs distinct = All-sort_by _ xs (found xs (All-IsOnly xs distinct))
    where
      by_name :
          (x : A)
          → All (λ y. name y ≡ name x → y ≡ x) xs
          → any (λ y. name y == name x) xs ≡ true
          → search name (name x) (sort_by name xs) ≡ some x
      by_name x only there = elim (Option-cases (search name (name x) (sort_by name xs))) [
        | inl no_one ↦ cc (
          is_some-search name (name x) (sort_by name xs) (sort_by-Sorted name xs),
          any-sort_by name (λ y. name y == name x) xs,
        )
        | inr (y, e) ↦
            let (this, same) =
              search-All (λ y. name y ≡ name x → y ≡ x) (name x) (sort_by name xs) y
                (All-sort_by _ xs only) e in
            e ∙ ap some (this same)
      ]

      found :
          (zs : List A)
          → All (IsOnly xs) zs
          → All (λ x. search name (name x) (sort_by name xs) ≡ some x) zs
      found [] all = tt
      found (z ∷ zs) ((only, there), all) = (by_name z only there, found zs all)
