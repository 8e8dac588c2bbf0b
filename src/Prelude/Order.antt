-- ===== src/Prelude/Order.antt =====
-- The order of texts (strings.Compare), slices.SortFunc and slices.BinarySearchFunc by a name.
pub mod Found
use Prim.Native.Char.{code}
use Prim.Native.String.{String}
use mathlib.Core.Path.{◌≡◌, refl, ap, ◌∙◌}
use mathlib.Core.Logic.{inl, inr}
use mathlib.Core.Bool.{Bool, true, false, ◌||◌}
use mathlib.Core.Option.{Option, none, some}
use mathlib.Core.List.{List, [], ◌∷◌}
use native.Mathlib.Omega.{arith}
use text.Mathlib.Text.{◌==◌}
use text.Mathlib.TextEquality.{eq_iff, Char-path}
use vlanman.Prelude.Tests.{ltb, eqb, if◌then◌else◌, Bool-cases}
use vlanman.Prelude.Lists.{any, All}

-- strings.Compare(s, t) < 0, by the code points, whose order is that of their bytes in UTF-8.
unfoldable pub text_lt : String → String → Bool
text_lt String.[] String.[] = false
text_lt String.[] (String.◌∷◌ d t) = true
text_lt (String.◌∷◌ c s) String.[] = false
text_lt (String.◌∷◌ c s) (String.◌∷◌ d t) =
    let later = text_lt s t in
    if ltb (code c) (code d) then true else if eqb (code c) (code d) then later else false

text_lt_irreflexive : (s : String) → text_lt s s ≡ false
unfolding text_lt
text_lt_irreflexive String.[] = refl
text_lt_irreflexive (String.◌∷◌ c s) = ground (arith, text_lt_irreflexive s)

text_lt_trans : (s t u : String) → text_lt s t ≡ true → text_lt t u ≡ true → text_lt s u ≡ true
unfolding text_lt
text_lt_trans String.[] String.[] u p q = cc
text_lt_trans String.[] (String.◌∷◌ d t) String.[] p q = cc
text_lt_trans String.[] (String.◌∷◌ d t) (String.◌∷◌ e u) p q = refl
text_lt_trans (String.◌∷◌ c s) String.[] u p q = cc
text_lt_trans (String.◌∷◌ c s) (String.◌∷◌ d t) String.[] p q = cc
text_lt_trans (String.◌∷◌ c s) (String.◌∷◌ d t) (String.◌∷◌ e u) p q =
    ground (arith, text_lt_trans s t u)

-- Two texts of which neither is less are equal.
text_lt_trichotomy : (s t : String) → text_lt s t ≡ false → text_lt t s ≡ false → s ≡ t
unfolding text_lt
text_lt_trichotomy String.[] String.[] p q = refl
text_lt_trichotomy String.[] (String.◌∷◌ d t) p q = cc
text_lt_trichotomy (String.◌∷◌ c s) String.[] p q = cc
text_lt_trichotomy (String.◌∷◌ c s) (String.◌∷◌ d t) p q =
    λ i. String.◌∷◌ (same_head i) (text_lt_trichotomy s t tails.0 tails.1 i)
  where
    same_head : c ≡ d
    same_head = Char-path c d (ground arith)

    tails : (text_lt s t ≡ false) × (text_lt t s ≡ false)
    tails = ground arith

abbrev pub is_some {ℓ} : {A : Type ℓ} → Option A → Bool
is_some none = false
is_some (some _) = true

module _ {A : Type 0} (name : A → String) where
  -- slices.SortFunc by the name; where names are equal, Go's order is not specified.
  unfoldable pub insert_sorted : A → List A → List A
  insert_sorted x [] = x ∷ []
  insert_sorted x (y ∷ ys) =
      let rest = insert_sorted x ys in if text_lt (name x) (name y) then x ∷ y ∷ ys else y ∷ rest

  pub sort_by : List A → List A
  sort_by [] = []
  sort_by (x ∷ xs) = insert_sorted x (sort_by xs)

  -- slices.BinarySearchFunc on a sorted slice: the first element that is not less than the target,
  -- if it has the target's name.
  pub search : String → List A → Option A
  search target [] = none
  search target (x ∷ xs) =
      let later = search target xs in
      if text_lt (name x) target then later else if name x == target then some x else none

  -- No later element is less than an earlier one.
  abbrev pub Sorted : List A → Type 0
  Sorted [] = Unit
  Sorted (x ∷ xs) = All (λ y. text_lt (name y) (name x) ≡ false) xs × Sorted xs

  -- Sorting keeps the elements.
  any-insert_sorted :
      (p : A → Bool) (x : A) (ys : List A) → any p (insert_sorted x ys) ≡ (p x || any p ys)
  unfolding insert_sorted
  any-insert_sorted p x [] = refl
  any-insert_sorted p x (y ∷ ys) = ground (arith, any-insert_sorted p x ys)

  pub any-sort_by : (p : A → Bool) (xs : List A) → any p (sort_by xs) ≡ any p xs
  unfolding sort_by
  any-sort_by p [] = refl
  any-sort_by p (x ∷ xs) =
      any-insert_sorted p x (sort_by xs) ∙ ap (λ b. p x || b) (any-sort_by p xs)

  pub All-insert_sorted :
      (P : A → Type 0) (x : A) (ys : List A) → P x → All P ys → All P (insert_sorted x ys)
  unfolding insert_sorted
  All-insert_sorted P x [] px all = (px, tt)
  All-insert_sorted P x (y ∷ ys) px (py, all) = elim (Bool-cases (text_lt (name x) (name y))) [
    | inl less ↦ rw less (px, (py, all))
    | inr more ↦ rw more (py, All-insert_sorted P x ys px all)
  ]

  above :
      (x y : A) (ys : List A)
      → text_lt (name x) (name y) ≡ true
      → All (λ z. text_lt (name z) (name y) ≡ false) ys
      → All (λ z. text_lt (name z) (name x) ≡ false) ys
  above x y [] less all = tt
  above x y (z ∷ zs) less (low, all) =
      (ground (arith, text_lt_trans (name z) (name x) (name y)), above x y zs less all)

  insert_sorted-Sorted : (x : A) (ys : List A) → Sorted ys → Sorted (insert_sorted x ys)
  unfolding insert_sorted
  insert_sorted-Sorted x [] s = (tt, tt)
  insert_sorted-Sorted x (y ∷ ys) (low, s) = elim (Bool-cases (text_lt (name x) (name y))) [
    | inl less ↦ rw less (
      (
        ground (
          arith,
          text_lt_trans (name y) (name x) (name y),
          text_lt_trans (name x) (name y) (name x),
          text_lt_irreflexive (name x),
        ),
        above x y ys less low,
      ),
      (low, s),
    )
    | inr more ↦ rw more (All-insert_sorted _ x ys more low, insert_sorted-Sorted x ys s)
  ]

  pub sort_by-Sorted : (xs : List A) → Sorted (sort_by xs)
  unfolding sort_by
  sort_by-Sorted [] = tt
  sort_by-Sorted (x ∷ xs) = insert_sorted-Sorted x (sort_by xs) (sort_by-Sorted xs)

  none_named :
      (x : A) (target : String) (xs : List A)
      → text_lt target (name x) ≡ true
      → All (λ y. text_lt (name y) (name x) ≡ false) xs
      → any (λ y. name y == target) xs ≡ false
  none_named x target [] less all = refl
  none_named x target (y ∷ ys) less (low, all) =
      ground (arith, none_named x target ys less all, eq_iff (name y) target)

  -- In a sorted list the search finds an element exactly when one has the name.
  pub is_some-search :
      (target : String) (xs : List A)
      → Sorted xs
      → is_some (search target xs) ≡ any (λ x. name x == target) xs
  unfolding search
  is_some-search target [] s = refl
  is_some-search target (x ∷ xs) (low, s) = ground (
    arith,
    is_some-search target xs s,
    none_named x target xs,
    eq_iff (name x) target,
    text_lt_irreflexive target,
    text_lt_trichotomy (name x) target,
  )
