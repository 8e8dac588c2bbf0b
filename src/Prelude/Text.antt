-- ===== src/Prelude/Text.antt =====
-- Package strings: Cut at "/" and Join. A text is walked by its characters.
use Prim.Native.Char.{Char, code}
use Prim.Native.String
use Prim.Native.String.{String}
use mathlib.Core.Path.{◌≡◌, refl, ap}
use mathlib.Core.Logic.{inl, inr}
use mathlib.Core.Bool.{Bool, true, false}
use mathlib.Core.List.{List, [], ◌∷◌}
use text.Mathlib.TextLemmas.{nil-append, cons-append}
use vlanman.Prelude.Tests.{eqb, if◌then◌else◌, Bool-cases}

infixl 65 ◌⧺◌
abbrev pub ◌⧺◌ : String → String → String
s ⧺ t = String.◌++◌ s t

-- strings.Join
unfoldable pub join : List String → String → String
join [] sep = ""
join (s ∷ []) sep = s
join (s ∷ t ∷ rest) sep = s ⧺ (sep ⧺ join (t ∷ rest) sep)

-- What strings.Cut returns: the text before the separator, the text after it, and whether it is there.
pub record Parts : Type 0 where
  pub before : String
  pub after : String
  pub found : Bool

abbrev put_front : Char → Parts → Parts
put_front c p = record { before = String.◌∷◌ c p.before; after = p.after; found = p.found }

-- strings.Cut(s, "/")
unfoldable pub cut : String → Parts
cut String.[] = record { before = ""; after = ""; found = false }
cut (String.◌∷◌ c s) =
    let rest = cut s in
    if eqb (code c) b'/' then record { before = ""; after = s; found = true } else put_front c rest

-- The address of a CIDR text: the part before the "/".
unfoldable pub address_of : String → String
unfolding cut
address_of s = (cut s).before

slash-append : (t : String) → cut ("/" ⧺ t) ≡ record { before = ""; after = t; found = true }
unfolding cut
slash-append t = rw cons-append (rw nil-append refl)

-- What stands before the first "/" is kept when a "/" and any text are put behind it.
pub cut-before-slash :
    (s t : String)
    → cut ((cut s).before ⧺ ("/" ⧺ t)) ≡ record { before = (cut s).before; after = t; found = true }
unfolding cut
cut-before-slash String.[] t = rw nil-append (slash-append t)
cut-before-slash (String.◌∷◌ c s) t = elim (Bool-cases (eqb (code c) b'/')) [
  | inl e ↦ rw e (rw nil-append (slash-append t))
  | inr e ↦ rw e (rw cons-append (rw (e, cut) (ap (put_front c) (cut-before-slash s t))))
]

-- Before the first "/" there is none.
pub cut-before :
    (s : String)
    → cut (cut s).before ≡ record { before = (cut s).before; after = ""; found = false }
unfolding cut
cut-before String.[] = refl
cut-before (String.◌∷◌ c s) = elim (Bool-cases (eqb (code c) b'/')) [
  | inl e ↦ rw (e, cut) refl
  | inr e ↦ rw (e, cut) (rw (e, cut) (ap (put_front c) (cut-before s)))
]
