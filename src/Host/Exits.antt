-- ===== src/Host/Exits.antt =====
-- How a program ends after a test that may exit, and the count of the interfaces it asks for.
use vlanman.Prelude.{ℕ, suc, ℤ, List, [], ◌∷◌, ◌⊎◌, inl, inr, ◌≡◌, refl}
use vlanman.Prelude.Decimal.{ParsedInt, parsed, bad_syntax, out_of_range}
use vlanman.Prelude.Run.{fail, return, ◌>>=◌}
use vlanman.Prelude.Ends.{Ends}
use vlanman.Host.{HostEvent, link_add, Program, or_exit, parsed_or_exit}

-- The requests to make an interface.
unfoldable pub adds : List HostEvent → ℕ
adds [] = 0
adds (link_add _ ∷ h) = suc (adds h)
adds (_ ∷ h) = adds h

module _ {B : Type 0} {P : B → List HostEvent → Type 0} {F : ℕ → List HostEvent → Type 0}
    {C : List HostEvent → Type 0} where
  pub Ends-bind-parsed :
      (r : ParsedInt) (f : ℤ → Program B) (h : List HostEvent)
      → F 1 h
      → ((i : ℤ) → r ≡ parsed i → Ends P F C (f i h))
      → Ends P F C ((parsed_or_exit r >>= f) h)
  unfolding ◌>>=◌
  Ends-bind-parsed (parsed i) f h b s = s i refl
  Ends-bind-parsed bad_syntax f h b s = record { holds = b }
  Ends-bind-parsed (out_of_range _) f h b s = record { holds = b }

module _ {X A B : Type 0} {P : B → List HostEvent → Type 0} {F : ℕ → List HostEvent → Type 0}
    {C : List HostEvent → Type 0} where
  pub Ends-bind-or_exit :
      (r : X ⊎ A) (f : A → Program B) (h : List HostEvent)
      → F 1 h
      → ((a : A) → r ≡ inr a → Ends P F C (f a h))
      → Ends P F C ((or_exit r >>= f) h)
  unfolding ◌>>=◌
  Ends-bind-or_exit (inl e) f h b s = record { holds = b }
  Ends-bind-or_exit (inr a) f h b s = s a refl

module _ {X A : Type 0} {P : A → List HostEvent → Type 0} {F : ℕ → List HostEvent → Type 0}
    {C : List HostEvent → Type 0} where
  pub Ends-or_exit :
      (r : X ⊎ A) (h : List HostEvent)
      → F 1 h
      → ((a : A) → r ≡ inr a → P a h)
      → Ends P F C (or_exit r h)
  unfolding fail return
  Ends-or_exit (inl e) h b s = record { holds = b }
  Ends-or_exit (inr a) h b s = record { holds = s a refl }
