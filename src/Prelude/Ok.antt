-- ===== src/Prelude/Ok.antt =====
-- Runs of single calls whose answer is known.
use mathlib.Core.List.{List, ◌∷◌}
use mathlib.Core.Logic.{◌⊎◌, inr}
use mathlib.Core.Path.{◌≡◌, refl, ◌∙◌}
use vlanman.Prelude.Run.{Run, Out, ok, lift, call, wrap, ◌>>=◌}

pub lift_ok :
    {Ev E A : Type 0} {r : E ⊎ A} {a : A} → r ≡ inr a → (h : List Ev) → lift r h ≡ (ok a, h)
unfolding ◌>>=◌
lift_ok e h = rw e refl

module _ {Ev E A B : Type 0} where
  pub wrap-lift_ok :
      {r : E ⊎ A} {a : A} (g : E → E) (f : A → Run Ev E B)
      → r ≡ inr a
      → (h : List Ev) → (wrap (lift r) g >>= f) h ≡ f a h
  unfolding ◌>>=◌
  wrap-lift_ok g f e h = rw e refl

  pub wrap-call_ok :
      (ev : Ev) (answer : List Ev → E ⊎ A) (h : List Ev) {a : A} (g : E → E) (f : A → Run Ev E B)
      → answer h ≡ inr a
      → (wrap (call ev answer) g >>= f) h ≡ f a (ev ∷ h)
  unfolding ◌>>=◌
  wrap-call_ok ev answer h g f e = cc

  -- The same, with what comes after the call.
  pub bind_then :
      (m : Run Ev E A) (f : A → Run Ev E B) (h : List Ev) {h1 : List Ev} {a : A} {out : Out Ev E B}
      → m h ≡ (ok a, h1)
      → f a h1 ≡ out
      → (m >>= f) h ≡ out
  unfolding ◌>>=◌
  bind_then m f h e k = cc

  pub wrap-lift_then :
      (r : E ⊎ A) {a : A} (g : E → E) (f : A → Run Ev E B) (h : List Ev) {out : Out Ev E B}
      → r ≡ inr a
      → f a h ≡ out
      → (wrap (lift r) g >>= f) h ≡ out
  wrap-lift_then r g f h e k = wrap-lift_ok g f e h ∙ k

  pub wrap-call_then :
      (ev : Ev) (answer : List Ev → E ⊎ A) (g : E → E) (f : A → Run Ev E B) (h : List Ev) {a : A}
      {out : Out Ev E B}
      → answer h ≡ inr a
      → f a (ev ∷ h) ≡ out
      → (wrap (call ev answer) g >>= f) h ≡ out
  wrap-call_then ev answer g f h e k = wrap-call_ok ev answer h g f e ∙ k
