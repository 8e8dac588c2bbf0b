-- ===== src/Prelude/Ends.antt =====
-- How a run ends: a predicate of its value, of its error, and of a panic, each with the events, and
-- one rule for each way to build a run.
use mathlib.Core.Path.{◌≡◌, refl, subst}
use mathlib.Core.List.{List, ◌∷◌}
use mathlib.Core.Logic.{◌⊎◌, inl, inr}
use vlanman.Prelude.Run.{
  Result, ok, err, panic, Out, Run, return, fail, crash, call, ask, lift, catch, wrap, attempt,
  ◌>>=◌,
}

module _ {Ev E A : Type 0} where
  abbrev OutSatisfies :
      (A → List Ev → Type 0) → (E → List Ev → Type 0) → (List Ev → Type 0) → Out Ev E A → Type 0
  OutSatisfies P F C out = elim out.0 [ ok a ↦ P a out.1 | err e ↦ F e out.1 | panic ↦ C out.1 ]

pub record Ends {Ev E A : Type 0} (P : A → List Ev → Type 0) (F : E → List Ev → Type 0)
    (C : List Ev → Type 0) (out : Out Ev E A) : Type 0 where
  pub holds : OutSatisfies P F C out

module _ {Ev E A : Type 0} {P : A → List Ev → Type 0} {F : E → List Ev → Type 0}
    {C : List Ev → Type 0} where
  pub Ends-return : (a : A) (h : List Ev) → P a h → Ends P F C (return a h)
  unfolding return
  Ends-return a h p = record { holds = p }

  pub Ends-fail : (e : E) (h : List Ev) → F e h → Ends P F C (fail e h)
  unfolding fail
  Ends-fail e h p = record { holds = p }

  pub Ends-crash : (h : List Ev) → C h → Ends P F C (crash h)
  unfolding crash
  Ends-crash h p = record { holds = p }

  Ends-ask :
      (ev : Ev) (answer : List Ev → A) (h : List Ev)
      → P (answer h) (ev ∷ h)
      → Ends P F C (ask ev answer h)
  unfolding ask
  Ends-ask ev answer h p = record { holds = p }

  pub Ends-lift :
      (r : E ⊎ A) (h : List Ev)
      → ((e : E) → r ≡ inl e → F e h)
      → ((a : A) → r ≡ inr a → P a h)
      → Ends P F C (lift r h)
  unfolding lift
  Ends-lift (inl e) h f p = record { holds = f e refl }
  Ends-lift (inr a) h f p = record { holds = p a refl }

  pub Ends-call :
      (ev : Ev) (answer : List Ev → E ⊎ A) (h : List Ev)
      → ((e : E) → answer h ≡ inl e → F e (ev ∷ h))
      → ((a : A) → answer h ≡ inr a → P a (ev ∷ h))
      → Ends P F C (call ev answer h)
  unfolding call
  Ends-call ev answer h f p = go (answer h) f p
    where
      go :
          (r : E ⊎ A)
          → ((e : E) → r ≡ inl e → F e (ev ∷ h))
          → ((a : A) → r ≡ inr a → P a (ev ∷ h))
          → Ends P F C (elim r [ inl e ↦ (err e, ev ∷ h) | inr a ↦ (ok a, ev ∷ h) ])
      go (inl e) f p = record { holds = f e refl }
      go (inr a) f p = record { holds = p a refl }

  pub Ends-wrap :
      (m : Run Ev E A) (f : E → E) (h : List Ev)
      → Ends P (λ e. F (f e)) C (m h)
      → Ends P F C (wrap m f h)
  unfolding wrap
  Ends-wrap m f h s = go (m h).0 (m h).1 s.holds
    where
      go :
          (r : Result E A) (h' : List Ev)
          → OutSatisfies P (λ e. F (f e)) C (r, h')
          → Ends P F C
              (elim r [ ok a ↦ (ok a, h') | err e ↦ (err (f e), h') | panic ↦ (panic, h') ])
      go (ok a) h' p = record { holds = p }
      go (err e) h' p = record { holds = p }
      go panic h' p = record { holds = p }

  pub Ends-catch :
      (G : E → List Ev → Type 0) (m : Run Ev E A) (f : E → Run Ev E A) (h : List Ev)
      → Ends P G C (m h)
      → ((e : E) (h' : List Ev) → G e h' → Ends P F C (f e h'))
      → Ends P F C (catch m f h)
  unfolding catch
  Ends-catch G m f h s k = go (m h).0 (m h).1 s.holds
    where
      go :
          (r : Result E A) (h' : List Ev)
          → OutSatisfies P G C (r, h')
          → Ends P F C (elim r [ ok a ↦ (ok a, h') | err e ↦ f e h' | panic ↦ (panic, h') ])
      go (ok a) h' p = record { holds = p }
      go (err e) h' p = k e h' p
      go panic h' p = record { holds = p }

  -- What holds of the value, where there is one.
  pub Ends-ok : {out : Out Ev E A} (a : A) → Ends P F C out → out.0 ≡ ok a → P a out.1
  Ends-ok {out} a s p = subst (λ r. OutSatisfies P F C (r, out.1)) p s.holds

module _ {Ev E A : Type 0} {P : A → List Ev → Type 0} {F : E → List Ev → Type 0}
    {C D : List Ev → Type 0} where
  pub Ends-weaken :
      {out : Out Ev E A} → ((h : List Ev) → C h → D h) → Ends P F C out → Ends P F D out
  Ends-weaken {out} k s = record { holds = go out.0 s.holds }
    where
      go : (r : Result E A) → OutSatisfies P F C (r, out.1) → OutSatisfies P F D (r, out.1)
      go (ok a) p = p
      go (err e) p = p
      go panic p = k out.1 p

module _ {Ev E A : Type 0} {P : A → List Ev → Type 0} {F : E → List Ev → Type 0}
    {C : List Ev → Type 0} where
  -- The value and the events are those of the run.
  pub Ends-known :
      {out : Out Ev E A} → Ends P F C out → Ends (λ a h. (out ≡ (ok a, h)) × P a h) F C out
  Ends-known {out} s = go out s
    where
      go : (o : Out Ev E A) → Ends P F C o → Ends (λ a h. (o ≡ (ok a, h)) × P a h) F C o
      go (ok a, h) s = record { holds = (refl, s.holds) }
      go (err e, h) s = record { holds = s.holds }
      go (panic, h) s = record { holds = s.holds }

module _ {Ev E A : Type 0} {P Q : A → List Ev → Type 0} {F G : E → List Ev → Type 0}
    {C D : List Ev → Type 0} where
  -- Two predicates of the value hold of the same one.
  pub Ends-both :
      {out : Out Ev E A} → Ends P F C out → Ends Q G D out → Ends (λ a h. P a h × Q a h) F C out
  Ends-both {out} s t = record { holds = go out.0 s.holds t.holds }
    where
      go :
          (r : Result E A)
          → OutSatisfies P F C (r, out.1)
          → OutSatisfies Q G D (r, out.1)
          → OutSatisfies (λ a h. P a h × Q a h) F C (r, out.1)
      go (ok a) p q = (p, q)
      go (err e) p q = p
      go panic p q = p

module _ {Ev E A : Type 0} {P : A → List Ev → Type 0} {F : E → List Ev → Type 0}
    {C : List Ev → Type 0} where
  pub Ends-map_error :
      {G : E → List Ev → Type 0} {out : Out Ev E A}
      → ((e : E) (h : List Ev) → G e h → F e h)
      → Ends P G C out
      → Ends P F C out
  Ends-map_error {G} {out} k s = record { holds = go out.0 s.holds }
    where
      go : (r : Result E A) → OutSatisfies P G C (r, out.1) → OutSatisfies P F C (r, out.1)
      go (ok a) p = p
      go (err e) p = k e out.1 p
      go panic p = p

  pub Ends-map_value :
      {Q : A → List Ev → Type 0} {out : Out Ev E A}
      → ((a : A) (h : List Ev) → Q a h → P a h)
      → Ends Q F C out
      → Ends P F C out
  Ends-map_value {Q} {out} k s = record { holds = go out.0 s.holds }
    where
      go : (r : Result E A) → OutSatisfies Q F C (r, out.1) → OutSatisfies P F C (r, out.1)
      go (ok a) p = k a out.1 p
      go (err e) p = p
      go panic p = p

  pub Ends-no_error : {out : Out Ev E A} → Ends P (λ _ _. ⊥) C out → Ends P F C out
  Ends-no_error = Ends-map_error (λ _ _ never. absurd never)

module _ {Ev E A B : Type 0} {P : B → List Ev → Type 0} {F : E → List Ev → Type 0}
    {C : List Ev → Type 0} where
  pub Ends-bind :
      (Q : A → List Ev → Type 0) (m : Run Ev E A) (f : A → Run Ev E B) (h : List Ev)
      → Ends Q F C (m h)
      → ((a : A) (h' : List Ev) → Q a h' → Ends P F C (f a h'))
      → Ends P F C ((m >>= f) h)
  unfolding ◌>>=◌
  Ends-bind Q m f h s k = go (m h).0 (m h).1 s.holds
    where
      go :
          (r : Result E A) (h' : List Ev)
          → OutSatisfies Q F C (r, h')
          → Ends P F C (elim r [ ok a ↦ f a h' | err e ↦ (err e, h') | panic ↦ (panic, h') ])
      go (ok a) h' p = k a h' p
      go (err e) h' p = record { holds = p }
      go panic h' p = record { holds = p }

  pub Ends-bind-ask :
      (ev : Ev) (answer : List Ev → A) (f : A → Run Ev E B) (h : List Ev)
      → Ends P F C (f (answer h) (ev ∷ h))
      → Ends P F C ((ask ev answer >>= f) h)
  unfolding ◌>>=◌
  Ends-bind-ask ev answer f h s = s

  pub Ends-bind-call :
      (ev : Ev) (answer : List Ev → E ⊎ A) (f : A → Run Ev E B) (h : List Ev)
      → ((e : E) → answer h ≡ inl e → F e (ev ∷ h))
      → ((a : A) → answer h ≡ inr a → Ends P F C (f a (ev ∷ h)))
      → Ends P F C ((call ev answer >>= f) h)
  Ends-bind-call ev answer f h b s =
      Ends-bind (λ a h'. (answer h ≡ inr a) × (h' ≡ ev ∷ h)) _ f h
        (Ends-call ev answer h b (λ a e. (e, refl))) (λ a h' (e, eq). rw eq (s a e))

  pub Ends-bind-wrap-call :
      (ev : Ev) (answer : List Ev → E ⊎ A) (g : E → E) (f : A → Run Ev E B) (h : List Ev)
      → ((e : E) → answer h ≡ inl e → F (g e) (ev ∷ h))
      → ((a : A) → answer h ≡ inr a → Ends P F C (f a (ev ∷ h)))
      → Ends P F C ((wrap (call ev answer) g >>= f) h)
  Ends-bind-wrap-call ev answer g f h b s =
      Ends-bind (λ a h'. (answer h ≡ inr a) × (h' ≡ ev ∷ h)) _ f h
        (Ends-wrap _ g h (Ends-call ev answer h b (λ a e. (e, refl))))
        (λ a h' (e, eq). rw eq (s a e))

  pub Ends-bind-lift :
      (r : E ⊎ A) (f : A → Run Ev E B) (h : List Ev)
      → ((e : E) → r ≡ inl e → F e h)
      → ((a : A) → r ≡ inr a → Ends P F C (f a h))
      → Ends P F C ((lift r >>= f) h)
  unfolding ◌>>=◌
  Ends-bind-lift (inl e) f h b s = record { holds = b e refl }
  Ends-bind-lift (inr a) f h b s = s a refl

  pub Ends-bind-wrap-lift :
      (r : E ⊎ A) (g : E → E) (f : A → Run Ev E B) (h : List Ev)
      → ((e : E) → r ≡ inl e → F (g e) h)
      → ((a : A) → r ≡ inr a → Ends P F C (f a h))
      → Ends P F C ((wrap (lift r) g >>= f) h)
  unfolding ◌>>=◌
  Ends-bind-wrap-lift (inl e) g f h b s = record { holds = b e refl }
  Ends-bind-wrap-lift (inr a) g f h b s = s a refl

  -- After an attempt the rest runs on the error or on the value.
  pub Ends-bind-attempt :
      (Q : A → List Ev → Type 0) (G : E → List Ev → Type 0) (m : Run Ev E A)
      (f : E ⊎ A → Run Ev E B) (h : List Ev)
      → Ends Q G C (m h)
      → ((e : E) (h' : List Ev) → G e h' → Ends P F C (f (inl e) h'))
      → ((a : A) (h' : List Ev) → Q a h' → Ends P F C (f (inr a) h'))
      → Ends P F C ((attempt m >>= f) h)
  unfolding ◌>>=◌
  Ends-bind-attempt Q G m f h s b k = go (m h).0 (m h).1 s.holds
    where
      go :
          (r : Result E A) (h' : List Ev)
          → OutSatisfies Q G C (r, h')
          → Ends P F C ((attempt (λ _. (r, h')) >>= f) h)
      go (ok a) h' p = k a h' p
      go (err e) h' p = b e h' p
      go panic h' p = record { holds = p }

  pub Ends-bind-attempt-keeps :
      (K : List Ev → Type 0) (m : Run Ev E A) (f : E ⊎ A → Run Ev E B) (h : List Ev)
      → Ends (λ _. K) (λ _. K) C (m h)
      → ((r : E ⊎ A) (h' : List Ev) → K h' → Ends P F C (f r h'))
      → Ends P F C ((attempt m >>= f) h)
  Ends-bind-attempt-keeps K m f h s k =
      Ends-bind-attempt (λ _. K) (λ _. K) m f h s (λ e. k (inl e)) (λ a. k (inr a))

  pub Ends-bind-attempt-call :
      (ev : Ev) (answer : List Ev → E ⊎ A) (f : E ⊎ A → Run Ev E B) (h : List Ev)
      → ((r : E ⊎ A) → answer h ≡ r → Ends P F C (f r (ev ∷ h)))
      → Ends P F C ((attempt (call ev answer) >>= f) h)
  Ends-bind-attempt-call ev answer f h s =
      Ends-bind-attempt (λ a h'. (answer h ≡ inr a) × (h' ≡ ev ∷ h))
        (λ e h'. (answer h ≡ inl e) × (h' ≡ ev ∷ h)) _ f h
        (Ends-call ev answer h (λ e eq. (eq, refl)) (λ a eq. (eq, refl)))
        (λ e h' (eq, at). rw at (s (inl e) eq)) (λ a h' (eq, at). rw at (s (inr a) eq))

pub Ends-any :
    {Ev E A : Type 0} (out : Out Ev E A)
    → Ends (λ _ _. Unit {0}) (λ _ _. Unit {0}) (λ _. Unit {0}) out
Ends-any (ok a, h) = record { holds = tt }
Ends-any (err e, h) = record { holds = tt }
Ends-any (panic, h) = record { holds = tt }
