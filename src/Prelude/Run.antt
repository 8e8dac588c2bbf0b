-- ===== src/Prelude/Run.antt =====
-- Code with effects. The outside world is not modelled: each call of it is an event, and what the
-- call returns is a function of the events before it, an argument of the code. So a run goes from
-- the list of the events so far, newest first, to a result and the events after it.
use mathlib.Core.List.{List, ◌∷◌}
use mathlib.Core.Logic.{◌⊎◌, inl, inr}

-- `panic` is a run-time panic, such as a nil dereference.
pub data Result {ℓ} (E A : Type ℓ) : Type ℓ where
  ok : A → Result E A
  err : E → Result E A
  panic : Result E A

abbrev pub Out : Type 0 → Type 0 → Type 0 → Type 0
Out Ev E A = Result E A × List Ev

abbrev pub Run : Type 0 → Type 0 → Type 0 → Type 0
Run Ev E A = List Ev → Out Ev E A

module _ {Ev E A : Type 0} where
  unfoldable pub return : A → Run Ev E A
  return a h = (ok a, h)

  unfoldable pub fail : E → Run Ev E A
  fail e h = (err e, h)

  unfoldable pub crash : Run Ev E A
  crash h = (panic, h)

  -- One call of the outside world, which answers with an error or a value.
  unfoldable pub call : Ev → (List Ev → E ⊎ A) → Run Ev E A
  call ev answer h = elim (answer h) [ inl e ↦ (err e, ev ∷ h) | inr a ↦ (ok a, ev ∷ h) ]

  -- A call that returns no error.
  unfoldable pub ask : Ev → (List Ev → A) → Run Ev E A
  ask ev answer h = (ok (answer h), ev ∷ h)

  -- A computation that may fail and asks nothing.
  unfoldable pub lift : E ⊎ A → Run Ev E A
  lift r h = elim r [ inl e ↦ (err e, h) | inr a ↦ (ok a, h) ]

  -- `if err != nil { … }` with a body that returns.
  unfoldable pub catch : Run Ev E A → (E → Run Ev E A) → Run Ev E A
  catch m f h =
      let (r, h') = m h in elim r [ ok a ↦ (ok a, h') | err e ↦ f e h' | panic ↦ (panic, h') ]

  -- `if err != nil { return wrap(err) }`
  unfoldable pub wrap : Run Ev E A → (E → E) → Run Ev E A
  wrap m f h =
      let (r, h') = m h in
      elim r [ ok a ↦ (ok a, h') | err e ↦ (err (f e), h') | panic ↦ (panic, h') ]

  -- Keeps the error as a value.
  pub attempt : Run Ev E A → Run Ev E (E ⊎ A)
  attempt m h =
      let (r, h') = m h in
      elim r [ ok a ↦ (ok (inr a), h') | err e ↦ (ok (inl e), h') | panic ↦ (panic, h') ]

module _ {Ev E A B : Type 0} where
  infixl 5 ◌>>=◌ ◌>>◌
  unfoldable pub ◌>>=◌ : Run Ev E A → (A → Run Ev E B) → Run Ev E B
  unfolding return fail crash call ask lift catch wrap attempt
  ◌>>=◌ m f h =
      let (r, h') = m h in elim r [ ok a ↦ f a h' | err e ↦ (err e, h') | panic ↦ (panic, h') ]

  abbrev pub ◌>>◌ : Run Ev E A → Run Ev E B → Run Ev E B
  m >> k = m >>= λ _. k
