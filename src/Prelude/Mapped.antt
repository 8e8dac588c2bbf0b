-- ===== src/Prelude/Mapped.antt =====
-- The value of a run passed through a function.
use mathlib.Core.Path.{◌≡◌, refl}
use mathlib.Core.List.{List}
use vlanman.Prelude.Run.{ok, err, panic, Out, Run, ◌>>=◌}

module _ {Ev E A B : Type 0} where
  unfoldable pub map_out : (A → B) → Out Ev E A → Out Ev E B
  map_out k (ok a, h) = (ok (k a), h)
  map_out k (err e, h) = (err e, h)
  map_out k (panic, h) = (panic, h)

module _ {Ev E A B C : Type 0} where
  pub bind-map_out :
      (k : B → C) (m : Run Ev E A) (f : A → Run Ev E C) (g : A → Run Ev E B) (h : List Ev)
      → ((a : A) (h' : List Ev) → f a h' ≡ map_out k (g a h'))
      → (m >>= f) h ≡ map_out k ((m >>= g) h)
  unfolding ◌>>=◌ map_out
  bind-map_out k m f g h e = go (m h)
    where
      go : (out : Out Ev E A) → ((λ _. out) >>= f) h ≡ map_out k (((λ _. out) >>= g) h)
      go (ok a, h') = e a h'
      go (err x, h') = refl
      go (panic, h') = refl

module _ {Ev E A B : Type 0} where
  pub bind-ok :
      (k : A → B) (m : Run Ev E A) (f : A → Run Ev E B) (h : List Ev)
      → ((a : A) (h' : List Ev) → f a h' ≡ (ok (k a), h'))
      → (m >>= f) h ≡ map_out k (m h)
  unfolding ◌>>=◌ map_out
  bind-ok k m f h e = go (m h)
    where
      go : (out : Out Ev E A) → ((λ _. out) >>= f) h ≡ map_out k out
      go (ok a, h') = e a h'
      go (err x, h') = refl
      go (panic, h') = refl
