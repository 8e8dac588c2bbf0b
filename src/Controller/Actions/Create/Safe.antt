-- ===== src/Controller/Actions/Create/Safe.antt =====
-- Runs that add to the events and take nothing away, but for one that fails as it takes a DaemonSet
-- away; they panic only on a nil response.
use vlanman.Prelude.{String, List, ◌∷◌, none, inr, ◌≡◌, Bool, true, false, if◌then◌else◌}
use vlanman.Prelude.Run.{Out, return, fail, call, ask, lift, catch, wrap, attempt, ◌>>=◌}
use vlanman.Prelude.Ends.{
  Ends, Ends-return, Ends-fail, Ends-call, Ends-wrap, Ends-bind, Ends-lift, Ends-bind-attempt-keeps,
  Ends-bind-ask, Ends-map_error, Ends-map_value, Ends-catch,
}
use vlanman.Errors.{GoError}
use vlanman.Cluster.{Answer, Cluster, Event, Operator, http_get, sleep}
use vlanman.Controller.Actions.Create.Later.{
  Later, same, then_event, Later-trans, Failed, left_alone, Spares,
}

module _ (c : Cluster) where
  -- The newest events are a request that was answered with no error and no response, and a pause.
  abbrev pub IsNil : List Event → Type 0
  IsNil h' =
      (url : String) × (h : List Event) × (h' ≡ sleep ∷ http_get url ∷ h)
      × (c.http_get_answer url h ≡ inr none)

  -- However it ends, it added to the events, and a panic is due to a nil response.
  abbrev pub IsSafe : {A : Type 0} → Operator A → Type 0
  IsSafe m = (h : List Event) → Ends (λ _. Later h) (λ _. Later h) IsNil (m h)

  pub Ends-Later :
      {A : Type 0} {out : Out Event GoError A} {h h1 : List Event}
      → Later h h1
      → Ends (λ _. Later h1) (λ _. Later h1) IsNil out
      → Ends (λ _. Later h) (λ _. Later h) IsNil out
  Ends-Later l s = Ends-map_value (λ _ _. Later-trans l) (Ends-map_error (λ _ _. Later-trans l) s)

  module _ {A : Type 0} where
    pub IsSafe-return : (a : A) → IsSafe (return a)
    IsSafe-return a h = Ends-return a h same

    pub IsSafe-fail : (e : GoError) → IsSafe {A = A} (fail e)
    IsSafe-fail e h = Ends-fail e h same

    pub IsSafe-call :
        (e : Event) (answer : List Event → Answer A) → Spares e → IsSafe (call e answer)
    IsSafe-call e answer spares h =
        Ends-call e answer h (λ _ _. then_event e spares same) (λ _ _. then_event e spares same)

    pub IsSafe-lift : (r : Answer A) → IsSafe (lift r)
    IsSafe-lift r h = Ends-lift r h (λ _ _. same) (λ _ _. same)

    pub IsSafe-wrap : {m : Operator A} (f : GoError → GoError) → IsSafe m → IsSafe (wrap m f)
    IsSafe-wrap {m} f s h = Ends-wrap m f h (s h)

    pub IsSafe-catch :
        {m : Operator A} {f : GoError → Operator A}
        → IsSafe m
        → ((e : GoError) → IsSafe (f e))
        → IsSafe (catch m f)
    IsSafe-catch {m} {f} s t h =
        Ends-catch (λ _. Later h) m f h (s h) (λ e h1 l. Ends-Later l (t e h1))

    pub IsSafe-if :
        (b : Bool) {m k : Operator A} → IsSafe m → IsSafe k → IsSafe (if b then m else k)
    IsSafe-if true s t = s
    IsSafe-if false s t = t

  pub IsSafe-ask :
      {B : Type 0} (e : Event) {k : Operator B}
      → Spares e
      → IsSafe k
      → IsSafe (ask {E = GoError} e (λ _. tt {0}) >>= (λ _. k))
  IsSafe-ask e spares s h = Ends-bind-ask _ _ _ h (Ends-Later (then_event e spares same) (s _))

  module _ {A B : Type 0} where
    pub IsSafe-bind :
        {m : Operator A} {f : A → Operator B}
        → IsSafe m
        → ((a : A) → IsSafe (f a))
        → IsSafe (m >>= f)
    IsSafe-bind {m} {f} s t h =
        Ends-bind (λ _. Later h) m f h (s h) (λ a h1 l. Ends-Later l (t a h1))

    pub IsSafe-attempt :
        {m : Operator A} {f : Answer A → Operator B}
        → IsSafe m
        → ((a : Answer A) → IsSafe (f a))
        → IsSafe (attempt m >>= f)
    IsSafe-attempt {m} {f} s t h =
        Ends-bind-attempt-keeps (Later h) m f h (s h) (λ a h1 l. Ends-Later l (t a h1))

  -- However it ends, nothing is taken away, or it fails at once after a DaemonSet was.
  abbrev pub IsCareful : {A : Type 0} → Operator A → Type 0
  IsCareful m = (h : List Event) → Ends (λ _. Later h) (λ _. Failed h) IsNil (m h)

  pub IsSafe-IsCareful : {A : Type 0} {m : Operator A} → IsSafe m → IsCareful m
  IsSafe-IsCareful s h = Ends-map_error (λ _ _. left_alone) (s h)
