-- ===== src/Cmd/Operator/Main.antt =====
-- main of cmd/operator/main.go: what is registered with controller-runtime, which is a library, before
-- the operator is started.
use vlanman.Prelude.{
  ℕ, List, [], ◌∷◌, Option, none, some, ◌⊎◌, inl, inr, Bool, true, false, ◌≡◌, refl,
}
use vlanman.Prelude.Run.{Run, Result, Out, ok, err, panic, return, fail, crash, ask, ◌>>=◌, ◌>>◌}
use vlanman.Prelude.Ends.{Ends, Ends-return, Ends-fail, Ends-bind-ask}
use vlanman.Errors.{GoError}
use vlanman.Cluster.{Envs}
use vlanman.Host.{HostEvent, HostAnswer, Environment}
use vlanman.Cmd.Operator.{operator_envs, operator_envs-ttl}

pub data Registration : Type 0 where
  new_manager : Registration
  -- SetupWithManager of the reconciler, and the two SetupVlanmanWebhookWithManager.
  setup_controller setup_network_webhook setup_pod_webhook : Envs → Registration
  add_healthz_check add_readyz_check : Registration
  start : Registration

-- What controller-runtime answers; `none` is a nil manager.
pub record Runtime : Type 0 where
  pub new_manager_answer : List Registration → HostAnswer (Option (Unit {0}))
  pub answer : Registration → List Registration → HostAnswer (Unit {0})

abbrev pub Starting : Type 0 → Type 0
Starting = Run Registration ℕ

abbrev some_manager : HostAnswer (Option (Unit {0})) → Starting (Unit {0})
some_manager (inl _) = fail 1
some_manager (inr none) = fail 1
some_manager (inr (some _)) = return tt

-- The part that makes the Envs asks nothing.
abbrev settled : Result ℕ Envs → Starting Envs
settled (ok e) = return e
settled (err code) = fail code
settled panic = crash

abbrev ok_or_exit : HostAnswer (Unit {0}) → Starting (Unit {0})
ok_or_exit (inl _) = fail 1
ok_or_exit (inr _) = return tt

module _ (rt : Runtime) where
  -- `if err = …; err != nil { …; os.Exit(1) }`
  pub register : Registration → Starting (Unit {0})
  register r = do a ← ask r (rt.answer r); ok_or_exit a

  -- Everything behind the making of the Envs.
  abbrev pub register_all : Envs → Starting (Unit {0})
  register_all e = do
    register (setup_controller e)
    register (setup_network_webhook e)
    register (setup_pod_webhook e)
    register add_healthz_check
    register add_readyz_check
    register start

  -- main
  pub operator_main : Environment → Starting (Unit {0})
  unfolding register
  operator_main env = do
    made ← ask new_manager rt.new_manager_answer
    some_manager made
    e ← settled (operator_envs env []).0
    register_all e

abbrev is_start : Registration → Bool
is_start start = true
is_start _ = false

-- Whether the operator was asked to start.
abbrev pub started : List Registration → Bool
started [] = false
started (start ∷ h) = true
started (r ∷ h) = started h

-- All registrations in the order of main, with the Envs of the environment, the start last.
abbrev pub IsStarted : Environment → List Registration → Type 0
IsStarted env h =
    (e : Envs) × ((operator_envs env []).0 ≡ ok e)
    × (h
        ≡ start
          ∷ add_readyz_check
          ∷ add_healthz_check
          ∷ setup_pod_webhook e
          ∷ setup_network_webhook e
          ∷ setup_controller e
          ∷ new_manager
          ∷ [])

module _ (rt : Runtime) (env : Environment) where
  -- The start was not asked for, or it was after all registrations and failed.
  abbrev pub IsUnstarted : ℕ → List Registration → Type 0
  IsUnstarted code h =
      (code ≡ 1)
      × ((started h ≡ false)
          ⊎ (IsStarted env h
              × ((x : GoError) × (g : List Registration) × (rt.answer start g ≡ inl x))))

  Ends-register :
      {B : Type 0} {P : B → List Registration → Type 0} (r : Registration)
      (f : Unit {0} → Starting B) (h : List Registration)
      → ((x : GoError) → rt.answer r h ≡ inl x → IsUnstarted 1 (r ∷ h))
      → Ends P IsUnstarted (λ _. ⊥) (f tt (r ∷ h))
      → Ends P IsUnstarted (λ _. ⊥) ((register rt r >>= f) h)
  unfolding register ◌>>=◌
  Ends-register {B} {P} r f h b s = go (rt.answer r h) b
    where
      go :
          (a : HostAnswer (Unit {0}))
          → ((x : GoError) → a ≡ inl x → IsUnstarted 1 (r ∷ h))
          → Ends P IsUnstarted (λ _. ⊥) ((ok_or_exit a >>= f) (r ∷ h))
      go (inl x) b = record { holds = b x refl }
      go (inr _) b = s

  Ends-last :
      {P : Unit {0} → List Registration → Type 0} (r : Registration) (h : List Registration)
      → ((x : GoError) → rt.answer r h ≡ inl x → IsUnstarted 1 (r ∷ h))
      → P tt (r ∷ h)
      → Ends P IsUnstarted (λ _. ⊥) (register rt r h)
  unfolding register
  Ends-last {P} r h b s = Ends-bind-ask _ _ _ h (go (rt.answer r h) b)
    where
      go :
          (a : HostAnswer (Unit {0}))
          → ((x : GoError) → a ≡ inl x → IsUnstarted 1 (r ∷ h))
          → Ends P IsUnstarted (λ _. ⊥) (ok_or_exit a (r ∷ h))
      go (inl x) b = Ends-fail _ _ (b x refl)
      go (inr _) b = Ends-return _ _ s

exits_by_one :
    {P : Envs → List HostEvent → Type 0} {F : List HostEvent → Type 0} (out : Out HostEvent ℕ Envs)
    → Ends P (λ code h'. (code ≡ 1) × F h') (λ _. ⊥) out
    → ((code : ℕ) → out.0 ≡ err code → code ≡ 1) × (out.0 ≡ panic → ⊥)
exits_by_one (ok e, h) s = (λ code p. cc, λ p. cc)
exits_by_one (err c, h) s = (λ code p. cc s.holds.0, λ p. cc)
exits_by_one (panic, h) s = absurd s.holds

module _ (rt : Runtime) (env : Environment) where
  with_envs :
      (e : Envs)
      → (operator_envs env []).0 ≡ ok e
      → Ends
          (λ _ h. IsStarted env h)
          (IsUnstarted rt env)
          (λ _. ⊥)
          (register_all rt e (new_manager ∷ []))
  with_envs e made =
      Ends-register rt env _ _ _ (λ _ _. (refl, inl refl))
        (Ends-register rt env _ _ _ (λ _ _. (refl, inl refl))
          (Ends-register rt env _ _ _ (λ _ _. (refl, inl refl))
            (Ends-register rt env _ _ _ (λ _ _. (refl, inl refl))
              (Ends-register rt env _ _ _ (λ _ _. (refl, inl refl))
                (Ends-last rt env {P = λ _. IsStarted env} start _
                  (λ x refused. (refl, inr ((e, made, refl), (x, _, refused)))) (e, made, refl))))))

  after_envs :
      (r : Result ℕ Envs)
      → (operator_envs env []).0 ≡ r
      → Ends
          (λ _ h. IsStarted env h)
          (IsUnstarted rt env)
          (λ _. ⊥)
          ((settled r >>= register_all rt) (new_manager ∷ []))
  unfolding ◌>>=◌
  after_envs (ok e) made = with_envs e made
  after_envs (err code) made = record {
    holds = ((exits_by_one _ (operator_envs-ttl env [])).0 code made, inl refl);
  }
  after_envs panic made = absurd ((exits_by_one _ (operator_envs-ttl env [])).1 made)

  after_manager :
      (a : HostAnswer (Option (Unit {0})))
      → Ends
          (λ _ h. IsStarted env h)
          (IsUnstarted rt env)
          (λ _. ⊥)
          ((some_manager a >>= λ _. (settled (operator_envs env []).0 >>= register_all rt))
            (new_manager ∷ []))
  unfolding ◌>>=◌
  after_manager (inl _) = record { holds = (refl, inl refl) }
  after_manager (inr none) = record { holds = (refl, inl refl) }
  after_manager (inr (some _)) = after_envs (operator_envs env []).0 refl

  -- The operator is started once and last, after everything was registered in order and with the
  -- Envs of its environment, and returns only where that succeeds. Otherwise it exits with code
  -- 1, and was not asked to start, or failed to. It never panics.
  pub operator_main-IsStarted :
      Ends (λ _ h. IsStarted env h) (IsUnstarted rt env) (λ _. ⊥) (operator_main rt env [])
  unfolding operator_main
  operator_main-IsStarted = Ends-bind-ask _ _ _ [] (after_manager (rt.new_manager_answer []))
