-- ===== src/Cmd/Manager/Main/Started.antt =====
-- What the goroutine of main has done before it serves.
use vlanman.Prelude.{
  ℕ, List, [], ◌∷◌, inl, inr, inl_ne_inr, Bool, true, false, ◌≡◌, refl, any, if◌then◌else◌,
}
use vlanman.Prelude.Run.{Run, Result, ok, err, panic, return, ◌>>=◌}
use vlanman.Prelude.Ends.{
  Ends, Ends-return, Ends-fail, Ends-call, Ends-bind, Ends-bind-ask, Ends-map_error, Ends-weaken,
}
use vlanman.Errors.{GoError}
use vlanman.Host.{
  Host, HostAnswer, HostEvent, Program, Environment, exit, proc_fs, net_dev, in_cluster_config,
  new_client, interface_setup_begun, register_collector, listen,
}
use vlanman.Host.Exits.{Ends-bind-parsed, Ends-bind-or_exit}
use vlanman.Cmd.Manager.{get_envs}
use vlanman.Cmd.Manager.Collector.{Monitor}
use vlanman.Cmd.Manager.Main.{
  Boot, server_addr, create_k8s_client, test_proc_fs, handled, or_panic, manager_main,
}

abbrev is_listen : HostEvent → Bool
is_listen (listen _) = true
is_listen _ = false

-- Whether the daemon was asked to listen.
abbrev pub listened : List HostEvent → Bool
listened h = any is_listen h

abbrev Quiet : List HostEvent → {A : Type 0} → A → List HostEvent → Type 0
Quiet h a h' = h' ≡ h

abbrev IsExit : List HostEvent → ℕ → List HostEvent → Type 0
IsExit h code h' = (code ≡ 1) × (h' ≡ h)

if_exit :
    {A : Type 0} (b : Bool) (a : A) (h : List HostEvent)
    → Ends (λ _ h'. h' ≡ h) (IsExit h) (λ _. ⊥) ((if b then exit 1 else return a) h)
if_exit true a h = Ends-fail _ _ (refl, refl)
if_exit false a h = Ends-return _ _ refl

-- The environment is read without a call.
get_envs-IsExit :
    (host : Host) (env : Environment) (h : List HostEvent)
    → Ends (λ _ h'. h' ≡ h) (IsExit h) (λ _. ⊥) (get_envs host env h)
unfolding get_envs
get_envs-IsExit host env h =
    Ends-bind (λ _ h'. h' ≡ h) _ _ h (if_exit _ _ h)
      (λ owner h1 e1. rw e1 (
        Ends-bind (λ _ h'. h' ≡ h) _ _ h (if_exit _ _ h)
          (λ text h2 e2. rw e2 (
            Ends-bind-parsed _ _ h (refl, refl)
              (λ i _.
                Ends-bind (λ _ h'. h' ≡ h) _ _ h (if_exit _ _ h)
                  (λ id h3 e3. rw e3 (
                    Ends-bind-or_exit _ _ h (refl, refl) (λ gateways _. Ends-return _ _ refl))))))))

module _ {B : Type 0} {P : B → List HostEvent → Type 0} {F : ℕ → List HostEvent → Type 0}
    {C : List HostEvent → Type 0} where
  Ends-bind-handled :
      (Q : Unit {0} → List HostEvent → Type 0) (G : GoError → List HostEvent → Type 0)
      (m : Run HostEvent GoError (Unit {0})) (f : HostAnswer (Unit {0}) → Program B)
      (h : List HostEvent)
      → Ends Q G (λ _. ⊥) (m h)
      → ((e : GoError) (h' : List HostEvent) → G e h' → Ends P F C (f (inl e) h'))
      → ((h' : List HostEvent) → Q tt h' → Ends P F C (f (inr tt) h'))
      → Ends P F C ((handled m >>= f) h)
  unfolding ◌>>=◌
  Ends-bind-handled Q G m f h s b k = go (m h) s
    where
      go :
          (out : Result GoError (Unit {0}) × List HostEvent)
          → Ends Q G (λ _. ⊥) out
          → Ends P F C ((handled (λ _. out) >>= f) h)
      go (ok _, h') s = k h' s.holds
      go (err e, h') s = b e h' s.holds
      go (panic, h') s = absurd s.holds

  Ends-bind-or_panic :
      (a : HostAnswer (Unit {0})) (f : Unit {0} → Program B) (h : List HostEvent)
      → C h
      → ((x : Unit {0}) → a ≡ inr x → Ends P F C (f tt h))
      → Ends P F C ((or_panic a >>= f) h)
  unfolding ◌>>=◌
  Ends-bind-or_panic (inl e) f h c s = record { holds = c }
  Ends-bind-or_panic (inr x) f h c s = s x refl

-- The calls before the environment is read, and those of main in their order.
abbrev with_client : List HostEvent
with_client = new_client ∷ in_cluster_config ∷ []

abbrev with_proc : List HostEvent
with_proc = net_dev ∷ proc_fs ∷ interface_setup_begun ∷ with_client

abbrev pub HasListened : List HostEvent → Type 0
HasListened h = h ≡ listen server_addr ∷ register_collector ∷ with_proc

module _ (host : Host) (mon : Monitor) (boot : Boot) (env : Environment) where
  create_k8s_client-Ends :
      Ends
        (λ _ h'. h' ≡ with_client)
        (λ _ h'. listened h' ≡ false)
        (λ _. ⊥)
        (create_k8s_client boot [])
  unfolding create_k8s_client
  create_k8s_client-Ends =
      Ends-bind (λ _ h'. h' ≡ in_cluster_config ∷ []) _ _ []
        (Ends-call _ _ [] (λ _ _. refl) (λ _ _. refl))
        (λ _ h1 e. rw e (Ends-call _ _ _ (λ _ _. refl) (λ _ _. refl)))

  test_proc_fs-Ends :
      Ends
        (λ _ h'. h' ≡ with_proc)
        (λ _ h'. listened h' ≡ false)
        (λ _. ⊥)
        (test_proc_fs mon (interface_setup_begun ∷ with_client))
  unfolding test_proc_fs
  test_proc_fs-Ends =
      Ends-bind (λ _ h'. h' ≡ proc_fs ∷ interface_setup_begun ∷ with_client) _ _ _
        (Ends-call _ _ _ (λ _ _. refl) (λ _ _. refl))
        (λ _ h1 e. rw e (
          Ends-bind (λ _ h'. h' ≡ with_proc) _ _ _ (Ends-call _ _ _ (λ _ _. refl) (λ _ _. refl))
            (λ _ h2 e2. Ends-return _ _ e2)))

  -- The goroutine of main returns only after it asked to listen, which is the last of its calls: before
  -- that, in this order, its client was made, the goroutine of interfaceSetup begun, /proc read, and
  -- the collector registered. By itself it exits only with code 1, and exits or panics only before it
  -- listens; the goroutine of interfaceSetup, which may end the program at any time, is not part of it.
  pub manager_main-HasListened :
      Ends
        (λ _. HasListened)
        (λ code h'. (code ≡ 1) × (listened h' ≡ false))
        (λ h'. listened h' ≡ false)
        (manager_main host mon boot env [])
  unfolding manager_main
  manager_main-HasListened =
      Ends-bind-handled _ _ _ _ [] create_k8s_client-Ends
        (λ e h1 quiet. Ends-bind-or_panic (inl e) _ h1 quiet (λ x no. absurd (inl_ne_inr no)))
        (λ h1 e1. rw e1 (
          Ends-bind-or_panic (inr tt) _ with_client refl (λ _ _.
            Ends-bind (λ _ h'. h' ≡ with_client) _ _ with_client
              (Ends-map_error (λ code h' (one, at). (one, rw at refl))
                (Ends-weaken (λ _. absurd) (get_envs-IsExit host env with_client)))
              (λ envs h2 e2. rw e2 (
                Ends-bind-ask _ _ _ with_client (
                  Ends-bind-handled _ _ _ _ _ test_proc_fs-Ends
                    (λ e h3 quiet.
                      Ends-bind-or_exit {X = GoError} (inl e) _ h3 (refl, quiet)
                        (λ a no. absurd (inl_ne_inr no)))
                    (λ h3 e3. rw e3 (
                      Ends-bind-or_exit {X = GoError} (inr tt) _ with_proc (refl, refl)
                        (λ _ _. Ends-bind-ask _ _ _ with_proc (
                          Ends-bind-or_panic _ _ _ refl
                            (λ _ _. Ends-bind-ask _ _ _ _ (Ends-return _ _ refl))))))))))))
