-- ===== src/Controller/Reconcile/Network/Ran.antt =====
-- The actions of a reconciliation as a sequence of steps: each is done, whatever became of those
-- before it.
use vlanman.Prelude.{ℕ, ℤ, List, [], ◌∷◌, Option, none, some, ◌⊎◌, inl, inr, ◌≡◌, refl, subst}
use vlanman.Prelude.Run.{Result, ok, err, panic, return, fail, crash, attempt, ◌>>=◌}
use vlanman.Prelude.Ends.{
  Ends, Ends-return, Ends-fail, Ends-crash, Ends-bind, Ends-bind-wrap-call, Ends-bind-wrap-lift,
  Ends-map_value, Ends-map_error, Ends-no_error, Ends-known,
}
use vlanman.Errors.{GoError, Errors, nil, cons, reconcile_error_list}
use vlanman.Kube.{DaemonSet}
use vlanman.Api.{VlanNetwork, manager_set_label_key}
use vlanman.Cluster.{Cluster, Event, Operator, Envs, label_exists, list_networks, list_daemon_sets}
use vlanman.Controller.Manager.{ManagerSet, manager_from_set}
use vlanman.Controller.Diff.{VlanNetworkState, Action, get_current_state, managers_of}
use vlanman.Controller.Reconcile.Network.{
  do_action, noted, after_action, run_actions, report, needed, reconcile_network,
}

module _ (c : Cluster) (env : Envs) (fuel : ℕ) where
  -- A run of the actions: the errors in their order, `none` where the fuel of an action ran out.
  pub data Ran : List Action → List Event → Option Errors → List Event → Type 0 where
    stops : {h : List Event} → Ran [] h (some nil) h
    does :
        {action : Action} {actions : List Action} {h h1 h2 : List Event} {out : Option Errors}
        → do_action c env fuel action h ≡ (ok (some tt), h1)
        → Ran actions h1 out h2
        → Ran (action ∷ actions) h out h2
    fails :
        {action : Action} {actions : List Action} {h h1 h2 : List Event} {out : Option Errors}
        {e : GoError}
        → do_action c env fuel action h ≡ (err e, h1)
        → Ran actions h1 out h2
        → Ran (action ∷ actions) h (noted action e out) h2
    starves :
        {action : Action} {actions : List Action} {h h1 : List Event}
        → do_action c env fuel action h ≡ (ok none, h1)
        → Ran (action ∷ actions) h none h1

  run_actions-Ran :
      (actions : List Action) (h : List Event)
      → Ends (Ran actions h) (λ _ _. ⊥) (λ _. Unit) (run_actions c env fuel actions h)
  unfolding run_actions ◌>>=◌
  run_actions-Ran [] h = Ends-return _ h stops
  run_actions-Ran (action ∷ actions) h =
      go (do_action c env fuel action h) refl (run_actions-Ran actions)
    where
      go :
          (out : Result GoError (Option (Unit {0})) × List Event)
          → do_action c env fuel action h ≡ out
          → ((h1 : List Event)
              → Ends (Ran actions h1) (λ _ _. ⊥) (λ _. Unit) (run_actions c env fuel actions h1))
          → Ends
              (Ran (action ∷ actions) h)
              (λ _ _. ⊥)
              (λ _. Unit)
              ((attempt (λ _. out)
                  >>= after_action c env fuel action (run_actions c env fuel actions))
                h)
      go (ok (some _), h1) e rest = Ends-map_value (λ out h2 ran. does e ran) (rest h1)
      go (ok none, h1) e rest = Ends-return _ h1 (starves e)
      go (err fault, h1) e rest =
          Ends-bind (Ran actions h1) (run_actions c env fuel actions)
            (λ later. return (noted action fault later)) h1 (rest h1)
            (λ out h2 ran. Ends-return _ h2 (fails e ran))
      go (panic, h1) e rest = record { holds = tt }

  -- A reconciliation that fails before its first action has asked only for the lists.
  abbrev IsUnstarted : List Event → List Event → Type 0
  IsUnstarted h h' =
      (h' ≡ list_networks ∷ h)
      ⊎ (h' ≡ list_networks ∷ list_networks ∷ h)
      ⊎ (h'
          ≡ list_daemon_sets (label_exists manager_set_label_key)
            ∷ list_networks
            ∷ list_networks
            ∷ h)

  -- The two states were read, and the actions that their difference needs were run from there on.
  abbrev AllRan : List Event → Option Errors → List Event → Type 0
  AllRan h out h' =
      (networks : List VlanNetwork) × (current : List ManagerSet × List VlanNetworkState)
      × (c.list_networks_answer h ≡ inr networks)
      × (get_current_state c (list_networks ∷ h) ≡ (
        ok current,
        list_daemon_sets (label_exists manager_set_label_key) ∷ list_networks ∷ list_networks ∷ h,
      ))
      × Ran (needed c env fuel networks current)
          (list_daemon_sets (label_exists manager_set_label_key)
            ∷ list_networks
            ∷ list_networks
            ∷ h)
          out h'

  abbrev pub IsSettled : List Event → Option (Option ℤ) → List Event → Type 0
  IsSettled h none h' = AllRan h none h'
  IsSettled h (some rq) h' = (rq ≡ none) × AllRan h (some nil) h'

  abbrev pub IsFaulty : List Event → GoError → List Event → Type 0
  IsFaulty h e h' =
      IsUnstarted h h'
      ⊎ ((first : GoError) × (others : Errors) × (e ≡ reconcile_error_list (cons first others))
          × AllRan h (some (cons first others)) h')

  managers_of-Ends :
      (sets : List DaemonSet) (h : List Event)
      → Ends (λ _ h'. h' ≡ h) (λ _ h'. h' ≡ h) (λ _. Unit) (managers_of c sets h)
  unfolding managers_of
  managers_of-Ends [] h = Ends-return _ h refl
  managers_of-Ends (m ∷ sets) h = go (manager_from_set c m) (managers_of-Ends sets h)
    where
      go :
          (made : Result GoError ManagerSet)
          → Ends (λ _ h'. h' ≡ h) (λ _ h'. h' ≡ h) (λ _. Unit {0}) (managers_of c sets h)
          → Ends
              (λ _ h'. h' ≡ h)
              (λ _ h'. h' ≡ h)
              (λ _. Unit {0})
              (elim made as (λ _. Operator (List ManagerSet)) [
                | ok manager ↦ (do others ← managers_of c sets; return (manager ∷ others))
                | err e ↦ fail e
                | panic ↦ crash
              ]
                h)
      go (ok manager) s = Ends-bind (λ _ h'. h' ≡ h) _ _ h s (λ others h1 e. Ends-return _ h1 e)
      go (err e) s = Ends-fail _ h refl
      go panic s = Ends-crash h tt

  get_current_state-Ends :
      (h : List Event)
      → Ends
          (λ _ h'. h' ≡ list_daemon_sets (label_exists manager_set_label_key) ∷ list_networks ∷ h)
          (λ _ h'.
            (h' ≡ list_networks ∷ h)
            ⊎ (h' ≡ list_daemon_sets (label_exists manager_set_label_key) ∷ list_networks ∷ h))
          (λ _. Unit)
          (get_current_state c h)
  unfolding get_current_state
  get_current_state-Ends h =
      Ends-bind-wrap-call _ _ _ _ h (λ _ _. inl refl)
        (λ vlans _.
          Ends-bind-wrap-lift _ _ _ _ (λ _ _. inl refl)
            (λ _ _.
              Ends-bind-wrap-call _ _ _ _ _ (λ _ _. inr refl)
                (λ sets _.
                  Ends-bind (λ _ h'. h' ≡ _) _ _ _
                    (Ends-map_error (λ _ _ e. inr e) (managers_of-Ends sets _))
                    (λ mgrs h1 e. Ends-return _ h1 e))))

  report-Ends :
      (h h' : List Event) (out : Option Errors)
      → AllRan h out h'
      → Ends (IsSettled h) (IsFaulty h) (λ _. Unit) (report c env fuel out h')
  report-Ends h h' none ran = Ends-return _ h' ran
  report-Ends h h' (some nil) ran = Ends-return _ h' (refl, ran)
  report-Ends h h' (some (cons e es)) ran = Ends-fail _ h' (inr (e, es, refl, ran))

  -- However a reconciliation of the networks ends but in a panic: it failed before its first
  -- action, with no call but for the lists; or every action that the difference of the two states,
  -- as they were read, asks for was done in order, whatever became of those before it, and it fails
  -- with the list of their errors where there is one, and else asks for no requeue. Where the fuel
  -- of an action runs out, it ends with that action.
  pub reconcile_network-Ends :
      (h : List Event)
      → Ends (IsSettled h) (IsFaulty h) (λ _. Unit) (reconcile_network c env fuel h)
  unfolding reconcile_network
  reconcile_network-Ends h =
      Ends-bind-wrap-call _ _ _ _ h (λ _ _. inl (inl refl))
        (λ networks listed.
          Ends-bind _ _ _ _ (Ends-known (Ends-map_error unstarted (get_current_state-Ends _)))
            (λ current h2 (read, e).
              Ends-bind (AllRan h) _ _ h2
                (Ends-map_value
                  (λ out h3 ran. (
                    networks,
                    current,
                    listed,
                    subst (λ h4. get_current_state c (list_networks ∷ h) ≡ (ok current, h4)) e read,
                    subst (λ h4. Ran (needed c env fuel networks current) h4 out h3) e ran,
                  ))
                  (Ends-no_error (run_actions-Ran _ h2)))
                (λ out h3 ran. report-Ends h h3 out ran)))
    where
      unstarted :
          (e : GoError) (h' : List Event)
          → (h' ≡ list_networks ∷ list_networks ∷ h)
            ⊎ (h'
                ≡ list_daemon_sets (label_exists manager_set_label_key)
                  ∷ list_networks
                  ∷ list_networks
                  ∷ h)
          → IsFaulty h e h'
      unstarted e h' (inl p) = inl (inr (inl p))
      unstarted e h' (inr p) = inl (inr (inr p))
