-- ===== src/Controller/Actions/Outcomes.antt =====
-- What the actions leave where they succeed.
use vlanman.Prelude.{
  String, List, [], ◌∷◌, some, ◌⊎◌, inl, inr, ◌≡◌, refl, ◌∙◌, ap, ℕ, zero, suc, eqb, arith, eq_refl,
  Bool-cases,
}
use vlanman.Prelude.Maps.{lookup, or_empty, lookup-insert}
use vlanman.Prelude.Run.{ok, call, wrap, ◌>>=◌}
use vlanman.Prelude.Ends.{
  Ends, Ends-return, Ends-fail, Ends-call, Ends-bind, Ends-lift, Ends-bind-wrap-call,
  Ends-bind-wrap-lift, Ends-bind-attempt-keeps, Ends-bind-ask, Ends-map_error,
}
use vlanman.Errors.{GoError, parsing_error, new_client_request_error}
use vlanman.Kube.{Pod, Job, DaemonSet}
use vlanman.Api.{VlanNetwork, state_up}
use vlanman.Api.ShortState.{update_short_state}
use vlanman.Cluster.{
  Cluster, Event, Envs, update_status, update_daemon_set, delete_daemon_set, delete_service,
}
use vlanman.Controller.Manager.{ManagerSet, daemon_set_from_manager, service_for_manager_set}
use vlanman.Controller.Diff.{VlanNetworkState}
use vlanman.Controller.Actions.{
  with_up, mark_up, await_finished, request_manager_pid, spawn_interface_on, delete_manager_do,
  update_manager_do, after_service, no_daemon_set, or_zero,
}
use vlanman.Controller.Actions.Jobs.{make_job-IsCreated}

module _ (c : Cluster) where
  no_set :
      (env : Envs) (mgr : ManagerSet) (fault : GoError)
      → c.marshal_gateways mgr.gateways ≡ inl fault
      → daemon_set_from_manager c mgr env ≡ inl (parsing_error "ManagerSet pools" fault)
  unfolding daemon_set_from_manager
  no_set env mgr fault unmarshalled = rw (unmarshalled, daemon_set_from_manager) refl

  -- Where the gateways cannot be marshalled, the update of a manager asks the server to update the
  -- DaemonSet without a name, and succeeds if the server accepts that.
  update_manager_do-unmarshalled :
      (env : Envs) (mgr : ManagerSet) (fault : GoError) (h : List Event)
      → c.marshal_gateways mgr.gateways ≡ inl fault
      → c.update_daemon_set_answer no_daemon_set h ≡ inr tt
      → update_manager_do c env mgr h ≡ (ok tt, update_daemon_set no_daemon_set ∷ h)
  unfolding update_manager_do ◌>>=◌
  update_manager_do-unmarshalled env mgr fault h unmarshalled accepted =
      ap
        (λ made.
          wrap (call (update_daemon_set (or_zero made)) (c.update_daemon_set_answer (or_zero made)))
            (new_client_request_error "Update daemonset") h)
        (no_set env mgr fault unmarshalled)
      ∙ cc

  -- The newest event is an accepted write in which the connection of the pod is up.
  abbrev pub IsMarked : String → List Event → Type 0
  IsMarked pod [] = ⊥
  IsMarked pod (e ∷ h) =
      (net : VlanNetwork) × (e ≡ update_status net)
      × (lookup pod (or_empty net.status.state) ≡ some state_up)
      × ((written : VlanNetwork) × (c.update_status_answer net h ≡ inr written))

  marked :
      (pod : String) (vlan : VlanNetwork)
      → lookup pod (or_empty (with_up pod vlan.status).state) ≡ some state_up
  unfolding with_up update_short_state
  marked pod vlan =
      ground (arith, lookup-insert pod pod state_up (or_empty vlan.status.state), eq_refl pod)

  mark_up-IsMarked :
      (network pod : String) (h : List Event)
      → Ends (λ _. IsMarked pod) (λ _ _. Unit) (λ _. ⊥) (mark_up c network pod h)
  unfolding mark_up
  mark_up-IsMarked network pod h =
      Ends-bind-wrap-call _ _ _ _ h (λ _ _. tt)
        (λ vlan _.
          Ends-bind-wrap-call _ _ _ _ _ (λ _ _. tt)
            (λ written e. Ends-return _ _ (_, refl, marked pod vlan, (written, e))))

  request_manager_pid-Ends :
      (ip : String) (h : List Event)
      → Ends (λ _ _. Unit) (λ _ _. Unit) (λ _. ⊥) (request_manager_pid c ip h)
  unfolding request_manager_pid
  request_manager_pid-Ends ip h =
      Ends-bind-wrap-call _ _ _ _ h (λ _ _. tt) (λ resp _. Ends-lift _ _ (λ _ _. tt) (λ _ _. tt))

  await_finished-Ends :
      (left : ℕ) (job : Job) (h : List Event)
      → Ends (λ _ _. Unit) (λ _ _. Unit) (λ _. ⊥) (await_finished c left job h)
  unfolding await_finished
  await_finished-Ends zero job h = Ends-fail _ h tt
  await_finished-Ends (suc left) job h = elim (Bool-cases (eqb job.active 0)) [
    | inl idle ↦ rw idle (Ends-return _ h tt)
    | inr busy ↦ rw busy (
        Ends-bind-ask _ _ _ h
          (Ends-bind-wrap-call _ _ _ _ _ (λ _ _. tt) (λ again _. await_finished-Ends left again _)))
  ]

  -- Where the interface of a pod is made, the last call is a write, accepted by the server, of the
  -- network with the connection of the pod up. The action never panics.
  pub spawn_interface_on-IsMarked :
      (env : Envs) (network : VlanNetworkState) (pod : Pod) (h : List Event)
      → Ends
          (λ _. IsMarked pod.name)
          (λ _ _. Unit)
          (λ _. ⊥)
          (spawn_interface_on c env network pod h)
  unfolding spawn_interface_on
  spawn_interface_on-IsMarked env network pod h =
      Ends-bind (λ _ _. Unit) _ _ h (request_manager_pid-Ends pod.pod_ip h)
        (λ pid h1 _.
          Ends-bind _ _ _ h1 (Ends-map_error (λ _ _ _. tt) (make_job-IsCreated c _ h1))
            (λ made h2 _.
              Ends-bind (λ _ _. Unit) _ _ h2 (await_finished-Ends 31 made h2)
                (λ _ h3 _. mark_up-IsMarked network.name pod.name h3)))

  -- The DaemonSet of the manager was deleted, and then the deletion of its service was asked for.
  abbrev pub IsDeleted : Envs → ManagerSet → List Event → List Event → Type 0
  IsDeleted env mgr h h' =
      (set : DaemonSet) × (daemon_set_from_manager c mgr env ≡ inr set)
      × (c.delete_daemon_set_answer set h ≡ inr tt)
      × (h'
          ≡ delete_service (service_for_manager_set mgr env.namespace_name)
            ∷ delete_daemon_set set
            ∷ h)

  -- Where the deletion of a manager succeeds, it made two calls: the deletion of the manager's
  -- DaemonSet, which the server accepted, and then that of its service. It never panics.
  pub delete_manager_do-IsDeleted :
      (env : Envs) (mgr : ManagerSet) (h : List Event)
      → Ends (λ _. IsDeleted env mgr h) (λ _ _. Unit) (λ _. ⊥) (delete_manager_do c env mgr h)
  unfolding delete_manager_do
  delete_manager_do-IsDeleted env mgr h =
      Ends-bind-wrap-lift _ _ _ h (λ _ _. tt)
        (λ set made.
          Ends-bind-wrap-call _ _ _ _ h (λ _ _. tt)
            (λ _ deleted.
              Ends-bind-attempt-keeps (λ h'. h' ≡ _) _ _ _
                (Ends-call _ _ _ (λ _ _. refl) (λ _ _. refl))
                (λ gone h' at. after set made deleted gone h' at)))
    where
      after :
          (set : DaemonSet)
          → daemon_set_from_manager c mgr env ≡ inr set
          → c.delete_daemon_set_answer set h ≡ inr tt
          → (gone : GoError ⊎ Unit {0}) (h' : List Event)
          → h'
            ≡ delete_service (service_for_manager_set mgr env.namespace_name)
              ∷ delete_daemon_set set
              ∷ h
          → Ends (λ _. IsDeleted env mgr h) (λ _ _. Unit) (λ _. ⊥) (after_service c gone h')
      after set made deleted (inr _) h' at = Ends-return _ h' (set, made, deleted, at)
      after set made deleted (inl e) h' at = elim (Bool-cases (c.is_not_found e)) [
        | inl lost ↦ rw lost (Ends-return _ h' (set, made, deleted, at))
        | inr other ↦ rw other (Ends-fail _ h' tt)
      ]
