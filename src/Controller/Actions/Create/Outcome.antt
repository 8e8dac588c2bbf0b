-- ===== src/Controller/Actions/Create/Outcome.antt =====
-- What CreateManagerAction leaves where it succeeds, and where it panics.
use vlanman.Prelude.{ℕ, zero, suc, List, [], ◌∷◌, Option, none, some, inl, inr, ◌≡◌, refl}
use vlanman.Prelude.Ends.{
  Ends, Ends-return, Ends-call, Ends-map_error, Ends-wrap, Ends-bind, Ends-bind-wrap-call,
  Ends-bind-wrap-lift, Ends-fail, Ends-bind-attempt-call,
}
use vlanman.Kube.{Pod, DaemonSet}
use vlanman.Cluster.{Cluster, Event, Envs, create_service, create_daemon_set}
use vlanman.Controller.Manager.{ManagerSet, daemon_set_from_manager, service_for_manager_set}
use vlanman.Controller.Actions.{when_some, finished}
use vlanman.Controller.Actions.Create.{start_all, create_manager_do, seen_available}
use vlanman.Controller.Actions.Create.Pods.{
  Ends-after, Ends-after2, AllStarted, start_pods-AllStarted,
}
use vlanman.Controller.Actions.Create.Reads.{
  WasRead, WasRead-Later, Gives, Keeps, AreAll, AreAllIfSome, read_set-IfRead, await_status-IfRead,
  seen_status-WasRead, await_available-WasRead, await_pods-AreAll,
}
use vlanman.Controller.Actions.Create.Later.{
  Later, same, then_event, Failed, left_alone, Later-trans, Later-trans_Failed,
}
use vlanman.Controller.Actions.Create.Safe.{IsNil, IsSafe-IsCareful, IsSafe-lift, IsSafe-wrap}
use vlanman.Controller.Actions.Create.Steps.{
  read_set-IsSafe, await_status-IsSafe, seen_status-IsSafe, await_available-IsSafe,
  seen_available-IsCareful, await_pods-IsSafe,
}

module _ (c : Cluster) (env : Envs) (mgr : ManagerSet) where
  -- The newest event is the creation of the manager's service, which the server accepted, and each of
  -- the pods had its job before it.
  abbrev pub IsServed : List Event → List Pod → List Event → Type 0
  IsServed h pods h' =
      (h1 : List Event) × (h'
        ≡ create_service (service_for_manager_set mgr env.namespace_name) ∷ h1)
      × (c.create_service_answer (service_for_manager_set mgr env.namespace_name) h1 ≡ inr tt)
      × AllStarted c env mgr h h1 pods

  start_all-IsServed :
      (pods : List Pod) (h : List Event)
      → Ends (λ _. IsServed h pods) (λ _. Failed h) (IsNil c) (start_all c env mgr pods h)
  unfolding start_all
  start_all-IsServed pods h =
      Ends-bind _ _ _ h (start_pods-AllStarted c env mgr pods h) (λ _ h1 (started, l).
        Ends-wrap _ _ h1 (
          Ends-call _ _ h1 (λ _ _. left_alone (then_event _ tt l)) (λ _ e. (h1, refl, e, started))))

  -- The DaemonSet was created by the first call, and then each of its pods was served.
  abbrev pub IsCreating : List Event → Option (Unit {0}) → List Event → Type 0
  IsCreating h none h' = Unit
  IsCreating h (some _) h' =
      (wanted : DaemonSet) × (made : DaemonSet) × (set : DaemonSet) × (pods : List Pod) × (h1 : List
        Event)
      × (daemon_set_from_manager c mgr env ≡ inr wanted)
      × (c.create_daemon_set_answer wanted h ≡ inr made)
      × Later (create_daemon_set wanted ∷ h) h1
      × WasRead c (create_daemon_set wanted ∷ h) set h1
      × AreAll c (create_daemon_set wanted ∷ h) mgr.owner_network_name set pods h1
      × IsServed h1 pods h'

  seen_available-WasRead :
      (start : List Event) (polled : DaemonSet × ℕ)
      → Keeps c start
          (Gives c start (λ (p : DaemonSet × ℕ). WasRead c start p.0) polled)
          (WasRead c start)
          (seen_available c mgr.owner_network_name polled)
  seen_available-WasRead start (set, zero) h _ =
      Ends-bind-attempt-call _ _ _ h (λ _ _. Ends-fail _ _ tt)
  seen_available-WasRead start (set, suc left) h given = Ends-return _ h given

  -- Where the creation of a manager succeeds, the server accepted the DaemonSet at the first call;
  -- then a DaemonSet was read, and as many pods were listed by the label of the manager as it wants,
  -- unless it wants none; then, for each of these, there is a job for the pod as it was read with an
  -- address; and by the last call the service of the manager. Where it fails, no call was the delete of
  -- a DaemonSet or of a service, or only the last one, of a DaemonSet. It panics only where its last
  -- calls are a request that was answered with neither an error nor a response, and the pause after it.
  pub create_manager_do-IsCreating :
      (fuel : ℕ) (h : List Event)
      → Ends (IsCreating h) (λ _. Failed h) (IsNil c) (create_manager_do c env fuel mgr h)
  unfolding create_manager_do
  create_manager_do-IsCreating fuel h =
      Ends-bind-wrap-lift _ _ _ h (λ _ _. left_alone same)
        (λ wanted is_wanted.
          Ends-bind-wrap-call _ _ _ _ h (λ _ _. left_alone (then_event _ tt same))
            (λ made is_made.
              Ends-map_error (λ _ _. Later-trans_Failed (then_event _ tt same))
                (let start = create_daemon_set wanted ∷ h in
                  Ends-after2 c (IsSafe-IsCareful c (read_set-IsSafe c _ _)) start
                    (read_set-IfRead c start _ _ start same)
                    (λ first h1 (_, read1).
                      Ends-after2 c (IsSafe-IsCareful c (await_status-IsSafe c _ first)) h1
                        (await_status-IfRead c start _ first h1 read1)
                        (λ waited h2 (_, read2).
                          Ends-after2 c (IsSafe-IsCareful c (seen_status-IsSafe c _ waited)) h2
                            (seen_status-WasRead c start _ waited h2 read2)
                            (λ seen h3 (_, read3).
                              Ends-after2 c (IsSafe-IsCareful c (await_available-IsSafe c _ _ _)) h3
                                (await_available-WasRead c start env _ _ h3 read3)
                                (λ polled h4 (_, read4).
                                  Ends-after2 c (seen_available-IsCareful c _ polled) h4
                                    (seen_available-WasRead start polled h4 read4)
                                    (λ set h5 (_, (read, l5)).
                                      Ends-after c
                                        (IsSafe-IsCareful c (IsSafe-wrap c _ (IsSafe-lift c _))) h5
                                        (λ _ h6 l6.
                                          Ends-after2 c
                                            (IsSafe-IsCareful c (await_pods-IsSafe c _ _ fuel []))
                                            h6
                                            (await_pods-AreAll c start set _ fuel [] h6
                                              (inl refl, Later-trans l5 l6))
                                            (λ pods h7 (l7, (full, l)).
                                              last wanted made set pods h7 is_wanted is_made l
                                                (WasRead-Later c start (Later-trans l6 l7) read)
                                                full))))))))))
    where
      last :
          (wanted made set : DaemonSet) (pods : Option (List Pod)) (h1 : List Event)
          → daemon_set_from_manager c mgr env ≡ inr wanted
          → c.create_daemon_set_answer wanted h ≡ inr made
          → Later (create_daemon_set wanted ∷ h) h1
          → WasRead c (create_daemon_set wanted ∷ h) set h1
          → AreAllIfSome c (create_daemon_set wanted ∷ h) mgr.owner_network_name set pods h1
          → Ends
              (IsCreating h)
              (λ _. Failed h1)
              (IsNil c)
              (when_some pods (λ pods. finished (start_all c env mgr pods)) h1)
      last wanted made set none h1 e1 e2 l read full = Ends-return _ h1 tt
      last wanted made set (some pods) h1 e1 e2 l read full =
          Ends-bind _ _ _ h1 (start_all-IsServed pods h1) (λ _ h2 served.
            Ends-return _ h2 (wanted, made, set, pods, h1, e1, e2, l, read, full, served))
