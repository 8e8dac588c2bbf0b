-- ===== src/Controller/Actions/Create/Pods.antt =====
-- What CreateManagerAction does to the pods of a manager.
use vlanman.Prelude.{ℕ, zero, suc, ℤ, List, [], ◌∷◌, inl, inr, ◌≡◌, false, ◌==◌, Bool-cases}
use vlanman.Prelude.Run.{◌>>=◌}
use vlanman.Prelude.Ends.{
  Ends, Ends-return, Ends-fail, Ends-bind, Ends-bind-wrap-call, Ends-map_error, Ends-map_value,
  Ends-both,
}
use vlanman.Kube.{Pod, Job}
use vlanman.Cluster.{Cluster, Event, Envs, Operator}
use vlanman.Controller.Manager.{ManagerSet}
use vlanman.Controller.Interface.{interface_from_daemon}
use vlanman.Controller.Actions.{make_job}
use vlanman.Controller.Actions.Jobs.{IsCreated, make_job-IsCreated}
use vlanman.Controller.Actions.Create.{pod_key, await_pod_ip, pod_or_timeout, start_pod, start_pods}
use vlanman.Controller.Actions.Create.Later.{Later, same, Later-trans, Failed, Later-trans_Failed}
use vlanman.Controller.Actions.Create.Safe.{
  IsNil, IsCareful, IsSafe-IsCareful, IsSafe-call, IsSafe-lift, IsSafe-wrap, IsSafe-bind,
}
use vlanman.Controller.Actions.Create.Steps.{
  await_pod_ip-IsSafe, pod_or_timeout-IsSafe, await_ready-IsSafe, note_up-IsSafe,
  request_manager_pid-IsSafe, make_job-IsSafe,
}

module _ (c : Cluster) where
  -- Goes on from a run that is careful.
  pub Ends-after :
      {A B : Type 0} {P : B → List Event → Type 0} {m : Operator A} {f : A → Operator B}
      → IsCareful c m
      → (h : List Event)
      → ((a : A) (h1 : List Event) → Later h h1 → Ends P (λ _. Failed h1) (IsNil c) (f a h1))
      → Ends P (λ _. Failed h) (IsNil c) ((m >>= f) h)
  Ends-after {m} {f} s h t =
      Ends-bind (λ _. Later h) m f h (s h)
        (λ a h1 l. Ends-map_error (λ _ _. Later-trans_Failed l) (t a h1 l))

  pub Ends-after2 :
      {A B : Type 0} {P : B → List Event → Type 0} {Q : A → List Event → Type 0} {m : Operator A}
      {f : A → Operator B}
      → IsCareful c m
      → (h : List Event) → Ends Q (λ _ _. Unit {0}) (λ _. Unit {0}) (m h)
      → ((a : A) (h1 : List Event)
          → Later h h1 × Q a h1
          → Ends P (λ _. Failed h1) (IsNil c) (f a h1))
      → Ends P (λ _. Failed h) (IsNil c) ((m >>= f) h)
  Ends-after2 {Q} {m} {f} s h q t =
      Ends-bind (λ a h1. Later h h1 × Q a h1) m f h (Ends-both (s h) q)
        (λ a h1 (l, q). Ends-map_error (λ _ _. Later-trans_Failed l) (t a h1 (l, q)))

  -- The pod itself, or what a read of it answered, by the name that it had before.
  pub data IsRead (pod : Pod) : Pod → Type 0 where
    unread : IsRead pod pod
    read_again :
        {old new : Pod} {h : List Event}
        → IsRead pod old
        → c.get_pod_answer (pod_key old) h ≡ inr new
        → IsRead pod new

  abbrev IsAwaited : Pod → Pod × ℕ → Type 0
  IsAwaited pod (ready, zero) = Unit
  IsAwaited pod (ready, suc left) = IsRead pod ready × ((ready.pod_ip == "") ≡ false)

  await_pod_ip-IsAwaited :
      (pod again : Pod) (left : ℕ) (h : List Event)
      → IsRead pod again
      → Ends
          (λ r _. IsAwaited pod r)
          (λ _ _. Unit {0})
          (λ _. Unit {0})
          (await_pod_ip c left again h)
  unfolding await_pod_ip
  await_pod_ip-IsAwaited pod again zero h r = Ends-return _ h tt
  await_pod_ip-IsAwaited pod again (suc left) h r = elim (Bool-cases (again.pod_ip == "")) [
    | inl empty ↦ rw empty (
        Ends-bind-wrap-call _ _ _ _ h (λ _ _. tt)
          (λ next e. await_pod_ip-IsAwaited pod next left _ (read_again r e)))
    | inr given ↦ rw given (Ends-return _ h (r, given))
  ]

  pod_or_timeout-IsRead :
      (pod : Pod) (r : Pod × ℕ) (h : List Event)
      → IsAwaited pod r
      → Ends
          (λ ready _. IsRead pod ready × ((ready.pod_ip == "") ≡ false))
          (λ _ _. Unit {0})
          (λ _. Unit {0})
          (pod_or_timeout c r h)
  pod_or_timeout-IsRead pod (ready, zero) h a = Ends-fail _ h tt
  pod_or_timeout-IsRead pod (ready, suc left) h a = Ends-return ready h a

  module _ (env : Envs) (mgr : ManagerSet) where
    -- The job that makes the interface for a manager pod.
    abbrev job_for : Pod → ℤ → Job
    job_for pod pid =
        interface_from_daemon pod pid mgr.vlan_id env.ttl env.interface_pod_image
          mgr.owner_network_name env.interface_pod_pull_policy mgr.mappings false

    -- Since `h` the server accepted the creation of that job, for the pod as it was read last.
    abbrev IsStarted : List Event → List Event → Pod → Type 0
    IsStarted h h' pod =
        (ready : Pod) × (pid : ℤ) × (h1 : List Event) × IsRead pod ready
        × ((ready.pod_ip == "") ≡ false)
        × Later h h1
        × IsCreated c (job_for ready pid) h1
        × Later h1 h'

    make_job-IsMade :
        (ready : Pod) (pid : ℤ) (h : List Event)
        → Ends
            (λ _ h'. IsCreated c (job_for ready pid) h' × Later h h')
            (λ _. Failed h)
            (IsNil c)
            (make_job c (job_for ready pid) h)
    make_job-IsMade ready pid h =
        Ends-map_value (λ _ _ (l, made). (made, l))
          (Ends-both (IsSafe-IsCareful c (make_job-IsSafe c (job_for ready pid)) h)
            (Ends-map_value (λ _ _ (made, _). made) (make_job-IsCreated c (job_for ready pid) h)))

    start_pod-IsStarted :
        (pod : Pod) (h : List Event)
        → Ends
            (λ _ h'. IsStarted h h' pod × Later h h')
            (λ _. Failed h)
            (IsNil c)
            (start_pod c env mgr pod h)
    unfolding start_pod
    start_pod-IsStarted pod h =
        Ends-after2 (IsSafe-IsCareful c (await_pod_ip-IsSafe c _ pod)) h
          (await_pod_ip-IsAwaited pod pod _ h unread)
          (λ waited h1 (l1, awaited).
            Ends-after2 (IsSafe-IsCareful c (pod_or_timeout-IsSafe c waited)) h1
              (pod_or_timeout-IsRead pod waited h1 awaited)
              (λ ready h2 (l2, (read, addressed)).
                Ends-after (IsSafe-IsCareful c (request_manager_pid-IsSafe c _)) h2 (λ pid h3 l3.
                  Ends-bind (λ _ h4. IsCreated c (job_for ready pid) h4 × Later h3 h4) _ _ h3
                    (make_job-IsMade ready pid h3)
                    (λ _ h4 (made, l4).
                      Ends-map_error (λ _ _. Later-trans_Failed l4)
                        (let before = Later-trans l1 (Later-trans l2 (Later-trans l3 l4)) in
                          Ends-map_value
                            (λ _ h5 l5. (
                              (ready, pid, h4, read, addressed, before, made, l5),
                              Later-trans before l5,
                            ))
                            (IsSafe-IsCareful c
                              (IsSafe-bind c (IsSafe-wrap c _ (IsSafe-call c _ _ tt)) (λ answer.
                                IsSafe-bind c (IsSafe-lift c _) (λ first.
                                  IsSafe-bind c (await_ready-IsSafe c _ 31 first)
                                    (λ _. note_up-IsSafe c _ _))))
                              h4))))))

    abbrev pub AllStarted : List Event → List Event → List Pod → Type 0
    AllStarted h h' [] = Unit
    AllStarted h h' (pod ∷ pods) = IsStarted h h' pod × AllStarted h h' pods

    AllStarted-earlier :
        (pods : List Pod) (h h1 h' : List Event)
        → Later h h1
        → AllStarted h1 h' pods
        → AllStarted h h' pods
    AllStarted-earlier [] h h1 h' l s = tt
    AllStarted-earlier (pod ∷ pods) h h1 h' l
          ((ready, pid, h2, read, addressed, before, made, after), s) =
        (
          (ready, pid, h2, read, addressed, Later-trans l before, made, after),
          AllStarted-earlier pods h h1 h' l s,
        )

    pub start_pods-AllStarted :
        (pods : List Pod) (h : List Event)
        → Ends
            (λ _ h'. AllStarted h h' pods × Later h h')
            (λ _. Failed h)
            (IsNil c)
            (start_pods c env mgr pods h)
    unfolding start_pods
    start_pods-AllStarted [] h = Ends-return _ h (tt, same)
    start_pods-AllStarted (pod ∷ pods) h =
        Ends-bind _ _ _ h (start_pod-IsStarted pod h)
          (λ _ h1 ((ready, pid, h2, read, addressed, before, made, after), l).
            Ends-map_value
              (λ _ h3 (others, l3). (
                (
                  (ready, pid, h2, read, addressed, before, made, Later-trans after l3),
                  AllStarted-earlier pods h h1 h3 l others,
                ),
                Later-trans l l3,
              ))
              (Ends-map_error (λ _ _. Later-trans_Failed l) (start_pods-AllStarted pods h1)))
