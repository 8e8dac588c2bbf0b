-- ===== src/Controller/Status/Shared.antt =====
-- An update of a status does what an update does in the system of requests, pods and updates.
use vlanman.Prelude.{
  ℤ, String, List, ◌∷◌, Option, some, ◌≡◌, refl, ◌∙◌, sym, ap, inr, inr_injective, any, contains,
  contains-append, map, [], eq_iff, arith, ◌||◌, ◌==◌,
}
use vlanman.Prelude.Ends.{
  Ends, Ends-return, Ends-bind-ask, Ends-bind-attempt-call, Ends-bind-wrap-call,
  Ends-bind-wrap-lift,
}
use vlanman.Kube.{Pod}
use vlanman.Api.{VlanNetwork, worker_pod_label_key}
use vlanman.Cluster.{Cluster, Event, Envs, label_equals, in_namespace, list_pods, now_each}
use vlanman.Controller.Status.{update_network_status, names_of, or_none}
use vlanman.Sharing.{System, write}

module _ (c : Cluster) (env : Envs) (net : VlanNetwork) (s : System) (pods : List Pod) where
  abbrev workers_listed : List Event → List Event
  workers_listed h = list_pods (label_equals worker_pod_label_key net.name) ∷ h

  abbrev all_listed : List Event → List Event
  all_listed h = list_pods (in_namespace env.namespace_name) ∷ h

  -- The network has the status that the system has after an update that is accepted, with the time
  -- as the clock tells it after both lists, and the names of the pods in the namespace of the operator,
  -- if they could be listed, and an empty one if there are any. These were listed first, and then the
  -- worker pods.
  pub record IsUpdated (before : List Event) (result : VlanNetwork × Option ℤ) (h : List Event)
      : Type 0 where
    pub managers : List String
    pub named :
        (name : String)
        → contains managers name
          ≡ any
              (λ pod. name == "" || name == pod.name)
              (or_none (c.list_pods_answer (in_namespace env.namespace_name) before))
    pub status : result.0 ≡ record net {
      status =
          (write c.parse_time net s managers
            (c.now_each_answer (workers_listed (all_listed before)))
            (some pods)).status;
    }
    pub events : h ≡ now_each ∷ workers_listed (all_listed before)

  names_of-named :
      (pods : List Pod) (name : String)
      → contains (names_of pods) name ≡ any (λ pod. name == "" || name == pod.name) pods
  unfolding names_of
  names_of-named pods name =
      contains-append (map (λ _. "") pods) (map (λ (pod : Pod). pod.name) pods) name ∙ go pods
    where
      go :
          (pods : List Pod)
          → (contains (map (λ _. "") pods) name
              || contains (map (λ (pod : Pod). pod.name) pods) name)
            ≡ any (λ pod. name == "" || name == pod.name) pods
      go [] = refl
      go (pod ∷ pods) = ground (
        arith,
        go pods,
        eq_iff name "",
        eq_iff "" name,
        eq_iff name pod.name,
        eq_iff pod.name name,
      )

  -- Where the server answers with the pods that the system has listed, an update of the network as
  -- the system has it, if it succeeds, computes the status that the system has after its write,
  -- with the time as the clock tells it after both lists, and with the names of the pods that the
  -- first list has; it makes no call but these.
  pub update_network_status-IsUpdated :
      (h : List Event)
      → ((h' : List Event)
          → c.list_pods_answer (label_equals worker_pod_label_key net.name) h' ≡ inr pods)
      → Ends
          (IsUpdated h)
          (λ _ _. Unit {0})
          (λ _. ⊥)
          (update_network_status c env (record net { status = s.status }) h)
  unfolding update_network_status
  update_network_status-IsUpdated h answers = Ends-bind-attempt-call _ _ _ h (λ daemons listed.
      Ends-bind-wrap-lift _ _ _ _ (λ _ _. tt)
        (λ _ _.
          Ends-bind-wrap-call _ _ _ _ _ (λ _ _. tt)
            (λ found eq. Ends-bind-ask _ _ _ _ (
              Ends-return _ _ (record {
                managers = names_of (or_none daemons);
                named = λ name. rw listed (names_of-named (or_none daemons) name);
                status =
                    ap
                      (λ (seen : List Pod). record net {
                        status =
                            (write c.parse_time net s (names_of (or_none daemons))
                              (c.now_each_answer (workers_listed (all_listed h)))
                              (some seen)).status;
                      })
                      (inr_injective (sym eq ∙ answers (all_listed h)));
                events = refl;
              })))))
