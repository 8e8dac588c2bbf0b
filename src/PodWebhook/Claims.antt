-- ===== src/PodWebhook/Claims.antt =====
-- Default does what a request does in the system of requests, pods and updates.
use vlanman.Prelude.{
  String, List, [], ◌∷◌, Option, none, some, false, ◌≡◌, refl, ◌∙◌, sym, ap, inr, inr_injective,
}
use vlanman.Prelude.Maps.{Dict, lookup}
use vlanman.Prelude.Ends.{
  Ends, Ends-any, Ends-return, Ends-fail, Ends-call, Ends-catch, Ends-bind, Ends-bind-ask,
  Ends-bind-wrap-call, Ends-bind-lift, Ends-bind-wrap-lift,
}
use vlanman.Kube.{Pod}
use vlanman.Api.{
  VlanNetwork, pod_vlanman_network_annotation, pod_vlanman_ip_pool_annotation,
  manager_set_label_key,
}
use vlanman.Cluster.{
  Cluster, Event, a_pod, Envs, label_equals, update_status, lock, unlock, now, list_pods,
}
use vlanman.Ipam.{populate_status, pick_address, free_of, pending_of, reserve}
use vlanman.PodWebhook.{
  take_address, allocate, resource, some_pods, manager_pods, default_annotated, default,
}
use vlanman.PodWebhook.Patch.{apply_patch}
use vlanman.Sharing.{System, admit}

module _ (c : Cluster) (env : Envs) (net : VlanNetwork) (s : System) (pod : Pod)
    (network pool : String) where
  -- What the loop over the pool picks.
  abbrev picked : Option String
  picked =
      let status = populate_status s.status (pool ∷ []) in
      pick_address (pending_of status pool) (free_of status pool)

  abbrev admitted : String → Dict String → String → System
  admitted stamp endpoints routes = admit env net s pool stamp pod endpoints routes picked

  -- The locked part returns the address that was picked, and the network that it wrote, where the
  -- address is reserved.
  record IsTaken (result : String × VlanNetwork) (h : List Event) : Type 0 where
    pub stamp : String
    pub taken : picked ≡ some result.0
    pub status :
        result.1
        ≡ record net { status = reserve (populate_status s.status (pool ∷ [])) pool result.0 stamp }
    pub before : List Event
    pub events : h ≡ unlock ∷ update_status result.1 ∷ before

  -- The pod is that of the claim that the request adds, and the status that it leaves was written
  -- before the manager pods were listed, which was the last call.
  pub record IsClaim (made : Pod) (h : List Event) : Type 0 where
    pub ip : String
    pub stamp : String
    pub endpoints : Dict String
    pub routes : String
    pub claims :
        (admitted stamp endpoints routes).claims
        ≡ record { pool = pool; ip = ip; stamp = stamp; pod = made; created = false } ∷ s.claims
    pub before : List Event
    pub events :
        h
        ≡ list_pods (label_equals manager_set_label_key net.name)
          ∷ unlock
          ∷ update_status (record net { status = (admitted stamp endpoints routes).status })
          ∷ before

  manager_pods-lists :
      (found : VlanNetwork) (who : String) (h : List Event)
      → Ends
          (λ _ h'. h' ≡ list_pods (label_equals manager_set_label_key found.name) ∷ h)
          (λ _ _. Unit {0})
          (λ _. Unit {0})
          (manager_pods c found who h)
  unfolding manager_pods
  manager_pods-lists found who h =
      Ends-bind-wrap-lift _ _ _ h (λ _ _. tt)
        (λ _ _. Ends-bind-wrap-call _ _ _ _ h (λ _ _. tt) (λ pods _. found_some pods))
    where
      found_some :
          (pods : List Pod)
          → Ends
              (λ _ h'. h' ≡ list_pods (label_equals manager_set_label_key found.name) ∷ h)
              (λ _ _. Unit {0})
              (λ _. Unit {0})
              (some_pods found who pods
                (list_pods (label_equals manager_set_label_key found.name) ∷ h))
      found_some [] = Ends-fail _ _ tt
      found_some (p ∷ ps) = Ends-return _ _ refl

  module _
      (reads : (h : List Event)
        → c.get_network_answer network h ≡ inr (record net { status = s.status }))
      (accepts : (n : VlanNetwork) (h : List Event) → c.update_status_answer n h ≡ inr n) where
    abbrev current : VlanNetwork
    current = record net { status = s.status }

    take_address-IsTaken :
        (who : String) (h : List Event) (o : Option String)
        → picked ≡ o
        → Ends IsTaken
            (λ _ _. Unit {0})
            (λ _. Unit {0})
            (take_address c pool who current (populate_status s.status (pool ∷ [])) o h)
    unfolding take_address
    take_address-IsTaken who h none none_left = Ends-bind-ask _ _ _ _ (Ends-fail _ _ tt)
    take_address-IsTaken who h (some ip) taken = Ends-bind-ask _ _ _ _ (
        Ends-bind-wrap-call _ _ _ _ _ (λ _ _. tt)
          (λ updated accepted.
            let same = inr_injective (sym accepted ∙ accepts _ _) in
            Ends-bind-ask _ _ _ _ (
              Ends-return _ _ (record {
                stamp = c.format_time (c.now_answer h);
                taken = taken;
                status = same;
                before = now ∷ h;
                events = ap (λ n. unlock ∷ update_status n ∷ now ∷ h) (sym same);
              }))))

    allocate-IsTaken :
        (who : String) (h : List Event)
        → Ends IsTaken (λ _ _. Unit {0}) (λ _. Unit {0}) (allocate c network pool who h)
    unfolding allocate
    allocate-IsTaken who h =
        Ends-bind (λ found _. found ≡ current) _ _ h
          (Ends-catch (λ _ _. Unit {0}) _ _ h
            (Ends-call _ _ h (λ _ _. tt) (λ found eq. inr_injective (sym eq ∙ reads h)))
            (λ e h' _. Ends-bind-ask _ _ _ _ (Ends-fail _ _ tt)))
          (λ found h' eq. rw eq (take_address-IsTaken who h' picked refl))

    made-IsClaim :
        (result : String × VlanNetwork) (h : List Event) (endpoints : Dict String) (routes : String)
        → IsTaken result h
        → IsClaim
            (apply_patch pod result.1 env.worker_init_image env.worker_init_pull_policy result.0
              endpoints routes)
            (list_pods (label_equals manager_set_label_key result.1.name) ∷ h)
    unfolding apply_patch
    made-IsClaim result h endpoints routes t = rw t.status (record {
      ip = result.0;
      stamp = t.stamp;
      endpoints = endpoints;
      routes = routes;
      claims = rw t.taken refl;
      before = t.before;
      events = rw t.taken (
          ap (λ (tail : List Event). list_pods (label_equals manager_set_label_key net.name) ∷ tail)
            (t.events ∙ ap (λ n. unlock ∷ update_status n ∷ t.before) t.status));
    })

    default_annotated-IsClaim :
        (h : List Event)
        → Ends IsClaim
            (λ _ _. Unit {0})
            (λ _. Unit {0})
            (default_annotated c env pod network pool h)
    unfolding default_annotated
    default_annotated-IsClaim h =
        Ends-bind-wrap-call _ _ _ _ h (λ _ _. tt)
          (λ _ _.
            Ends-bind (λ _ _. Unit {0}) _ _ _ (Ends-any _)
              (λ _ h1 _. Ends-bind-ask _ _ _ h1 (
                Ends-bind IsTaken _ _ (lock ∷ h1) (allocate-IsTaken (resource pod) (lock ∷ h1))
                  (λ allocated h2 taken.
                    Ends-bind
                      (λ _ h3.
                        h3 ≡ list_pods (label_equals manager_set_label_key allocated.1.name) ∷ h2)
                      _ _ h2 (manager_pods-lists allocated.1 (resource pod) h2)
                      (λ managers h3 at.
                        Ends-bind-lift _ _ h3 (λ _ _. tt)
                          (λ endpoints _.
                            Ends-bind-wrap-lift _ _ _ h3 (λ _ _. tt)
                              (λ routes _.
                                Ends-return _ h3
                                  (rw at (made-IsClaim allocated h2 endpoints routes taken)))))))))

    -- Where the server answers with the network as the system has it and accepts the write of its
    -- status, and Default succeeds, the request is one of the system: the pod is that of the claim
    -- that it adds, and the status that it leaves was written before the lease was given back and
    -- the manager pods were listed.
    pub default-IsClaim :
        (h : List Event)
        → lookup pod_vlanman_network_annotation pod.annotations ≡ some network
        → lookup pod_vlanman_ip_pool_annotation pod.annotations ≡ some pool
        → Ends IsClaim (λ _ _. Unit {0}) (λ _. Unit {0}) (default c env (a_pod pod) h)
    unfolding default
    default-IsClaim h n p = rw (n, p) (default_annotated-IsClaim h)
