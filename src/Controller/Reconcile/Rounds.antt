-- ===== src/Controller/Reconcile/Rounds.antt =====
-- How often a reconciliation updates the status of the networks.
use vlanman.Prelude.{
  ℕ, zero, suc, ◌+◌, ◌≤◌, ℤ, List, [], ◌∷◌, Option, none, some, ◌⊎◌, inl, inr, Bool, true, false,
  ◌==◌, ◌≡◌, ap, arith, Bool-cases, if◌then◌else◌,
}
use vlanman.Prelude.Run.{ok, return, ◌>>=◌}
use vlanman.Prelude.Ends.{
  Ends, Ends-return, Ends-fail, Ends-call, Ends-bind, Ends-bind-attempt, Ends-bind-wrap-call,
  Ends-bind-wrap-lift, Ends-bind-ask, Ends-bind-attempt-keeps, Ends-no_error, Ends-map_error,
  Ends-catch,
}
use vlanman.Errors.{GoError, new_client_request_error}
use vlanman.Api.{VlanNetwork}
use vlanman.Cluster.{Cluster, Event, Operator, Envs, list_networks}
use vlanman.Controller.Status.{
  StatusOutcome, update_all_network_status, update_each, update_network_status, after_refresh,
}
use vlanman.Controller.Reconcile.{
  retry_status, settle_status, ensure_pod_monitor, after_pod, reconcile_pod,
}
use vlanman.Kube.{Pod, NamespacedName}

-- The updates that were begun: each lists the networks once.
unfoldable pub rounds_in : List Event → ℕ
rounds_in [] = 0
rounds_in (list_networks ∷ h) = suc (rounds_in h)
rounds_in (_ ∷ h) = rounds_in h

module _ (c : Cluster) (env : Envs) where
  -- Where the networks cannot be listed and that is no conflict, the error is dropped: the
  -- reconciliation ends as one with nothing to do, after that one call, and is not run again.
  list_error_dropped :
      (e : GoError) (h : List Event)
      → c.list_networks_answer h ≡ inl e
      → c.is_conflict (new_client_request_error "List vlan networks in UpdateStatus" e) ≡ false
      → settle_status c env h ≡ (ok none, list_networks ∷ h)
  unfolding settle_status retry_status update_all_network_status ◌>>=◌
  list_error_dropped e h listed other = cc

  refresh-rounds :
      (k : ℕ) (net : VlanNetwork) (h : List Event)
      → rounds_in h ≡ k
      → Ends
          (λ _ h'. rounds_in h' ≡ k)
          (λ _ h'. rounds_in h' ≡ k)
          (λ _. ⊥)
          (update_network_status c env net h)
  unfolding update_network_status rounds_in
  refresh-rounds k net h p =
      Ends-bind-attempt-keeps (λ h'. rounds_in h' ≡ k) _ _ h (Ends-call _ _ h (λ _ _. p) (λ _ _. p))
        (λ daemons h1 q.
          Ends-bind-wrap-lift _ _ _ h1 (λ _ _. q)
            (λ _ _.
              Ends-bind-wrap-call _ _ _ _ h1 (λ _ _. q)
                (λ pods _. Ends-bind-ask _ _ _ _ (Ends-return _ _ q))))

  after_refresh-rounds :
      (k : ℕ) (next : Option ℤ → Operator StatusOutcome)
      → ((rq : Option ℤ) (h : List Event)
          → rounds_in h ≡ k
          → Ends (λ _ h'. rounds_in h' ≡ k) (λ _ _. ⊥) (λ _. ⊥) (next rq h))
      → (fresh : GoError ⊎ (VlanNetwork × Option ℤ)) (h : List Event) → rounds_in h ≡ k
      → Ends (λ _ h'. rounds_in h' ≡ k) (λ _ _. ⊥) (λ _. ⊥) (after_refresh c next fresh h)
  unfolding rounds_in
  after_refresh-rounds k next keeps (inl e) h p = Ends-return _ h p
  after_refresh-rounds k next keeps (inr (net, rq)) h p =
      Ends-bind-attempt (λ _ h'. rounds_in h' ≡ k) (λ _ h'. rounds_in h' ≡ k) _ _ h
        (Ends-call _ _ h (λ _ _. p) (λ _ _. p)) (λ e h' q. Ends-return _ h' q)
        (λ _ h' q. keeps rq h' q)

  update_each-rounds :
      (k : ℕ) (nets : List VlanNetwork) (rq : Option ℤ) (h : List Event)
      → rounds_in h ≡ k
      → Ends (λ _ h'. rounds_in h' ≡ k) (λ _ _. ⊥) (λ _. ⊥) (update_each c env nets rq h)
  unfolding update_each
  update_each-rounds k [] rq h p = Ends-return _ h p
  update_each-rounds k (net ∷ nets) rq h p =
      Ends-bind-attempt-keeps (λ h'. rounds_in h' ≡ k) _ _ h (refresh-rounds k net h p)
        (after_refresh-rounds k _ (update_each-rounds k nets))

  update-rounds :
      (k : ℕ) (h : List Event)
      → rounds_in h ≡ k
      → Ends (λ _ h'. rounds_in h' ≡ suc k) (λ _ _. ⊥) (λ _. ⊥) (update_all_network_status c env h)
  unfolding update_all_network_status rounds_in
  update-rounds k h p =
      Ends-bind-attempt (λ _ h'. rounds_in h' ≡ suc k) (λ _ h'. rounds_in h' ≡ suc k) _ _ h
        (Ends-call _ _ h (λ _ _. ap suc p) (λ _ _. ap suc p)) (λ e h' q. Ends-return _ h' q)
        (λ nets h' q. update_each-rounds (suc k) nets none h' q)

  retry-rounds :
      (left k : ℕ) (out : StatusOutcome) (h : List Event)
      → rounds_in h ≡ k
      → Ends
          (λ _ h'. rounds_in h' ≤ k + left)
          (λ _ h'. rounds_in h' ≡ k + left)
          (λ _. ⊥)
          (retry_status c env left out h)
  unfolding retry_status
  retry-rounds left k (rq, none) h p = Ends-return _ h (omega arith)
  retry-rounds zero k (rq, some e) h p = Ends-fail _ h (omega arith)
  retry-rounds (suc left) k (rq, some e) h p = elim (Bool-cases (c.is_conflict e)) [
    | inl conflict ↦
        rw (conflict, ← add_suc k left)
          (Ends-bind (λ _ h'. rounds_in h' ≡ suc k) _ _ h (Ends-no_error (update-rounds k h p))
            (retry-rounds left (suc k)))
    | inr other ↦ rw other (Ends-return _ h (omega arith))
  ]
    where
      add_suc : (k n : ℕ) → suc k + n ≡ k + suc n
      add_suc k n = omega arith

  settle_status-rounds :
      (k : ℕ) (h : List Event)
      → rounds_in h ≡ k
      → Ends
          (λ _ h'. rounds_in h' ≤ k + 6)
          (λ _ h'. rounds_in h' ≡ k + 6)
          (λ _. ⊥)
          (settle_status c env h)
  unfolding settle_status
  settle_status-rounds k h p =
      Ends-bind (λ _ h'. rounds_in h' ≡ suc k) _ _ h (Ends-no_error (update-rounds k h p))
        (λ out h' q. rw (← six k) (retry-rounds 5 (suc k) out h' q))
    where
      six : (k : ℕ) → suc k + 5 ≡ k + 6
      six k = omega arith

  ensure-rounds :
      (k : ℕ) (enabled : Bool) (h : List Event)
      → rounds_in h ≡ k
      → Ends
          (λ _ h'. rounds_in h' ≡ k)
          (λ _ h'. rounds_in h' ≡ k)
          (λ _. ⊥)
          ((if enabled then ensure_pod_monitor c env else return tt) h)
  unfolding ensure_pod_monitor rounds_in
  ensure-rounds k false h p = Ends-return _ h p
  ensure-rounds k true h p =
      Ends-catch (λ _ h'. rounds_in h' ≡ k) _ _ h (Ends-call _ _ h (λ _ _. p) (λ _ _. p))
        (λ e h' q. elim (Bool-cases (c.is_already_exists e)) [
          | inl exists ↦ rw exists (Ends-return _ h' q)
          | inr other ↦ rw other (Ends-fail _ h' q)
        ])

  after_pod-rounds :
      (k : ℕ) (pod : GoError ⊎ Pod) (h : List Event)
      → rounds_in h ≡ k
      → Ends
          (λ _ h'. rounds_in h' ≤ k + 6)
          (λ _ h'. (rounds_in h' ≡ k) ⊎ (rounds_in h' ≡ k + 6))
          (λ _. ⊥)
          (after_pod c (settle_status c env) pod h)
  after_pod-rounds k (inl e) h p = elim (Bool-cases (c.is_not_found e)) [
    | inl gone ↦ rw gone (Ends-map_error (λ _ _ six. inr six) (settle_status-rounds k h p))
    | inr other ↦ rw other (Ends-fail _ h (inl p))
  ]
  after_pod-rounds k (inr pod) h p = elim (Bool-cases (pod.pod_ip == "")) [
    | inl early ↦ rw early (Ends-return _ h (omega arith))
    | inr ready ↦ rw ready (Ends-map_error (λ _ _ six. inr six) (settle_status-rounds k h p))
  ]

  -- For one request with a namespace the status of the networks is updated at most six times; an
  -- error is returned only before the first update, or after six of them.
  pub reconcile_pod-rounds :
      (request : NamespacedName) (k : ℕ) (h : List Event)
      → rounds_in h ≡ k
      → Ends
          (λ _ h'. rounds_in h' ≤ k + 6)
          (λ _ h'. (rounds_in h' ≡ k) ⊎ (rounds_in h' ≡ k + 6))
          (λ _. ⊥)
          (reconcile_pod c env request h)
  unfolding reconcile_pod rounds_in
  reconcile_pod-rounds request k h p =
      Ends-bind-attempt-keeps (λ h'. rounds_in h' ≡ k) _ _ h
        (ensure-rounds k env.is_monitoring_enabled h p)
        (λ _ h1 q.
          Ends-bind-attempt-keeps (λ h'. rounds_in h' ≡ k) _ _ h1
            (Ends-call _ _ h1 (λ _ _. q) (λ _ _. q)) (λ pod h2 r. after_pod-rounds k pod h2 r))
