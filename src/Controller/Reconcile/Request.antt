-- ===== src/Controller/Reconcile/Request.antt =====
-- Reconcile of internal/controller/vlanman_controller.go as a whole, and res. Durations are nanoseconds.
use vlanman.Prelude.{
  ℕ, ℤ, pos, List, [], ◌∷◌, ◌++◌, Option, none, some, ◌⊎◌, inl, inr, ◌≡◌, refl, ◌==◌, false, int_le,
  if◌then◌else◌, Bool-cases,
}
use vlanman.Prelude.Run.{return, fail, call, attempt, ◌>>=◌}
use vlanman.Prelude.Mapped.{map_out, bind-map_out, bind-ok}
use vlanman.Errors.{GoError}
use vlanman.Kube.{Pod, NamespacedName}
use vlanman.Cluster.{Cluster, Event, Operator, Envs, get_pod}
use vlanman.Controller.Reconcile.{ensure_pod_monitor, settle_status, after_pod, reconcile_pod}
use vlanman.Controller.Reconcile.Network.{reconcile_network}

-- slices.Min of a list that is not empty.
pub minimum : ℤ → List ℤ → ℤ
minimum a [] = a
minimum a (b ∷ bs) = minimum (if int_le a b then a else b) bs

-- res: RequeueAfter, or the zero Result.
pub res : Option ℤ → List ℤ → Option ℤ
res none [] = none
res none (t ∷ times) = some (minimum t times)
res (some rq) [] = some rq
res (some rq) (t ∷ times) = some (minimum t (times ++ (rq ∷ [])))

abbrev times_of : Option ℤ → List ℤ
times_of none = []
times_of (some t) = t ∷ []

module _ (c : Cluster) (env : Envs) where
  -- What follows the status: `none` where the fuel ran out.
  abbrev combined : Option ℤ → Option (Option ℤ) → Option (Option ℤ)
  combined rq none = none
  combined rq (some rq_net) = some (res rq (times_of rq_net))

  -- `if !apierrors.IsNotFound(err) { … }` of the request as a whole.
  abbrev after_request : Operator (Option (Option ℤ)) → GoError ⊎ Pod → Operator (Option (Option ℤ))
  after_request next (inl e) = if c.is_not_found e then next else fail e
  after_request next (inr pod) =
      if pod.pod_ip == "" then return (some (some (pos 1000000000))) else next

  abbrev after_status : ℕ → NamespacedName → Option ℤ → Operator (Option (Option ℤ))
  after_status fuel request rq = do
    net ← if request.namespace == "" then reconcile_network c env fuel else return (some none)
    return (combined rq net)

  reconcile_networks : ℕ → NamespacedName → Operator (Option (Option ℤ))
  reconcile_networks fuel request = do rq ← settle_status c env; after_status fuel request rq

  -- Reconcile. The error of ensurePodMonitor is dropped.
  pub reconcile : ℕ → NamespacedName → Operator (Option (Option ℤ))
  reconcile fuel request = do
    _ ← attempt (if env.is_monitoring_enabled then ensure_pod_monitor c env else return tt)
    pod ← attempt (call (get_pod request) (c.get_pod_answer request))
    after_request (reconcile_networks fuel request) pod

  after_request-map_out :
      (next : Operator (Option (Option ℤ))) (plain : Operator (Option ℤ))
      → ((h : List Event) → next h ≡ map_out some (plain h))
      → (pod : GoError ⊎ Pod) (h : List Event)
      → after_request next pod h ≡ map_out some (after_pod c plain pod h)
  unfolding map_out return fail
  after_request-map_out next plain e (inl fault) h = elim (Bool-cases (c.is_not_found fault)) [
    | inl gone ↦ rw gone (e h)
    | inr other ↦ rw other refl
  ]
  after_request-map_out next plain e (inr pod) h = elim (Bool-cases (pod.pod_ip == "")) [
    | inl early ↦ rw early refl
    | inr ready ↦ rw ready (e h)
  ]

  res-alone : (rq : Option ℤ) → res rq [] ≡ rq
  unfolding res
  res-alone none = refl
  res-alone (some rq) = refl

  reconcile_networks-named :
      (fuel : ℕ) (request : NamespacedName)
      → (request.namespace == "") ≡ false
      → (h : List Event) → reconcile_networks fuel request h ≡ map_out some (settle_status c env h)
  unfolding reconcile_networks ◌>>=◌
  reconcile_networks-named fuel request named h =
      bind-ok some (settle_status c env) (after_status fuel request) h
        (λ rq h1. rw (named, res-alone rq) refl)

  -- A request with a namespace does nothing to the managers: it is reconciled as `reconcile_pod`
  -- does, whatever the fuel, and asks to be run again when that does.
  pub reconcile-pod :
      (fuel : ℕ) (request : NamespacedName) (h : List Event)
      → (request.namespace == "") ≡ false
      → reconcile fuel request h ≡ map_out some (reconcile_pod c env request h)
  unfolding reconcile reconcile_pod
  reconcile-pod fuel request h named = bind-map_out some _ _ _ h (λ _ h1.
      bind-map_out some _ _ _ h1
        (after_request-map_out _ _ (reconcile_networks-named fuel request named)))
