-- ===== src/Controller/Reconcile.antt =====
-- Reconcile of internal/controller/vlanman_controller.go for a request with a namespace, and
-- ensurePodMonitor. Reconcile/Request has Reconcile for every request, Reconcile/Network what it does
-- to the managers.
pub mod Rounds
pub mod Network
pub mod Request
use vlanman.Prelude.{
  ℕ, zero, suc, ℤ, pos, String, List, [], ◌∷◌, Option, none, some, ◌⊎◌, inl, inr, Bool, true, false,
  not, ◌==◌, if◌then◌else◌,
}
use vlanman.Prelude.Run.{return, fail, call, catch, attempt, ◌>>=◌, ◌>>◌}
use vlanman.Errors.{GoError, wrapped, new_client_request_error}
use vlanman.Kube.{Pod, NamespacedName}
use vlanman.Api.{pod_monitor_name, update_status_max_retries}
use vlanman.Cluster.{Cluster, Operator, Envs, get_pod, create_pod_monitor}
use vlanman.Controller.Status.{StatusOutcome, update_all_network_status}

-- ensurePodMonitor
pub ensure_pod_monitor : Cluster → Envs → Operator (Unit {0})
ensure_pod_monitor c env =
    catch
      (call
        (create_pod_monitor env.namespace_name env.monitoring_release_name
          env.monitoring_scrape_interval)
        c.create_pod_monitor_answer)
      (λ e.
        if c.is_already_exists e
        then return tt
        else fail (new_client_request_error "CreatePodMonitor" e))

-- The loop while the error is a conflict, with the rounds that are left, and the test after it.
pub retry_status : Cluster → Envs → ℕ → StatusOutcome → Operator (Option ℤ)
retry_status c env left (rq, none) = return rq
retry_status c env zero (rq, some e) = fail (wrapped "Error updating status after 5 tries" e)
retry_status c env (suc left) (rq, some e) =
    let again = (do out ← update_all_network_status c env; retry_status c env left out) in
    if c.is_conflict e then again else return rq

-- The first update and its retries.
pub settle_status : Cluster → Envs → Operator (Option ℤ)
settle_status c env = do
  out ← update_all_network_status c env
  retry_status c env update_status_max_retries out

-- `if !apierrors.IsNotFound(err) { … }`: the pod is there and has no address yet, or it could not be
-- read; in any other case Reconcile goes on.
abbrev pub after_pod : Cluster → Operator (Option ℤ) → GoError ⊎ Pod → Operator (Option ℤ)
after_pod c next (inl e) = if c.is_not_found e then next else fail e
after_pod c next (inr pod) = if pod.pod_ip == "" then return (some (pos 1000000000)) else next

-- Reconcile, where the request has a namespace: RequeueAfter, in nanoseconds. The error of
-- ensurePodMonitor is dropped.
pub reconcile_pod : Cluster → Envs → NamespacedName → Operator (Option ℤ)
reconcile_pod c env request = do
  _ ← attempt (if env.is_monitoring_enabled then ensure_pod_monitor c env else return tt)
  pod ← attempt (call (get_pod request) (c.get_pod_answer request))
  after_pod c (settle_status c env) pod
