-- ===== src/PodWebhook.antt =====
-- The mutating webhook on pods: internal/webhook/corev1/webhook.go.
pub mod Patch
pub mod Lock
pub mod Success
pub mod ReadBack
pub mod Claims
use vlanman.Prelude.{
  String, List, [], ◌∷◌, Option, none, some, ◌⊎◌, inl, inr, Slice, elems, ◌==◌, if◌then◌else◌,
  false,
}
use vlanman.Prelude.Maps.{Dict, lookup, insert}
use vlanman.Prelude.Run.{return, fail, crash, call, ask, lift, catch, wrap, ◌>>=◌, ◌>>◌}
use vlanman.Prelude.Text.{◌⧺◌}
use vlanman.Errors.{
  GoError, type_mismatch_error, missing_annotation_error, unrecoverable_error, client_request,
  no_ip_in_pool_error, internal_error, no_manager_pods_error, manager_not_ready_error,
  parsing_error, new_client_request_error, wrapped,
}
use vlanman.Kube.{Pod}
use vlanman.Api.{
  VlanNetwork, VlanNetworkStatus, VlanNetworkPool, Route, pod_vlanman_network_annotation,
  pod_vlanman_ip_pool_annotation, lease_name, manager_set_label_key,
}
use vlanman.Cluster.{
  Cluster, Event, Operator, Envs, Object, a_pod, a_network, another, type_name, label_equals,
  new_clientset, new_locker, lock, unlock, sleep, now, get_network, update_status, list_pods,
}
use vlanman.Locker.{new_lease_locker, lock_lease, unlock_lease}
use vlanman.Ipam.{populate_status, pick_address, free_of, pending_of, reserve}
use Patch.{apply_patch}

-- fmt.Sprintf("%s@%s", pod.Name, pod.Namespace)
abbrev pub resource : Pod → String
resource pod = pod.name ⧺ ("@" ⧺ pod.namespace)

-- What follows the loop over the pool, which found an address or none; `status` is that of
-- PopulateStatus.
pub take_address :
    Cluster
    → String
    → String
    → VlanNetwork
    → VlanNetworkStatus
    → Option String
    → Operator (String × VlanNetwork)
take_address c pool_name who network status none = do
  unlock_lease false
  fail (no_ip_in_pool_error who "")
take_address c pool_name who network status (some ip) = do
  time ← ask now c.now_answer
  let reserved = record network { status = reserve status pool_name ip (c.format_time time) }
  updated ←
      wrap (call (update_status reserved) (c.update_status_answer reserved))
        (new_client_request_error "Update status in mutating webhook")
  unlock_lease false
  return (ip, updated)

-- The part of Default between Lock and Unlock: reads the network, picks an address of the pool and
-- writes it to the pending addresses. Returns the address and the network as the server holds it.
pub allocate : Cluster → String → String → String → Operator (String × VlanNetwork)
allocate c network_name pool_name who = do
  network ←
      catch (call (get_network network_name) (c.get_network_answer network_name))
        λ e. do unlock_lease false; fail (client_request "Get VlanNetwork" e)
  let status = populate_status network.status (pool_name ∷ [])
  take_address c pool_name who network status
      (pick_address (pending_of status pool_name) (free_of status pool_name))

-- The loop over the manager pods: their addresses by node.
unfoldable pub endpoints_of : String → List Pod → Dict String → GoError ⊎ Dict String
endpoints_of who [] endpoints = inr endpoints
endpoints_of who (man ∷ rest) endpoints =
    let next = endpoints_of who rest (insert man.node_name man.pod_ip endpoints) in
    if man.pod_ip == "" then inl (manager_not_ready_error who (resource man)) else next

-- The routes of the first pool of that name.
unfoldable pub routes_of : String → List VlanNetworkPool → Slice Route
routes_of name [] = some []
routes_of name (pool ∷ pools) = if pool.name == name then pool.routes else routes_of name pools

-- `if len(managers.Items) == 0`
abbrev pub some_pods : VlanNetwork → String → List Pod → Operator (List Pod)
some_pods network who [] = fail (no_manager_pods_error who network.name)
some_pods network who (man ∷ managers) = return (man ∷ managers)

pub manager_pods : Cluster → VlanNetwork → String → Operator (List Pod)
manager_pods c network who = do
  wrap (lift (c.new_requirement manager_set_label_key network.name))
      (λ _. internal_error "mutating webhook list manager pods requirement fails to compile")
  let selector = label_equals manager_set_label_key network.name
  managers ←
      wrap (call (list_pods selector) (c.list_pods_answer selector))
        (new_client_request_error "Listing manager pods in mutating webhook")
  some_pods network who managers

-- The part of Default behind the checks of the annotations.
pub default_annotated : Cluster → Envs → Pod → String → String → Operator Pod
default_annotated c env pod network_name pool_name = do
  wrap (call new_clientset c.new_clientset_answer)
      (unrecoverable_error "Couldn't create a clientset from webhook.config in mutating webhook")
  -- The error is dropped, and the nil locker is used.
  catch (new_lease_locker c lease_name env.namespace_name) (λ _. crash)
  lock_lease false
  allocated ← allocate c network_name pool_name (resource pod)
  let ip = allocated.0
  let network = allocated.1
  managers ← manager_pods c network (resource pod)
  endpoints ← lift (endpoints_of (resource pod) managers [])
  routes ←
      wrap (lift (c.marshal_routes (routes_of pool_name (elems network.spec.pools))))
        (parsing_error "Marshaling routes")
  return (
      apply_patch pod network env.worker_init_image env.worker_init_pull_policy ip endpoints routes)

-- The checks of the two annotations.
abbrev pub default_with : Cluster → Envs → Pod → Option String → Option String → Operator Pod
default_with c env pod none none = return pod
default_with c env pod none (some _) = fail (missing_annotation_error (resource pod))
default_with c env pod (some _) none = fail (missing_annotation_error (resource pod))
default_with c env pod (some network) (some pool) = default_annotated c env pod network pool

-- Default; the pod is written in place, so a run that succeeds returns the new pod.
pub default : Cluster → Envs → Object → Operator Pod
default c env (a_pod pod) =
    default_with c env pod (lookup pod_vlanman_network_annotation pod.annotations)
      (lookup pod_vlanman_ip_pool_annotation pod.annotations)
default c env object = fail (type_mismatch_error "Mutating webhook" (type_name object))
