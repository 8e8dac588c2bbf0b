-- ===== src/Controller/Status.antt =====
-- The status of the networks: updateVlanNetworkStatus and UpdateAllNetworkStatus of
-- internal/controller/vlanman_controller.go.
pub mod Refresh
pub mod Free
pub mod Pending
pub mod Writes
pub mod Shared
use vlanman.Prelude.{ℤ, String, List, [], ◌∷◌, ◌++◌, map, Option, none, some, ◌⊎◌, inl, inr}
use vlanman.Prelude.Run.{return, call, ask, lift, wrap, attempt, ◌>>=◌, ◌>>◌}
use vlanman.Errors.{GoError, internal_error, new_client_request_error}
use vlanman.Kube.{Pod}
use vlanman.Api.{VlanNetwork, worker_pod_label_key}
use vlanman.Cluster.{
  Cluster, Operator, Envs, in_namespace, label_equals, now_each, list_networks, list_pods,
  update_status,
}
use Refresh.{refresh}

-- `make([]string, len(items))` and one append for each item: as many empty names, and then the names.
unfoldable pub names_of : List Pod → List String
names_of pods = map (λ _. "") pods ++ map (λ (pod : Pod). pod.name) pods

-- The answer to the first List, whose error is not looked at.
abbrev pub or_none {ℓ} : {A : Type ℓ} → GoError ⊎ List A → List A
or_none (inl _) = []
or_none (inr items) = items

-- updateVlanNetworkStatus: the network with its new status, and requeueIn.
unfoldable pub update_network_status :
    Cluster → Envs → VlanNetwork → Operator (VlanNetwork × Option ℤ)
update_network_status c env net = do
  let all = in_namespace env.namespace_name
  daemons ← attempt (call (list_pods all) (c.list_pods_answer all))
  wrap (lift (c.new_requirement worker_pod_label_key net.name)) (λ _.
      internal_error
        "Error compiling the label selector requirement for listing worker pods while updating status")
  let workers = label_equals worker_pod_label_key net.name
  pods ←
      wrap (call (list_pods workers) (c.list_pods_answer workers))
        (new_client_request_error "Error listing pods in updateVlanNetworkStatus")
  clock ← ask now_each c.now_each_answer
  let fresh = refresh c.parse_time clock (names_of (or_none daemons)) pods net
  return (record net { status = fresh.0 }, fresh.1)

-- What the callers of UpdateAllNetworkStatus get: requeueIn, and the error if there is one.
abbrev pub StatusOutcome : Type 0
StatusOutcome = Option ℤ × Option GoError

abbrev after_write :
    (Option ℤ → Operator StatusOutcome) → Option ℤ → GoError ⊎ VlanNetwork → Operator StatusOutcome
after_write next rq (inl e) =
    return (rq, some (new_client_request_error "Update vlan network's status" e))
after_write next rq (inr _) = next rq

abbrev pub after_refresh :
    Cluster
    → (Option ℤ → Operator StatusOutcome)
    → GoError ⊎ (VlanNetwork × Option ℤ)
    → Operator StatusOutcome
after_refresh c next (inl e) = return (none, some e)
after_refresh c next (inr (net, rq)) = do
  written ← attempt (call (update_status net) (c.update_status_answer net))
  after_write next rq written

-- The loop over the networks; requeueIn is that of the last network.
unfoldable pub update_each : Cluster → Envs → List VlanNetwork → Option ℤ → Operator StatusOutcome
update_each c env [] rq = return (rq, none)
update_each c env (net ∷ nets) rq = do
  fresh ← attempt (update_network_status c env net)
  after_refresh c (update_each c env nets) fresh

abbrev after_list : Cluster → Envs → GoError ⊎ List VlanNetwork → Operator StatusOutcome
after_list c env (inl e) =
    return (none, some (new_client_request_error "List vlan networks in UpdateStatus" e))
after_list c env (inr nets) = update_each c env nets none

-- UpdateAllNetworkStatus
unfoldable pub update_all_network_status : Cluster → Envs → Operator StatusOutcome
update_all_network_status c env = do
  listed ← attempt (call list_networks c.list_networks_answer)
  after_list c env listed
