-- ===== src/Cluster.antt =====
-- What the operator asks of the world outside: the Kubernetes API, the lease that serves as a lock,
-- and the clock. An event is one call with its arguments; the answers are an argument of the code.
use vlanman.Prelude.{◌⊎◌, String, List, ℕ, ℤ, Option, Bool, Slice}
use vlanman.Prelude.Run.{Run}
use vlanman.Errors.{GoError}
use vlanman.Kube.{Pod, Node, DaemonSet, Service, Job, NamespacedName}
use vlanman.Api.{VlanNetwork, Route, Gateway}

-- What a List call selects.
pub data Selector : Type 0 where
  everything : Selector
  in_namespace : String → Selector
  -- label == value
  label_equals : String → String → Selector
  label_exists : String → Selector

pub data Event : Type 0 where
  new_clientset : Event
  new_locker : String → String → Event
  lock unlock sleep : Event
  now now_each : Event
  get_network : String → Event
  list_networks : Event
  update_status : VlanNetwork → Event
  list_pods : Selector → Event
  list_nodes : Event
  list_daemon_sets : Selector → Event
  get_pod : NamespacedName → Event
  create_pod_monitor : String → String → String → Event
  create_job : Job → Event
  get_job : NamespacedName → Event
  -- Its pods are deleted in the background.
  delete_job : NamespacedName → Event
  create_daemon_set : DaemonSet → Event
  get_daemon_set : NamespacedName → Event
  delete_daemon_set : DaemonSet → Event
  update_daemon_set : DaemonSet → Event
  create_service : Service → Event
  delete_service : Service → Event
  http_get : String → Event

-- An error or a value.
abbrev pub Answer : Type 0 → Type 0
Answer A = GoError ⊎ A

-- http.Response: its status and what io.ReadAll reads from its body, which may be nil.
pub record Response : Type 0 where
  pub status_code : ℕ
  pub body : Option (Answer String)

-- A reading of the clock in updateVlanNetworkStatus: for a pool and one of its pending addresses,
-- in the loop that drops the settled ones or in the loop for the requeue.
pub data Moment : Type 0 where
  at_pending at_requeue : String → String → Moment

pub record Cluster : Type 0 where
  pub new_clientset_answer : List Event → Answer (Unit {0})
  pub new_locker_answer : String → String → List Event → Answer (Unit {0})
  pub now_answer : List Event → ℕ
  pub now_each_answer : List Event → Moment → ℕ
  pub get_network_answer : String → List Event → Answer VlanNetwork
  pub list_networks_answer : List Event → Answer (List VlanNetwork)
  -- The object as the server returns it.
  pub update_status_answer : VlanNetwork → List Event → Answer VlanNetwork
  pub list_pods_answer : Selector → List Event → Answer (List Pod)
  pub list_nodes_answer : List Event → Answer (List Node)
  pub list_daemon_sets_answer : Selector → List Event → Answer (List DaemonSet)
  pub get_pod_answer : NamespacedName → List Event → Answer Pod
  pub create_pod_monitor_answer : List Event → Answer (Unit {0})
  pub create_job_answer : Job → List Event → Answer Job
  pub get_job_answer : NamespacedName → List Event → Answer Job
  pub delete_job_answer : NamespacedName → List Event → Answer (Unit {0})
  -- The object as the server returns it.
  pub create_daemon_set_answer : DaemonSet → List Event → Answer DaemonSet
  pub get_daemon_set_answer : NamespacedName → List Event → Answer DaemonSet
  pub delete_daemon_set_answer : DaemonSet → List Event → Answer (Unit {0})
  pub update_daemon_set_answer : DaemonSet → List Event → Answer (Unit {0})
  pub create_service_answer : Service → List Event → Answer (Unit {0})
  pub delete_service_answer : Service → List Event → Answer (Unit {0})
  -- `none` is a nil response.
  pub http_get_answer : String → List Event → Answer (Option Response)
  -- apierrors.IsNotFound, IsAlreadyExists and IsConflict.
  pub is_not_found : GoError → Bool
  pub is_already_exists : GoError → Bool
  pub is_conflict : GoError → Bool
  -- labels.NewRequirement(key, "==", value) checks the value.
  pub new_requirement : String → String → Answer (Unit {0})
  -- labels.NewRequirement(key, "exists", nil)
  pub new_exists_requirement : Answer (Unit {0})
  -- time.Format and time.Parse with time.Layout, on nanoseconds since the zero time.
  pub format_time : ℕ → String
  pub parse_time : String → Option ℕ
  -- encoding/json.
  pub marshal_routes : Slice Route → Answer String
  pub marshal_gateways : Slice Gateway → Answer String
  pub unmarshal_gateways : String → Answer (Slice Gateway)
  -- The PID of a PIDResponse.
  pub unmarshal_pid : String → Answer ℤ

abbrev pub Operator : Type 0 → Type 0
Operator = Run Event GoError

-- A runtime.Object that a webhook is handed, with its Go type's name where it is any other.
pub data Object : Type 0 where
  a_pod : Pod → Object
  a_network : VlanNetwork → Object
  another : String → Object

-- fmt.Sprintf("%T", obj)
abbrev pub type_name : Object → String
type_name (a_pod _) = "*v1.Pod"
type_name (a_network _) = "*v1.VlanNetwork"
type_name (another t) = t

-- controller.Envs
pub record Envs : Type 0 where
  pub namespace_name : String
  pub vlan_manager_image : String
  pub vlan_manager_pull_policy : String
  pub is_test : Bool
  pub wait_for_pod_timeout_seconds : ℤ
  pub is_manager_ip_monitoring_enabled : Bool
  pub is_monitoring_enabled : Bool
  pub monitoring_scrape_interval : String
  pub monitoring_release_name : String
  pub ttl : Option ℤ
  pub interface_pod_image : String
  pub interface_pod_pull_policy : String
  pub worker_init_image : String
  pub worker_init_pull_policy : String
  pub service_account_name : String
