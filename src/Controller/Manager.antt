-- ===== src/Controller/Manager.antt =====
-- internal/controller/manager.go: the manager's DaemonSet and Service, made from a ManagerSet, and a
-- ManagerSet read from a DaemonSet.
pub mod Observed
use vlanman.Prelude.{
  ℤ, negsuc, String, List, [], ◌∷◌, ◌++◌, Option, none, some, ◌⊎◌, inl, inr, Slice, true, false,
  ◌==◌, if◌then◌else◌,
}
use vlanman.Prelude.Maps.{lookup_or}
use vlanman.Prelude.Decimal.{format_int, parse_int, parsed_value}
use vlanman.Prelude.Run.{Result, ok, err, panic}
use vlanman.Prelude.Text.{◌⧺◌, join}
use vlanman.Errors.{GoError, parsing_error}
use vlanman.Kube.{
  Affinity, EnvVar, variable, Container, Payload, DaemonSet, DaemonSetStatus, Service,
}
use vlanman.Api.{
  Gateway, IpMapping, VlanNetwork, manager_set_label_key, manager_set_name_prefix,
  leader_election_lease_name, manager_container_name, manager_ip_monitor_container_name,
  manager_pod_api_port, manager_pod_api_port_name, service_name_suffix,
}
use vlanman.Cluster.{Cluster, Envs}

pub record ManagerSet : Type 0 where
  pub owner_network_name : String
  pub vlan_id : ℤ
  pub gateways : Slice Gateway
  pub manager_affinity : Option Affinity
  pub mappings : Slice IpMapping

-- getPullPolicy
unfoldable pub get_pull_policy : String → String
get_pull_policy pp =
    if pp == "Always" then "Always" else if pp == "Never" then "Never" else "IfNotPresent"

unfoldable pub manager_container : ManagerSet → Envs → String → Container
unfolding get_pull_policy
manager_container mgr e gateways = record {
  name = manager_container_name;
  image = e.vlan_manager_image;
  image_pull_policy = get_pull_policy e.vlan_manager_pull_policy;
  command = [];
  env =
      variable "VLAN_ID" (format_int mgr.vlan_id)
      ∷ variable "NAMESPACE" e.namespace_name
      ∷ variable "LOCK_NAME" (leader_election_lease_name ⧺ ("-" ⧺ mgr.owner_network_name))
      ∷ variable "OWNER_NETWORK" mgr.owner_network_name
      ∷ variable "POOLS" gateways
      ∷ variable "GATEWAYS" gateways
      ∷ [];
  ports =
      (record {
        name = manager_pod_api_port_name;
        protocol = "TCP";
        container_port = manager_pod_api_port;
      })
      ∷ [];
  capabilities = "NET_ADMIN" ∷ "NET_RAW" ∷ [];
}

abbrev monitor_container : Container
monitor_container = record {
  name = manager_ip_monitor_container_name;
  image = "alpine:latest";
  image_pull_policy = "IfNotPresent";
  command = "sh" ∷ "-c" ∷ "apk add --no-cache iproute2 && /sbin/ip monitor all" ∷ [];
  env = [];
  ports = [];
  capabilities = "NET_ADMIN" ∷ "NET_RAW" ∷ [];
}

-- The zero value of a status.
abbrev pub no_status : DaemonSetStatus
no_status = record {
  current_number_scheduled = 0;
  desired_number_scheduled = 0;
  number_unavailable = 0;
  others = record { text = "" };
}

-- The DaemonSet, once the gateways are marshalled.
unfoldable pub daemon_set_with : ManagerSet → Envs → String → DaemonSet
unfolding manager_container join
daemon_set_with mgr e gateways = record {
  name = join (manager_set_name_prefix ∷ mgr.owner_network_name ∷ []) "-";
  namespace = e.namespace_name;
  labels = (manager_set_label_key, mgr.owner_network_name) ∷ [];
  match_labels = (manager_set_label_key, mgr.owner_network_name) ∷ [];
  update_strategy = "OnDelete";
  template = record {
    labels = (manager_set_label_key, mgr.owner_network_name) ∷ [];
    service_account_name = e.service_account_name;
    host_pid = true;
    host_network = false;
    node_selector = [];
    containers =
        manager_container mgr e gateways
        ∷ (if e.is_manager_ip_monitoring_enabled then monitor_container ∷ [] else []);
    affinity = mgr.manager_affinity;
    restart_policy = "";
    termination_grace_period = none;
  };
  status = no_status;
}

-- daemonSetFromManager. The gateways are marshalled twice; POOLS holds them too.
unfoldable pub daemon_set_from_manager : Cluster → ManagerSet → Envs → GoError ⊎ DaemonSet
daemon_set_from_manager c mgr e = elim (c.marshal_gateways mgr.gateways) [
  | inl fault ↦ inl (parsing_error "ManagerSet pools" fault)
  | inr gateways ↦ inr (daemon_set_with mgr e gateways)
]

-- serviceForManagerSet
unfoldable pub service_for_manager_set : ManagerSet → String → Service
unfolding join
service_for_manager_set d namespace = record {
  name = join (d.owner_network_name ∷ service_name_suffix ∷ []) "-";
  namespace = namespace;
  selector = (manager_set_label_key, d.owner_network_name) ∷ [];
  internal_traffic_policy = "Local";
  ports = (record { name = "manager"; protocol = "TCP"; port = 61410; target_port = 61410 }) ∷ [];
}

-- What the loop of managerFromSet over the environment collects.
pub record Scanned : Type 0 where
  pub vlan_id : ℤ
  pub gateways : Slice Gateway

abbrev set_gateways : Scanned → GoError ⊎ Slice Gateway → GoError ⊎ Scanned
set_gateways s (inl fault) = inl fault
set_gateways s (inr gateways) = inr (record s { gateways = gateways })

unfoldable pub scan_variable : Cluster → Scanned → EnvVar → GoError ⊎ Scanned
scan_variable c s v =
    if v.name == "VLAN_ID"
    then inr (record s { vlan_id = parsed_value (parse_int 64 v.value) })
    else if v.name == "GATEWAYS"
    then set_gateways s (c.unmarshal_gateways v.value)
    else inr s

unfoldable pub scan : Cluster → Scanned → List EnvVar → GoError ⊎ Scanned
unfolding scan_variable
scan c s [] = inr s
scan c s (v ∷ env) = elim (scan_variable c s v) [ inl fault ↦ inl fault | inr s' ↦ scan c s' env ]

abbrev manager_of : DaemonSet → GoError ⊎ Scanned → Result GoError ManagerSet
manager_of d (inl fault) = err fault
manager_of d (inr s) = ok (record {
  owner_network_name = lookup_or "" manager_set_label_key d.labels;
  vlan_id = s.vlan_id;
  manager_affinity = d.template.affinity;
  mappings = some [];
  gateways = s.gateways;
})

-- `d.Spec.Template.Spec.Containers[0]` panics when there is no container.
abbrev from_containers : Cluster → DaemonSet → List Container → Result GoError ManagerSet
from_containers c d [] = panic
from_containers c d (first ∷ _) =
    manager_of d (scan c (record { vlan_id = negsuc 0; gateways = some [] }) first.env)

-- managerFromSet
pub manager_from_set : Cluster → DaemonSet → Result GoError ManagerSet
unfolding scan
manager_from_set c d = from_containers c d d.template.containers

-- createDesiredManagerSet
unfoldable pub create_desired_manager_set : VlanNetwork → ManagerSet
create_desired_manager_set network = record {
  owner_network_name = network.name;
  vlan_id = network.spec.vlan_id;
  gateways = network.spec.gateways;
  manager_affinity = network.spec.manager_affinity;
  mappings = network.spec.mappings;
}
