-- ===== src/Api.antt =====
-- api/v1/vlanman_types.go and api/v1/constants.go: the VlanNetwork resource.
pub mod ShortState
pub mod Equal
use vlanman.Prelude.{String, List, ℕ, ℤ, Option, Bool, Slice}
use vlanman.Prelude.Maps.{Dict}
use vlanman.Kube.{Affinity}

-- A value other than the two constants can be read from the cluster: the type is a string.
abbrev pub ConnectionState : Type 0
ConnectionState = String

abbrev pub state_up : ConnectionState
state_up = "Up"

abbrev pub state_down : ConnectionState
state_down = "Down"

pub record Route : Type 0 where
  pub destination : String
  pub via : Option String
  pub source : String
  pub scope_link : Bool

pub record Gateway : Type 0 where
  pub address : String
  pub routes : Slice Route

pub record IpMapping : Type 0 where
  pub node_name : String
  pub interface : String

pub record VlanNetworkPool : Type 0 where
  pub description : String
  pub routes : Slice Route
  pub addresses : List String
  pub name : String

pub record VlanNetworkSpec : Type 0 where
  pub gateways : Slice Gateway
  pub vlan_id : ℤ
  pub manager_affinity : Option Affinity
  pub pools : Slice VlanNetworkPool
  pub mappings : Slice IpMapping

-- `none` is a nil map.
pub record VlanNetworkStatus : Type 0 where
  pub free_ips : Option (Dict (List String))
  pub pending_ips : Option (Dict (Dict String))
  pub state : Option (Dict ConnectionState)
  pub short_state : String

pub record VlanNetwork : Type 0 where
  pub name : String
  pub spec : VlanNetworkSpec
  pub status : VlanNetworkStatus

abbrev pub pod_vlanman_network_annotation : String
pod_vlanman_network_annotation = "vlanman.dialo.ai/network"

abbrev pub pod_vlanman_ip_pool_annotation : String
pod_vlanman_ip_pool_annotation = "vlanman.dialo.ai/pool"

abbrev pub manager_set_label_key : String
manager_set_label_key = "vlanman.dialo.ai/manager"

abbrev pub worker_pod_label_key : String
worker_pod_label_key = "vlanman.dialo.ai/worker"

abbrev pub lease_name : String
lease_name = "vlanman-ipam-lease"

abbrev pub leader_election_lease_name : String
leader_election_lease_name = "vlanman-leader-election"

abbrev pub manager_set_name_prefix : String
manager_set_name_prefix = "vlan-manager"

abbrev pub wait_for_daemon_timeout : ℕ
wait_for_daemon_timeout = 30

abbrev pub service_name_suffix : String
service_name_suffix = "service"

abbrev pub job_name_prefix : String
job_name_prefix = "create-vlan-job"

abbrev pub manager_container_name : String
manager_container_name = "vlan-manager"

abbrev pub manager_ip_monitor_container_name : String
manager_ip_monitor_container_name = "ip-monitor"

abbrev pub worker_init_container_name : String
worker_init_container_name = "init-vlan"

abbrev pub manager_pod_api_port : ℕ
manager_pod_api_port = 61410

abbrev pub manager_pod_api_port_name : String
manager_pod_api_port_name = "api"

abbrev pub pod_monitor_name : String
pod_monitor_name = "vlanman-pod-monitor"

abbrev pub reconciler_pending_ips_timeout_seconds : ℕ
reconciler_pending_ips_timeout_seconds = 35

abbrev pub update_status_max_retries : ℕ
update_status_max_retries = 5
