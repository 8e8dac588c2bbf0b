-- ===== src/Tests/Fixtures.antt =====
-- A cluster with one network, one manager pod and one worker pod, and what the webhooks are sent.
use vlanman.Prelude.{[], ◌∷◌, none, some, inl, inr, pos, true, false, ◌==◌, if◌then◌else◌}
use vlanman.Errors.{external}
use vlanman.Kube.{Pod}
use vlanman.Api.{
  VlanNetwork, VlanNetworkPool, VlanNetworkStatus, pod_vlanman_network_annotation,
  pod_vlanman_ip_pool_annotation,
}
use vlanman.Cluster.{Cluster, Envs}

abbrev office_pool : VlanNetworkPool
office_pool = record {
  description = "";
  routes = some [];
  addresses = "10.0.0.1/24" ∷ "10.0.0.2/24" ∷ "10.0.0.3/24" ∷ [];
  name = "office";
}

abbrev pub office_status : VlanNetworkStatus
office_status = record {
  free_ips = some (("office", "10.0.0.2/24" ∷ "10.0.0.3/24" ∷ []) ∷ []);
  pending_ips = some (("office", ("10.0.0.2/24", "t0") ∷ []) ∷ []);
  state = none;
  short_state = "";
}

abbrev pub office : VlanNetwork
office = record {
  name = "net";
  spec = record {
    gateways = some [];
    vlan_id = pos 7;
    manager_affinity = none;
    pools = some (office_pool ∷ []);
    mappings = none;
  };
  status = office_status;
}

abbrev pub plain_pod : Pod
plain_pod = record {
  name = "web";
  namespace = "default";
  annotations = [];
  labels = [];
  node_name = "node-a";
  init_containers = [];
  containers = [];
  affinity = none;
  phase = "Pending";
  pod_ip = "";
}

abbrev pub annotated_pod : Pod
annotated_pod = record plain_pod {
  annotations =
      (pod_vlanman_network_annotation, "net") ∷ (pod_vlanman_ip_pool_annotation, "office") ∷ [];
}

-- A worker pod that holds 10.0.0.1.
abbrev pub worker_pod : Pod
worker_pod = record plain_pod {
  init_containers =
      (record {
        name = "init-vlan";
        image = "worker";
        image_pull_policy = "Always";
        command = [];
        env =
            (record { name = "MACVLAN_IP"; value = "10.0.0.1" })
            ∷ (record { name = "MACVLAN_SUBNET"; value = "24" })
            ∷ [];
        ports = [];
        capabilities = [];
      })
      ∷ [];
}

abbrev pub env : Envs
env = record {
  namespace_name = "vlanman-system";
  vlan_manager_image = "manager";
  vlan_manager_pull_policy = "Always";
  is_test = false;
  wait_for_pod_timeout_seconds = pos 30;
  is_manager_ip_monitoring_enabled = false;
  is_monitoring_enabled = false;
  monitoring_scrape_interval = "10s";
  monitoring_release_name = "prometheus";
  ttl = none;
  interface_pod_image = "interface";
  interface_pod_pull_policy = "Always";
  worker_init_image = "worker";
  worker_init_pull_policy = "Always";
  service_account_name = "vlanman";
}

-- Every call succeeds.
abbrev pub healthy : Cluster
healthy = record {
  new_clientset_answer = λ _. inr tt;
  new_locker_answer = λ _ _ _. inr tt;
  now_answer = λ _. 100;
  now_each_answer = λ _ _. 100;
  get_network_answer = λ _ _. inr office;
  list_networks_answer = λ _. inr (office ∷ []);
  update_status_answer = λ net _. inr net;
  list_pods_answer = λ _ _. inr (record plain_pod { pod_ip = "192.168.0.9" } ∷ []);
  list_nodes_answer = λ _. inr [];
  list_daemon_sets_answer = λ _ _. inr [];
  get_pod_answer = λ _ _. inl (external "NotFound");
  create_pod_monitor_answer = λ _. inr tt;
  create_job_answer = λ job _. inr job;
  get_job_answer = λ _ _. inl (external "NotFound");
  delete_job_answer = λ _ _. inr tt;
  create_daemon_set_answer = λ set _. inr set;
  get_daemon_set_answer = λ _ _. inl (external "NotFound");
  delete_daemon_set_answer = λ _ _. inr tt;
  update_daemon_set_answer = λ _ _. inr tt;
  create_service_answer = λ _ _. inr tt;
  delete_service_answer = λ _ _. inr tt;
  http_get_answer = λ _ _. inr (some (record { status_code = 200; body = some (inr "{}") }));
  is_not_found = λ _. true;
  is_already_exists = λ _. false;
  is_conflict = λ _. false;
  new_requirement = λ _ _. inr tt;
  new_exists_requirement = inr tt;
  format_time = λ _. "t100";
  parse_time = λ s. if s == "t0" then some 0 else if s == "t100" then some 100 else none;
  marshal_routes = λ _. inr "[]";
  marshal_gateways = λ _. inr "[]";
  unmarshal_gateways = λ _. inr (some []);
  unmarshal_pid = λ _. inr (pos 1);
}

-- The server refuses every write of a status.
abbrev pub read_only : Cluster
read_only = record healthy { update_status_answer = λ _ _. inl (external "Conflict") }

-- No pod is found.
abbrev pub idle : Cluster
idle = record healthy { list_pods_answer = λ _ _. inr [] }
