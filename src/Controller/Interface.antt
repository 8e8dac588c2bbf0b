-- ===== src/Controller/Interface.antt =====
-- interfaceFromDaemon of internal/controller/interface.go: the job that makes a VLAN interface on the
-- node of a manager pod.
use vlanman.Prelude.{
  ℤ, String, List, [], ◌∷◌, ◌++◌, Option, none, some, Slice, elems, Bool, true, ◌==◌, if◌then◌else◌,
}
use vlanman.Prelude.Decimal.{format_int}
use vlanman.Prelude.Text.{join}
use vlanman.Kube.{Pod, Job, variable}
use vlanman.Api.{IpMapping, job_name_prefix}

-- The interface of the first mapping for the node.
pub interface_for : String → List IpMapping → String
interface_for node [] = ""
interface_for node (m ∷ mappings) =
    if m.node_name == node then m.interface else interface_for node mappings

-- interfaceFromDaemon
unfoldable pub interface_from_daemon :
    Pod → ℤ → ℤ → Option ℤ → String → String → String → Slice IpMapping → Bool → Job
unfolding interface_for format_int join
interface_from_daemon p pid id ttl image network_name pull_policy mappings fixup = record {
  name =
      join
        ((job_name_prefix ∷ network_name ∷ p.node_name ∷ [])
          ++ (if fixup then "fixup" ∷ [] else []))
        "-";
  namespace = p.namespace;
  ttl_seconds_after_finished = ttl;
  template = record {
    labels = [];
    service_account_name = "";
    host_pid = true;
    host_network = true;
    node_selector = ("kubernetes.io/hostname", p.node_name) ∷ [];
    containers =
        (record {
          name = "create-vlan";
          image = image;
          image_pull_policy = pull_policy;
          command = [];
          env =
              variable "PID" (format_int pid)
              ∷ variable "ID" (format_int id)
              ∷ variable "INTERFACE" (interface_for p.node_name (elems mappings))
              ∷ [];
          ports = [];
          capabilities = "NET_ADMIN" ∷ "NET_RAW" ∷ [];
        })
        ∷ [];
    affinity = none;
    restart_policy = "Never";
    termination_grace_period = some 1;
  };
  active = 0;
}
