-- ===== src/PodWebhook/Patch.antt =====
-- applyPatch and mergeAffinity of internal/webhook/corev1/webhook.go.
use vlanman.Prelude.{String, List, [], ◌∷◌, ◌++◌, map, Option, none, some, if◌then◌else◌}
use vlanman.Prelude.Maps.{Dict, insert}
use vlanman.Prelude.Text.{◌⧺◌, join, cut}
use vlanman.Kube.{Pod, Container, variable, Affinity}
use vlanman.Api.{VlanNetwork, worker_pod_label_key, worker_init_container_name}

-- One field of mergeAffinity, which writes the same three branches for each.
abbrev merge_field {ℓ} : {A : Type ℓ} → Option A → Option A → Option A
merge_field none override = override
merge_field base none = base
merge_field (some _) override = override

unfoldable pub merge_affinity : Option Affinity → Option Affinity → Option Affinity
merge_affinity none override = override
merge_affinity (some base) none = some base
merge_affinity (some base) (some override) = some (record {
  node_affinity = merge_field base.node_affinity override.node_affinity;
  pod_affinity = merge_field base.pod_affinity override.pod_affinity;
  pod_anti_affinity = merge_field base.pod_anti_affinity override.pod_anti_affinity;
})

-- The prefix length that the worker is given.
pub subnet_of : String → String
unfolding cut
subnet_of ip = let parts = cut ip in if parts.found then parts.after else "32"

-- The text "node=address" of each manager.
manager_texts : Dict String → List String
manager_texts [] = []
manager_texts ((node, address) ∷ rest) = (node ⧺ ("=" ⧺ address)) ∷ manager_texts rest

unfoldable pub init_container :
    VlanNetwork → String → String → String → Dict String → String → Container
unfolding cut subnet_of join manager_texts
init_container network image pull_policy ip endpoints routes = record {
  name = worker_init_container_name;
  image = image;
  image_pull_policy = pull_policy;
  command = [];
  env =
      variable "VLAN_NETWORK" network.name
      ∷ variable "MACVLAN_IP" (cut ip).before
      ∷ variable "MACVLAN_SUBNET" (subnet_of ip)
      ∷ variable "ROUTES" routes
      ∷ variable "MANAGERS" (join (manager_texts endpoints) ",")
      ∷ [];
  ports = [];
  capabilities = "NET_ADMIN" ∷ [];
}

abbrev with_address : String → Container → Container
with_address ip container = record container {
  env =
      container.env
      ++ (variable "VLAN_IP" (cut ip).before ∷ variable "VLAN_SUBNET" (subnet_of ip) ∷ []);
}

unfoldable pub label_pod : Dict String → String → Dict String
label_pod [] network = (worker_pod_label_key, network) ∷ []
label_pod labels network = insert worker_pod_label_key network labels

-- applyPatch; the pod is written in place, so the new pod is returned.
unfoldable pub apply_patch :
    Pod → VlanNetwork → String → String → String → Dict String → String → Pod
unfolding init_container label_pod merge_affinity
apply_patch pod network image pull_policy ip endpoints routes = record pod {
  labels = label_pod pod.labels network.name;
  init_containers =
      init_container network image pull_policy ip endpoints routes ∷ pod.init_containers;
  containers = map (with_address ip) pod.containers;
  affinity = elim network.spec.manager_affinity [
    | none ↦ pod.affinity
    | some a ↦ merge_affinity pod.affinity (some a)
  ];
}
