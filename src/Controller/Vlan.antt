-- ===== src/Controller/Vlan.antt =====
-- extractVlan of internal/controller/vlanman_controller.go: the address that the webhook gave a pod,
-- read from the environment of its init containers.
use vlanman.Prelude.{String, List, [], ◌∷◌, Bool, not, ◌&&◌, ◌==◌, if◌then◌else◌}
use vlanman.Prelude.Text.{◌⧺◌, address_of}
use vlanman.Kube.{Pod, Container, EnvVar}

pub record Found : Type 0 where
  pub ip : String
  pub subnet : String

-- The inner loop; a later variable replaces an earlier one.
unfoldable pub scan_env : Found → List EnvVar → Found
scan_env found [] = found
scan_env found (e ∷ env) =
    let ip = if e.name == "MACVLAN_IP" then e.value else found.ip in
    let subnet = if e.name == "MACVLAN_SUBNET" then e.value else found.subnet in
    scan_env (record { ip = ip; subnet = subnet }) env

unfoldable pub scan_containers : Found → List Container → Found
scan_containers found [] = found
scan_containers found (container ∷ rest) = scan_containers (scan_env found container.env) rest

abbrev pub full_ip : Found → String
full_ip found = if not (found.subnet == "") then found.ip ⧺ ("/" ⧺ found.subnet) else found.ip

-- extractVlan
unfoldable pub extract_vlan : Pod → String × Bool
unfolding scan_env scan_containers
extract_vlan pod =
    let found = scan_containers (record { ip = ""; subnet = "" }) pod.init_containers in
    (full_ip found, not (found.ip == ""))

-- The test by which the status update takes an address for the pod's.
abbrev pub holds : Pod → String → Bool
holds pod address = let (full, found) = extract_vlan pod in found && address == address_of full
