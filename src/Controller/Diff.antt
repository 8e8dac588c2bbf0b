-- ===== src/Controller/Diff.antt =====
-- The comparison of the managers that the networks ask for with those that run: getCurrentState,
-- createDesiredState, diffManagers and diffStates of internal/controller/vlanman_controller.go, and
-- VlanNetworkState of state.go.
pub mod Actions
pub mod Spawns
pub mod Settled
pub mod Networks
pub mod Quiet
use vlanman.Prelude.{
  ℤ, pos, String, List, [], ◌∷◌, ◌++◌, map, Option, none, some, ◌⊎◌, inl, inr, Slice, Bool, true,
  false, not, ◌==◌, if◌then◌else◌,
}
use vlanman.Prelude.Equality.{deep_equal, String-discrete, ℤ-discrete}
use vlanman.Prelude.Maps.{Dict, or_empty}
use vlanman.Prelude.Order.{sort_by, search, is_some}
use vlanman.Prelude.Run.{Result, ok, err, panic, return, fail, crash, call, lift, wrap, ◌>>=◌, ◌>>◌}
use vlanman.Errors.{GoError, client_request, internal_error}
use vlanman.Kube.{DaemonSet}
use vlanman.Api.{IpMapping, VlanNetwork, ConnectionState, state_up, manager_set_label_key}
use vlanman.Api.Equal.{Gateway-discrete, IpMapping-discrete, Affinity-discrete}
use vlanman.Cluster.{Cluster, Operator, label_exists, list_networks, list_daemon_sets}
use vlanman.Controller.Manager.{ManagerSet, manager_from_set, create_desired_manager_set}

pub record VlanNetworkState : Type 0 where
  pub status : Option (Dict ConnectionState)
  pub mappings : Slice IpMapping
  pub vlan_id : ℤ
  pub name : String

abbrev pub zero_state : VlanNetworkState
zero_state = record { status = none; mappings = none; vlan_id = pos 0; name = "" }

abbrev pub state_of : VlanNetwork → VlanNetworkState
state_of conn = record {
  status = conn.status.state;
  mappings = conn.spec.mappings;
  vlan_id = conn.spec.vlan_id;
  name = conn.name;
}

-- `make([]VlanNetworkState, len(items))` and one append for each item: as many zero states come first.
unfoldable pub states_of : List VlanNetwork → List VlanNetworkState
states_of networks = map (λ _. zero_state) networks ++ map state_of networks

-- The loop of getCurrentState over the DaemonSets.
unfoldable pub managers_of : Cluster → List DaemonSet → Operator (List ManagerSet)
managers_of c [] = return []
managers_of c (m ∷ rest) = elim (manager_from_set c m) [
  | ok manager ↦ (do others ← managers_of c rest; return (manager ∷ others))
  | err e ↦ fail e
  | panic ↦ crash
]

-- getCurrentState
unfoldable pub get_current_state : Cluster → Operator (List ManagerSet × List VlanNetworkState)
unfolding states_of
get_current_state c = do
  vlans ← wrap (call list_networks c.list_networks_answer) (client_request "List vlan networks")
  wrap (lift c.new_exists_requirement)
      (λ _. internal_error "Error creating a label selector requirement in createDesiredState")
  let selector = label_exists manager_set_label_key
  managers ←
      wrap (call (list_daemon_sets selector) (c.list_daemon_sets_answer selector))
        (client_request "List pods with field selector")
  mgrs ← managers_of c managers
  return (mgrs, states_of vlans)

-- createDesiredState
unfoldable pub create_desired_state : List VlanNetwork → List ManagerSet
create_desired_state networks = map create_desired_manager_set networks

pub data Action : Type 0 where
  create_manager : ManagerSet → VlanNetworkState → Action
  update_manager : ManagerSet → VlanNetworkState → Action
  delete_manager : ManagerSet → Action
  spawn_interface : String → VlanNetworkState → Action

pub ManagerSet-discrete : Discrete ManagerSet
ManagerSet-discrete =
    hlevel (String-discrete, ℤ-discrete, Gateway-discrete, Affinity-discrete, IpMapping-discrete)

-- diffManagers
pub diff_managers : ManagerSet → ManagerSet → VlanNetworkState → List Action
diff_managers desired current network =
    if not (deep_equal ManagerSet-discrete desired current)
    then update_manager desired network ∷ []
    else []

-- The first loop of diffStates, over the connections of one network and over the networks.
pub spawns_of : VlanNetworkState → Dict ConnectionState → List Action
spawns_of conn [] = []
spawns_of conn ((pod_name, pod_status) ∷ rest) =
    let others = spawns_of conn rest in
    if not (pod_status == state_up) then spawn_interface pod_name conn ∷ others else others

pub spawns : List VlanNetworkState → List Action
spawns [] = []
spawns (conn ∷ conns) = spawns_of conn (or_empty conn.status) ++ spawns conns

-- netIdx: the last network of that name.
pub network_named :
    String → Option VlanNetworkState → List VlanNetworkState → Option VlanNetworkState
network_named name found [] = found
network_named name found (ns ∷ conns) =
    network_named name (if ns.name == name then some ns else found) conns

-- The body of the second loop, with what the two searches found.
abbrev pub change : ManagerSet → Option VlanNetworkState → Option ManagerSet → List Action
change desired none found = []
change desired (some network) none = create_manager desired network ∷ []
change desired (some network) (some current) = diff_managers desired current network

abbrev pub owner : ManagerSet → String
owner mgr = mgr.owner_network_name

pub changes : List ManagerSet → List VlanNetworkState → List ManagerSet → List Action
changes current conns [] = []
changes current conns (d ∷ desired) =
    change d (network_named d.owner_network_name none conns)
      (search owner d.owner_network_name current)
    ++ changes current conns desired

-- The third loop.
pub deletions : List ManagerSet → List ManagerSet → List Action
deletions desired [] = []
deletions desired (m ∷ current) =
    let others = deletions desired current in
    if is_some (search owner m.owner_network_name desired)
    then others
    else delete_manager m ∷ others

-- diffStates
pub diff_states : List ManagerSet → List ManagerSet → List VlanNetworkState → List Action
diff_states desired current conns =
    let sorted_desired = sort_by owner desired in
    let sorted_current = sort_by owner current in
    let sorted_conns = sort_by (λ (ns : VlanNetworkState). ns.name) conns in
    spawns conns
    ++ (changes sorted_current sorted_conns sorted_desired
        ++ deletions sorted_desired sorted_current)
