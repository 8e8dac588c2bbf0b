-- ===== src/Controller/Diff/Spawns.antt =====
-- Which interfaces diffStates asks to make again.
use vlanman.Prelude.{
  String, List, [], ◌∷◌, Option, none, some, Bool, false, not, ◌&&◌, ◌||◌, ◌==◌, ◌≡◌, refl, any,
  any-append, arith,
}
use vlanman.Prelude.Maps.{Dict, or_empty}
use vlanman.Prelude.Order.{search}
use vlanman.Api.{ConnectionState, state_up}
use vlanman.Controller.Manager.{ManagerSet}
use vlanman.Controller.Diff.{
  VlanNetworkState, Action, spawn_interface, diff_managers, owner, spawns_of, spawns, network_named,
  change, changes, deletions, diff_states,
}
use vlanman.Controller.Diff.Actions.{any-diff_states, wanted, running, networks}

-- The interface of a pod is made again, for a network of that name.
abbrev pub spawns_at : String → String → Action → Bool
spawns_at network pod (spawn_interface pod_name conn) = conn.name == network && pod_name == pod
spawns_at network pod _ = false

-- Some connection of that pod is not up.
abbrev pub has_down : String → Dict ConnectionState → Bool
has_down pod [] = false
has_down pod ((k, v) ∷ rest) = (k == pod && not (v == state_up)) || has_down pod rest

spawns_at-spawns_of :
    (network pod : String) (conn : VlanNetworkState) (states : Dict ConnectionState)
    → any (spawns_at network pod) (spawns_of conn states)
      ≡ (conn.name == network && has_down pod states)
unfolding spawns_of
spawns_at-spawns_of network pod conn [] = ground arith
spawns_at-spawns_of network pod conn ((k, v) ∷ rest) =
    ground (arith, spawns_at-spawns_of network pod conn rest)

spawns_at-spawns :
    (network pod : String) (conns : List VlanNetworkState)
    → any (spawns_at network pod) (spawns conns)
      ≡ any (λ ns. ns.name == network && has_down pod (or_empty ns.status)) conns
unfolding spawns
spawns_at-spawns network pod [] = refl
spawns_at-spawns network pod (conn ∷ conns) = ground (
  arith,
  any-append (spawns_at network pod) (spawns_of conn (or_empty conn.status)) (spawns conns),
  spawns_at-spawns_of network pod conn (or_empty conn.status),
  spawns_at-spawns network pod conns,
)

spawns_at-change :
    (network pod : String) (d : ManagerSet) (ns : Option VlanNetworkState)
    (found : Option ManagerSet)
    → any (spawns_at network pod) (change d ns found) ≡ false
unfolding diff_managers
spawns_at-change network pod d none found = ground arith
spawns_at-change network pod d (some ns) none = ground arith
spawns_at-change network pod d (some ns) (some current) = ground arith

spawns_at-changes :
    (network pod : String) (current : List ManagerSet) (conns : List VlanNetworkState)
    (desired : List ManagerSet)
    → any (spawns_at network pod) (changes current conns desired) ≡ false
unfolding changes
spawns_at-changes network pod current conns [] = refl
spawns_at-changes network pod current conns (d ∷ desired) = ground (
  arith,
  any-append (spawns_at network pod)
      (change d (network_named d.owner_network_name none conns)
        (search owner d.owner_network_name current))
      (changes current conns desired),
  spawns_at-change network pod d (network_named d.owner_network_name none conns)
      (search owner d.owner_network_name current),
  spawns_at-changes network pod current conns desired,
)

spawns_at-deletions :
    (network pod : String) (desired current : List ManagerSet)
    → any (spawns_at network pod) (deletions desired current) ≡ false
unfolding deletions
spawns_at-deletions network pod desired [] = refl
spawns_at-deletions network pod desired (m ∷ current) =
    ground (arith, spawns_at-deletions network pod desired current)

-- The interface of a pod is made again for a network exactly when a network of that name has a
-- connection of the pod in its status that is not up, whatever managers are desired or run.
pub diff_states-spawns_at :
    (desired current : List ManagerSet) (conns : List VlanNetworkState) (network pod : String)
    → any (spawns_at network pod) (diff_states desired current conns)
      ≡ any (λ ns. ns.name == network && has_down pod (or_empty ns.status)) conns
diff_states-spawns_at desired current conns network pod = ground (
  arith,
  any-diff_states desired current conns (spawns_at network pod),
  spawns_at-spawns network pod conns,
  spawns_at-changes network pod (running desired current conns) (networks desired current conns)
      (wanted desired current conns),
  spawns_at-deletions network pod (wanted desired current conns) (running desired current conns),
)
