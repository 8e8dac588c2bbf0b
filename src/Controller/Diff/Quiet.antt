-- ===== src/Controller/Diff/Quiet.antt =====
-- A cluster that is as the networks ask for needs no action.
use vlanman.Prelude.{
  List, [], ◌∷◌, ◌++◌, map, Option, none, some, true, ◌==◌, ◌≡◌, refl, sym, ap, subst, All,
  Distinct,
}
use vlanman.Prelude.Equality.{deep_equal_iff}
use vlanman.Prelude.Maps.{Dict, or_empty}
use vlanman.Prelude.Order.{sort_by, search}
use vlanman.Prelude.Order.Found.{search-sort_by}
use vlanman.Api.{VlanNetwork, ConnectionState, state_up}
use vlanman.Controller.Manager.{ManagerSet, create_desired_manager_set}
use vlanman.Controller.Diff.{
  VlanNetworkState, zero_state, state_of, states_of, ManagerSet-discrete, diff_managers, spawns_of,
  spawns, network_named, change, changes, owner, deletions, create_desired_state, diff_states,
}

-- Every connection is up.
abbrev pub AllUp : Dict ConnectionState → Type 0
AllUp [] = Unit
AllUp ((pod, state) ∷ rest) = ((state == state_up) ≡ true) × AllUp rest

spawns_of-AllUp :
    (conn : VlanNetworkState) (states : Dict ConnectionState)
    → AllUp states
    → spawns_of conn states ≡ []
unfolding spawns_of
spawns_of-AllUp conn [] up = refl
spawns_of-AllUp conn ((pod, state) ∷ rest) (up, all) = rw up (spawns_of-AllUp conn rest all)

spawns-zero :
    (nets : List VlanNetwork) (conns : List VlanNetworkState)
    → spawns (map (λ _. zero_state) nets ++ conns) ≡ spawns conns
unfolding spawns spawns_of
spawns-zero [] conns = refl
spawns-zero (net ∷ nets) conns = spawns-zero nets conns

spawns-AllUp :
    (nets : List VlanNetwork)
    → All (λ (net : VlanNetwork). AllUp (or_empty net.status.state)) nets
    → spawns (map state_of nets) ≡ []
unfolding spawns
spawns-AllUp [] all = refl
spawns-AllUp (net ∷ nets) (up, all) =
    rw (spawns_of-AllUp (state_of net) (or_empty net.status.state) up) (spawns-AllUp nets all)

diff_managers_self : (d : ManagerSet) (network : VlanNetworkState) → diff_managers d d network ≡ []
unfolding diff_managers
diff_managers_self d network = rw ((deep_equal_iff ManagerSet-discrete d d).1 refl) refl

change_self : (d : ManagerSet) (network : Option VlanNetworkState) → change d network (some d) ≡ []
change_self d none = refl
change_self d (some network) = diff_managers_self d network

changes-found :
    (current : List ManagerSet) (conns : List VlanNetworkState) (desired : List ManagerSet)
    → All (λ (d : ManagerSet). search owner (owner d) current ≡ some d) desired
    → changes current conns desired ≡ []
unfolding changes
changes-found current conns [] all = refl
changes-found current conns (d ∷ desired) (found, all) =
    rw (found, change_self d (network_named d.owner_network_name none conns))
      (changes-found current conns desired all)

deletions-found :
    (desired current : List ManagerSet)
    → All (λ (m : ManagerSet). search owner (owner m) desired ≡ some m) current
    → deletions desired current ≡ []
unfolding deletions
deletions-found desired [] all = refl
deletions-found desired (m ∷ current) (found, all) = rw found (deletions-found desired current all)

names-desired :
    (nets : List VlanNetwork)
    → map owner (create_desired_state nets) ≡ map (λ (net : VlanNetwork). net.name) nets
unfolding create_desired_state create_desired_manager_set
names-desired [] = refl
names-desired (net ∷ nets) = ap (λ names. net.name ∷ names) (names-desired nets)

-- Where the names of the networks differ, a manager runs for each as it is desired, no other runs, and
-- every connection is up, nothing is to be done.
pub diff_states-quiet :
    (nets : List VlanNetwork)
    → Distinct (map (λ (net : VlanNetwork). net.name) nets)
    → All (λ (net : VlanNetwork). AllUp (or_empty net.status.state)) nets
    → diff_states (create_desired_state nets) (create_desired_state nets) (states_of nets) ≡ []
unfolding diff_states states_of
diff_states-quiet nets distinct up =
    rw
      (
        spawns-zero nets (map state_of nets),
        spawns-AllUp nets up,
        changes-found _ (sort_by (λ (ns : VlanNetworkState). ns.name) (states_of nets)) _ found,
        deletions-found _ _ found,
      )
      refl
  where
    found :
        All
          (λ (d : ManagerSet).
            search owner (owner d) (sort_by owner (create_desired_state nets)) ≡ some d)
          (sort_by owner (create_desired_state nets))
    found =
        search-sort_by owner (create_desired_state nets)
          (subst Distinct (sym (names-desired nets)) distinct)
