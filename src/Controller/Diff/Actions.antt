-- ===== src/Controller/Diff/Actions.antt =====
-- Which actions diffStates asks for, by the name of their network or pod.
use vlanman.Prelude.{
  String, List, [], ◌∷◌, ◌++◌, Option, none, some, Bool, false, not, ◌&&◌, ◌||◌, ◌==◌, ◌≡◌, refl,
  ◌∙◌, ap, any, any-append, arith, eq_iff,
}
use vlanman.Prelude.Maps.{Dict, or_empty}
use vlanman.Prelude.Order.{
  sort_by, search, is_some, Sorted, sort_by-Sorted, any-sort_by, is_some-search,
}
use vlanman.Api.{ConnectionState}
use vlanman.Controller.Manager.{ManagerSet}
use vlanman.Controller.Diff.{
  VlanNetworkState, Action, create_manager, delete_manager, diff_managers, spawns_of, spawns,
  network_named, change, changes, deletions, diff_states, owner,
}

abbrev pub creates : String → Action → Bool
creates name (create_manager mgr _) = mgr.owner_network_name == name
creates name _ = false

abbrev pub deletes : String → Action → Bool
deletes name (delete_manager mgr) = mgr.owner_network_name == name
deletes name _ = false

abbrev pub owned_by : String → List ManagerSet → Bool
owned_by name = any (λ mgr. mgr.owner_network_name == name)

abbrev pub is_network : String → List VlanNetworkState → Bool
is_network name = any (λ ns. ns.name == name)

creates-spawns_of :
    (name : String) (conn : VlanNetworkState) (states : Dict ConnectionState)
    → any (creates name) (spawns_of conn states) ≡ false
unfolding spawns_of
creates-spawns_of name conn [] = refl
creates-spawns_of name conn ((k, v) ∷ rest) = ground (arith, creates-spawns_of name conn rest)

creates-spawns :
    (name : String) (conns : List VlanNetworkState) → any (creates name) (spawns conns) ≡ false
unfolding spawns
creates-spawns name [] = refl
creates-spawns name (conn ∷ conns) = ground (
  arith,
  any-append (creates name) (spawns_of conn (or_empty conn.status)) (spawns conns),
  creates-spawns_of name conn (or_empty conn.status),
  creates-spawns name conns,
)

creates-deletions :
    (name : String) (desired current : List ManagerSet)
    → any (creates name) (deletions desired current) ≡ false
unfolding deletions
creates-deletions name desired [] = refl
creates-deletions name desired (m ∷ current) =
    ground (arith, creates-deletions name desired current)

is_some-network_named :
    (name : String) (found : Option VlanNetworkState) (conns : List VlanNetworkState)
    → is_some (network_named name found conns) ≡ (is_some found || is_network name conns)
unfolding network_named
is_some-network_named name none [] = refl
is_some-network_named name (some _) [] = refl
is_some-network_named name found (ns ∷ conns) =
    ground
      (arith, is_some-network_named name (some ns) conns, is_some-network_named name found conns)

creates-change :
    (name : String) (d : ManagerSet) (network : Option VlanNetworkState) (found : Option ManagerSet)
    → any (creates name) (change d network found)
      ≡ (d.owner_network_name == name && (is_some network && not (is_some found)))
unfolding diff_managers
creates-change name d none found = ground arith
creates-change name d (some network) none = ground arith
creates-change name d (some network) (some current) = ground arith

creates-changes :
    (name : String) (current : List ManagerSet) (conns : List VlanNetworkState)
    (desired : List ManagerSet)
    → Sorted owner current
    → any (creates name) (changes current conns desired)
      ≡ (owned_by name desired && (is_network name conns && not (owned_by name current)))
unfolding changes
creates-changes name current conns [] sorted = refl
creates-changes name current conns (d ∷ desired) sorted = ground (
  arith,
  any-append (creates name)
      (change d (network_named d.owner_network_name none conns)
        (search owner d.owner_network_name current))
      (changes current conns desired),
  creates-change name d (network_named d.owner_network_name none conns)
      (search owner d.owner_network_name current),
  is_some-network_named d.owner_network_name none conns,
  is_some-search owner d.owner_network_name current sorted,
  eq_iff d.owner_network_name name,
  creates-changes name current conns desired sorted,
)

deletes-spawns_of :
    (name : String) (conn : VlanNetworkState) (states : Dict ConnectionState)
    → any (deletes name) (spawns_of conn states) ≡ false
unfolding spawns_of
deletes-spawns_of name conn [] = refl
deletes-spawns_of name conn ((k, v) ∷ rest) = ground (arith, deletes-spawns_of name conn rest)

deletes-spawns :
    (name : String) (conns : List VlanNetworkState) → any (deletes name) (spawns conns) ≡ false
unfolding spawns
deletes-spawns name [] = refl
deletes-spawns name (conn ∷ conns) = ground (
  arith,
  any-append (deletes name) (spawns_of conn (or_empty conn.status)) (spawns conns),
  deletes-spawns_of name conn (or_empty conn.status),
  deletes-spawns name conns,
)

deletes-change :
    (name : String) (d : ManagerSet) (network : Option VlanNetworkState) (found : Option ManagerSet)
    → any (deletes name) (change d network found) ≡ false
unfolding diff_managers
deletes-change name d none found = ground arith
deletes-change name d (some network) none = ground arith
deletes-change name d (some network) (some current) = ground arith

deletes-changes :
    (name : String) (current : List ManagerSet) (conns : List VlanNetworkState)
    (desired : List ManagerSet)
    → any (deletes name) (changes current conns desired) ≡ false
unfolding changes
deletes-changes name current conns [] = refl
deletes-changes name current conns (d ∷ desired) = ground (
  arith,
  any-append (deletes name)
      (change d (network_named d.owner_network_name none conns)
        (search owner d.owner_network_name current))
      (changes current conns desired),
  deletes-change name d (network_named d.owner_network_name none conns)
      (search owner d.owner_network_name current),
  deletes-changes name current conns desired,
)

deletes-deletions :
    (name : String) (desired current : List ManagerSet)
    → Sorted owner desired
    → any (deletes name) (deletions desired current)
      ≡ (owned_by name current && not (owned_by name desired))
unfolding deletions
deletes-deletions name desired [] sorted = refl
deletes-deletions name desired (m ∷ current) sorted = ground (
  arith,
  is_some-search owner m.owner_network_name desired sorted,
  eq_iff m.owner_network_name name,
  deletes-deletions name desired current sorted,
)

module _ (desired current : List ManagerSet) (conns : List VlanNetworkState) where
  abbrev pub wanted : List ManagerSet
  wanted = sort_by owner desired

  abbrev pub running : List ManagerSet
  running = sort_by owner current

  abbrev pub networks : List VlanNetworkState
  networks = sort_by (λ (ns : VlanNetworkState). ns.name) conns

  pub any-diff_states :
      (p : Action → Bool)
      → any p (diff_states desired current conns) ≡ (
          any p (spawns conns)
          || (any p (changes running networks wanted) || any p (deletions wanted running)))
  unfolding diff_states
  any-diff_states p =
      any-append p (spawns conns) (changes running networks wanted ++ deletions wanted running)
      ∙ ap (λ b. any p (spawns conns) || b)
          (any-append p (changes running networks wanted) (deletions wanted running))

  -- A manager is created for a name exactly when the name is desired, has a network, and has no
  -- manager that runs.
  pub diff_states-creates :
      (name : String)
      → any (creates name) (diff_states desired current conns)
        ≡ (owned_by name desired && (is_network name conns && not (owned_by name current)))
  diff_states-creates name = ground (
    arith,
    any-diff_states (creates name),
    creates-spawns name conns,
    creates-deletions name wanted running,
    creates-changes name running networks wanted (sort_by-Sorted owner current),
    any-sort_by owner (λ mgr. mgr.owner_network_name == name) desired,
    any-sort_by owner (λ mgr. mgr.owner_network_name == name) current,
    any-sort_by (λ (ns : VlanNetworkState). ns.name) (λ ns. ns.name == name) conns,
  )

  -- A manager is deleted for a name exactly when one runs for it and none is desired.
  pub diff_states-deletes :
      (name : String)
      → any (deletes name) (diff_states desired current conns)
        ≡ (owned_by name current && not (owned_by name desired))
  diff_states-deletes name = ground (
    arith,
    any-diff_states (deletes name),
    deletes-spawns name conns,
    deletes-changes name running networks wanted,
    deletes-deletions name wanted running (sort_by-Sorted owner desired),
    any-sort_by owner (λ mgr. mgr.owner_network_name == name) desired,
    any-sort_by owner (λ mgr. mgr.owner_network_name == name) current,
  )
