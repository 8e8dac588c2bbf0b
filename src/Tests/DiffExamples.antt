-- ===== src/Tests/DiffExamples.antt =====
-- The comparison of managers on the fixtures.
use vlanman.Prelude.{[], ◌∷◌, some, true, false, ◌≡◌, refl, ◌↔◌, any, arith}
use vlanman.Controller.Manager.{
  ManagerSet, create_desired_manager_set, daemon_set_with, manager_from_set,
}
use vlanman.Controller.Diff.{VlanNetworkState, diff_states, zero_state}
use vlanman.Controller.Diff.Actions.{creates, deletes}
use vlanman.Controller.Diff.Spawns.{spawns_at, diff_states-spawns_at}
use vlanman.Controller.Diff.Settled.{diff_observed, diff_observed-settled_iff}
use vlanman.Controller.Diff.{create_desired_state, states_of}
use vlanman.Controller.Diff.Networks.{diff_states-networks}
use vlanman.Tests.Fixtures.{office, env, healthy}

abbrev office_manager : ManagerSet
office_manager = create_desired_manager_set office

abbrev old_manager : ManagerSet
old_manager = record office_manager { owner_network_name = "old" }

abbrev office_state : VlanNetworkState
office_state = record zero_state { name = "net"; status = some (("vlan-manager-x", "Down") ∷ []) }

diff_states-spawns_at_example :
    any
      (spawns_at "net" "vlan-manager-x")
      (diff_states (office_manager ∷ []) (old_manager ∷ []) (zero_state ∷ office_state ∷ []))
    ≡ true
diff_states-spawns_at_example =
    diff_states-spawns_at (office_manager ∷ []) (old_manager ∷ []) (zero_state ∷ office_state ∷ [])
      "net" "vlan-manager-x"

diff_observed-settled_iff_example :
    (diff_observed office_manager office_state
        (manager_from_set healthy (daemon_set_with office_manager env "[]"))
      ≡ [])
    ↔ (office_manager.mappings ≡ some [])
unfolding create_desired_manager_set
diff_observed-settled_iff_example =
    diff_observed-settled_iff healthy office_manager env "[]" office_state refl (omega arith)

diff_states-networks_example :
    (any (creates "net") (
        diff_states
          (create_desired_state (office ∷ []))
          (old_manager ∷ [])
          (states_of (office ∷ [])))
      ≡ true)
    × (any (deletes "net") (
          diff_states
            (create_desired_state (office ∷ []))
            (old_manager ∷ [])
            (states_of (office ∷ [])))
        ≡ false)
diff_states-networks_example = diff_states-networks (office ∷ []) (old_manager ∷ []) "net"
