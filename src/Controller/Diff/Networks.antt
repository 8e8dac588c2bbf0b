-- ===== src/Controller/Diff/Networks.antt =====
-- The comparison for the networks of the cluster: the desired managers and the states are made from
-- one list of networks.
use vlanman.Prelude.{
  String, List, [], ◌∷◌, map, Bool, true, not, ◌&&◌, ◌==◌, ◌≡◌, refl, any, any-append, arith,
}
use vlanman.Api.{VlanNetwork}
use vlanman.Controller.Manager.{ManagerSet, create_desired_manager_set}
use vlanman.Controller.Diff.{
  VlanNetworkState, zero_state, state_of, states_of, create_desired_state, diff_states,
}
use vlanman.Controller.Diff.Actions.{
  creates, deletes, owned_by, is_network, diff_states-creates, diff_states-deletes,
}

abbrev is_named : String → List VlanNetwork → Bool
is_named name = any (λ (net : VlanNetwork). net.name == name)

owned_by-desired :
    (name : String) (nets : List VlanNetwork)
    → owned_by name (create_desired_state nets) ≡ is_named name nets
unfolding create_desired_state create_desired_manager_set
owned_by-desired name [] = refl
owned_by-desired name (net ∷ nets) = ground (arith, owned_by-desired name nets)

is_network-state_of :
    (name : String) (nets : List VlanNetwork)
    → is_network name (map state_of nets) ≡ is_named name nets
is_network-state_of name [] = refl
is_network-state_of name (net ∷ nets) = ground (arith, is_network-state_of name nets)

is_network-states_of :
    (name : String) (nets : List VlanNetwork)
    → is_named name nets ≡ true
    → is_network name (states_of nets) ≡ true
unfolding states_of
is_network-states_of name nets h = ground (
  arith,
  any-append (λ (ns : VlanNetworkState). ns.name == name) (map (λ _. zero_state) nets)
      (map state_of nets),
  is_network-state_of name nets,
)

-- For the networks of the cluster and any managers that run: a manager is created for a name
-- exactly when a network has the name and no manager runs for it, and deleted exactly when one
-- runs for it and no network has the name; the zero states change nothing of that.
pub diff_states-networks :
    (nets : List VlanNetwork) (current : List ManagerSet) (name : String)
    → (any (creates name) (diff_states (create_desired_state nets) current (states_of nets))
        ≡ (is_named name nets && not (owned_by name current)))
      × (any (deletes name) (diff_states (create_desired_state nets) current (states_of nets))
          ≡ (owned_by name current && not (is_named name nets)))
diff_states-networks nets current name = (
  ground (
    arith,
    diff_states-creates (create_desired_state nets) current (states_of nets) name,
    owned_by-desired name nets,
    is_network-states_of name nets,
  ),
  ground (
    arith,
    diff_states-deletes (create_desired_state nets) current (states_of nets) name,
    owned_by-desired name nets,
  ),
)
