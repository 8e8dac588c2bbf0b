-- ===== src/Controller/Reconcile/Network/Quiet.antt =====
-- A reconciliation of a cluster that is as it should be.
use vlanman.Prelude.{
  ℕ, String, List, [], ◌∷◌, map, none, some, inr, ◌≡◌, refl, sym, ◌∙◌, ap, All, Distinct,
}
use vlanman.Prelude.Decimal.{InBits}
use vlanman.Prelude.Maps.{or_empty}
use vlanman.Prelude.Run.{ok, return}
use vlanman.Errors.{nil}
use vlanman.Prelude.Ok.{wrap-call_then, wrap-lift_then, bind_then}
use vlanman.Kube.{DaemonSet}
use vlanman.Api.{VlanNetwork, manager_set_label_key}
use vlanman.Cluster.{Cluster, Event, Envs, label_exists, list_networks, list_daemon_sets}
use vlanman.Controller.Manager.{
  ManagerSet, create_desired_manager_set, daemon_set_with, manager_from_set,
}
use vlanman.Controller.Manager.Observed.{manager_from_set-daemon_set}
use vlanman.Controller.Diff.{
  managers_of, states_of, get_current_state, create_desired_state, diff_states,
}
use vlanman.Controller.Diff.Quiet.{AllUp, diff_states-quiet}
use vlanman.Controller.Reconcile.Network.{run_actions, reconcile_network}

-- The manager of the network is read back from its DaemonSet as it is desired.
abbrev pub IsReadBack : Cluster → (VlanNetwork → String) → VlanNetwork → Type 0
IsReadBack c text net =
    (c.unmarshal_gateways (text net) ≡ inr net.spec.gateways)
    × InBits 64 net.spec.vlan_id
    × (net.spec.mappings ≡ some [])

-- The DaemonSets that the operator makes for the networks, with the texts of their gateways.
abbrev pub made_for : Envs → (VlanNetwork → String) → List VlanNetwork → List DaemonSet
made_for env text = map (λ net. daemon_set_with (create_desired_manager_set net) env (text net))

module _ (c : Cluster) (env : Envs) (text : VlanNetwork → String) where
  same_mappings :
      (mgr : ManagerSet) → mgr.mappings ≡ some [] → record mgr { mappings = some [] } ≡ mgr
  same_mappings mgr e = λ i. record mgr { mappings = sym e i }

  manager-IsReadBack :
      (net : VlanNetwork)
      → IsReadBack c text net
      → manager_from_set c (daemon_set_with (create_desired_manager_set net) env (text net))
        ≡ ok (create_desired_manager_set net)
  unfolding create_desired_manager_set
  manager-IsReadBack net (gateways, fits, empty) =
      manager_from_set-daemon_set c (create_desired_manager_set net) env (text net) gateways fits
      ∙ ap ok (same_mappings (create_desired_manager_set net) empty)

  managers_of-cons :
      (m : DaemonSet) (rest : List DaemonSet) (manager : ManagerSet) (others : List ManagerSet)
      (h : List Event)
      → manager_from_set c m ≡ ok manager
      → managers_of c rest h ≡ (ok others, h)
      → managers_of c (m ∷ rest) h ≡ (ok (manager ∷ others), h)
  unfolding managers_of return
  managers_of-cons m rest manager others h p q = rw (p, managers_of) (bind_then _ _ h q refl)

  managers_of-made :
      (nets : List VlanNetwork) (h : List Event)
      → All (IsReadBack c text) nets
      → managers_of c (made_for env text nets) h ≡ (ok (create_desired_state nets), h)
  unfolding create_desired_state managers_of return
  managers_of-made [] h all = refl
  managers_of-made (net ∷ nets) h (back, all) =
      managers_of-cons _ (made_for env text nets) _ _ h (manager-IsReadBack net back)
        (managers_of-made nets h all)

  get_current_state-made :
      (nets : List VlanNetwork) (h : List Event)
      → c.list_networks_answer h ≡ inr nets
      → c.new_exists_requirement ≡ inr tt
      → c.list_daemon_sets_answer (label_exists manager_set_label_key) (list_networks ∷ h)
        ≡ inr (made_for env text nets)
      → All (IsReadBack c text) nets
      → get_current_state c h ≡ (
        ok (create_desired_state nets, states_of nets),
        list_daemon_sets (label_exists manager_set_label_key) ∷ list_networks ∷ h,
      )
  unfolding get_current_state return
  get_current_state-made nets h listed requirement sets back = wrap-call_then _ _ _ _ h listed (
      wrap-lift_then _ _ _ _ requirement
        (wrap-call_then _ _ _ _ _ sets (bind_then _ _ _ (managers_of-made nets _ back) refl)))

module _ (c : Cluster) (env : Envs) (fuel : ℕ) (text : VlanNetwork → String)
    (nets : List VlanNetwork) (h : List Event) where
  -- Where the networks have different names and every connection in their status is up, a DaemonSet
  -- runs for each as the operator makes it, and no other, and each is read back as its network asks
  -- for, so its mappings are an empty list that is not nil: a reconciliation of the networks makes three
  -- calls, which all read, and ends without an error and without a requeue.
  pub reconcile_network-quiet :
      c.list_networks_answer h ≡ inr nets
      → c.list_networks_answer (list_networks ∷ h) ≡ inr nets
      → c.new_exists_requirement ≡ inr tt
      → c.list_daemon_sets_answer
          (label_exists manager_set_label_key)
          (list_networks ∷ list_networks ∷ h)
        ≡ inr (made_for env text nets)
      → Distinct (map (λ (net : VlanNetwork). net.name) nets)
      → All (λ (net : VlanNetwork). AllUp (or_empty net.status.state)) nets
      → All (IsReadBack c text) nets
      → reconcile_network c env fuel h ≡ (
        ok (some none),
        list_daemon_sets (label_exists manager_set_label_key) ∷ list_networks ∷ list_networks ∷ h,
      )
  unfolding reconcile_network return run_actions
  reconcile_network-quiet first second requirement sets distinct up back =
      wrap-call_then _ _ _ _ h first (
        bind_then _ _ _
          (get_current_state-made c env text nets (list_networks ∷ h) second requirement sets back)
          (bind_then _ _ _ {a = some nil} (nothing_done _) refl))
    where
      nothing_done :
          (h1 : List Event)
          → run_actions c env fuel
              (diff_states (create_desired_state nets) (create_desired_state nets) (states_of nets))
              h1
            ≡ (ok (some nil), h1)
      nothing_done h1 = rw (diff_states-quiet nets distinct up) refl
