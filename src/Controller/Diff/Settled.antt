-- ===== src/Controller/Diff/Settled.antt =====
-- Whether a manager that runs as it was made is left alone.
use vlanman.Prelude.{String, List, [], some, ◌≡◌, refl, sym, ◌∙◌, ap, ◌↔◌, inr, inl, Bool-cases}
use mathlib.Core.Bool.{false≢true}
use vlanman.Prelude.Decimal.{InBits}
use vlanman.Prelude.Equality.{deep_equal, deep_equal_iff}
use vlanman.Prelude.Run.{Result, ok}
use vlanman.Errors.{GoError}
use vlanman.Cluster.{Cluster, Envs}
use vlanman.Controller.Manager.{ManagerSet, daemon_set_with, manager_from_set}
use vlanman.Controller.Manager.Observed.{manager_from_set-daemon_set}
use vlanman.Controller.Diff.{VlanNetworkState, Action, diff_managers, ManagerSet-discrete}

abbrev seen : ManagerSet → ManagerSet
seen mgr = record mgr { mappings = some [] }

-- The actions for a desired manager and what getCurrentState reads for it.
abbrev pub diff_observed : ManagerSet → VlanNetworkState → Result GoError ManagerSet → List Action
diff_observed mgr network (ok current) = diff_managers mgr current network
diff_observed mgr network _ = []

seen_iff : (mgr : ManagerSet) → (mgr ≡ seen mgr) ↔ (mgr.mappings ≡ some [])
seen_iff mgr = (ap (λ (m : ManagerSet). m.mappings), λ same. λ i. record mgr { mappings = same i })

update_iff :
    (mgr : ManagerSet) (network : VlanNetworkState)
    → (diff_managers mgr (seen mgr) network ≡ []) ↔ (mgr.mappings ≡ some [])
unfolding diff_managers
update_iff mgr network = elim (Bool-cases (deep_equal ManagerSet-discrete mgr (seen mgr))) [
  | inl same ↦ rw same (
    λ _. (seen_iff mgr).0 ((deep_equal_iff ManagerSet-discrete mgr (seen mgr)).0 same),
    λ _. refl,
  )
  | inr other ↦ rw other (
    λ nothing. cc,
    λ empty. absurd (
        false≢true (
          sym other
          ∙ (deep_equal_iff ManagerSet-discrete mgr (seen mgr)).1 ((seen_iff mgr).1 empty))),
  )
]

module _ (c : Cluster) (mgr : ManagerSet) (e : Envs) (text : String)
    (network : VlanNetworkState) where
  -- Where the gateways are read back from their text and the VLAN id fits in 64 bits, a manager
  -- whose DaemonSet is as it was made is left alone exactly when its mappings are an empty list that
  -- is not nil; otherwise it is updated.
  pub diff_observed-settled_iff :
      c.unmarshal_gateways text ≡ inr mgr.gateways
      → InBits 64 mgr.vlan_id
      → (diff_observed mgr network (manager_from_set c (daemon_set_with mgr e text)) ≡ [])
        ↔ (mgr.mappings ≡ some [])
  diff_observed-settled_iff h fits =
      rw (manager_from_set-daemon_set c mgr e text h fits) (update_iff mgr network)
