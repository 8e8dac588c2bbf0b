-- ===== src/Controller/Manager/Observed.antt =====
-- What managerFromSet reads from the DaemonSet that daemonSetFromManager makes.
use vlanman.Prelude.{◌≡◌, String, inr, some, [], arith}
use vlanman.Prelude.Decimal.{parse_int-format_int, InBits}
use vlanman.Prelude.Run.{ok}
use vlanman.Cluster.{Cluster, Envs}
use vlanman.Controller.Manager.{ManagerSet, daemon_set_with, manager_from_set}

module _ (c : Cluster) (mgr : ManagerSet) (e : Envs) (text : String) where
  -- Where the gateways are read back from their text and the VLAN id fits in 64 bits, the ManagerSet is read
  -- back from its DaemonSet, but for the mappings, which become the empty list.
  pub manager_from_set-daemon_set :
      c.unmarshal_gateways text ≡ inr mgr.gateways
      → InBits 64 mgr.vlan_id
      → manager_from_set c (daemon_set_with mgr e text) ≡ ok (record mgr { mappings = some [] })
  unfolding manager_from_set daemon_set_with
  manager_from_set-daemon_set h fits = ground (arith, h, parse_int-format_int 64 mgr.vlan_id fits)
