-- ===== src/Cmd/Manager/FromOperator.antt =====
-- The manager as the operator starts it.
use vlanman.Prelude.{
  ℤ, pos, negsuc, String, List, ◌==◌, ◌^◌, ◌-◌, elems, false, not, ◌≡◌, ◌≢◌, refl, arith, inr,
  int_le, eq_iff, ◌||◌,
}
use vlanman.Prelude.Text.{◌⧺◌}
use vlanman.Prelude.Decimal.{format_int, InBits, parse_int-format_int, format_int-ne-nil}
use vlanman.Prelude.Run.{ok, ◌>>=◌}
use vlanman.Api.{leader_election_lease_name}
use vlanman.Cluster.{Envs}
use vlanman.Controller.Manager.{ManagerSet, daemon_set_with, manager_container}
use vlanman.Host.{Host, HostEvent, getenv, first_env}
use vlanman.Cmd.Manager.{get_envs}

ne-nil : (s : String) → s ≢ "" → (s == "") ≡ false
ne-nil s h = ground (arith, eq_iff s "")

in_int :
    (i : ℤ)
    → InBits 64 i
    → (not (int_le i (pos (2 ^ 63 - 1))) || not (int_le (negsuc (2 ^ 63 - 1)) i)) ≡ false
in_int (pos n) b = ground arith
in_int (negsuc n) b = ground arith

-- In the first container of the DaemonSet that the operator makes, the manager reads back the network,
-- the namespace, the VLAN, the name of the lock and the gateways, where the network has a name, the
-- VLAN is a 64-bit integer, and the text of the gateways is not empty and is read back as they are.
pub get_envs-daemon_set_with :
    (host : Host) (mgr : ManagerSet) (e : Envs) (text : String) (h : List HostEvent)
    → mgr.owner_network_name ≢ ""
    → InBits 64 mgr.vlan_id
    → text ≢ ""
    → host.unmarshal_gateways text ≡ inr (elems mgr.gateways)
    → get_envs host (first_env (daemon_set_with mgr e text).template.containers) h ≡ (
      ok (record {
        owner_net_name = mgr.owner_network_name;
        namespace = e.namespace_name;
        vlan_id = mgr.vlan_id;
        lock_name = leader_election_lease_name ⧺ ("-" ⧺ mgr.owner_network_name);
        gateways = elems mgr.gateways;
      }),
      h,
    )
unfolding get_envs daemon_set_with manager_container getenv ◌>>=◌
get_envs-daemon_set_with host mgr e text h named in_bits some_text read =
    rw
      (
        ne-nil mgr.owner_network_name named,
        ne-nil (format_int mgr.vlan_id) (format_int-ne-nil mgr.vlan_id),
        parse_int-format_int 64 mgr.vlan_id in_bits,
        in_int mgr.vlan_id in_bits,
        ne-nil text some_text,
        read,
      )
      refl
