-- ===== src/Tests/StatusExamples.antt =====
-- The status update and the manager's DaemonSet on the fixtures.
use vlanman.Prelude.{
  ℕ, pos, String, List, [], ◌∷◌, ◌++◌, Option, none, some, ◌≡◌, refl, true, false, any, contains,
  not, ◌&&◌, delete_func, elems, if◌then◌else◌,
}
use vlanman.Prelude.Maps.{lookup, keys, keep_entries, or_empty}
use vlanman.Prelude.Text.{address_of}
use vlanman.Kube.{Pod}
use vlanman.Cluster.{Moment}
use vlanman.Ipam.{pick_address, pending_of, free_of}
use vlanman.Controller.Vlan.{holds, extract_vlan}
use vlanman.Controller.Status.Refresh.{
  drop_stale, set_free, set_pending, drop_taken, drop_settled, refresh, has_pool, is_settled,
  is_taken, pod_ips, requeue_in,
}
use vlanman.Controller.Status.Free.{refresh-free, pending_stays_free, pool_addresses, is_kept_out}
use vlanman.Controller.Status.Pending.{refresh-pending, Requeues, requeue_in-Requeues, stays}
use vlanman.Controller.Manager.{ManagerSet}
use vlanman.Prelude.{◌≤◌, ◌+◌, ◌⊎◌, inl}
use vlanman.Prelude.Ends.{Ends}
use vlanman.Errors.{external}
use vlanman.Api.{VlanNetworkStatus}
use vlanman.Cluster.{Cluster}
use vlanman.Controller.Reconcile.{reconcile_pod}
use vlanman.Controller.Reconcile.Rounds.{rounds_in, reconcile_pod-rounds}
use vlanman.Tests.Fixtures.{office_status, office, worker_pod, env, healthy}

abbrev parse : String → Option ℕ
parse = healthy.parse_time

abbrev clock : Moment → ℕ
clock _ = 100

refresh-free_example :
    free_of (refresh parse clock [] (worker_pod ∷ []) office).0 "office"
    ≡ delete_func (is_kept_out (worker_pod ∷ []) office) (pool_addresses office "office")
refresh-free_example = refresh-free parse clock [] (worker_pod ∷ []) office "office"

abbrev workers : List Pod
workers = worker_pod ∷ []

-- The second address of the pool: the first is held by the worker pod, and what is pending is free.
picked :
    pick_address [] (free_of (refresh parse clock [] workers office).0 "office")
    ≡ some "10.0.0.2/24"
unfolding pick_address free_of refresh drop_stale set_free set_pending drop_taken drop_settled
    is_settled is_taken pod_ips extract_vlan address_of
picked = refl

unheld : any (λ pod. holds pod (address_of "10.0.0.2/24")) workers ≡ false
unfolding extract_vlan address_of
unheld = refl

listed : contains (pool_addresses office "office") "10.0.0.2/24" ≡ true
unfolding pool_addresses
listed = refl

unnamed : has_pool (elems office.spec.pools) (address_of "10.0.0.2/24") ≡ false
unfolding address_of
unnamed = refl

unkeyed : lookup (address_of "10.0.0.2/24") (or_empty office.status.pending_ips) ≡ none
unfolding address_of
unkeyed = refl

-- The address is pending in the pool, and stays free.
pending_stays_free_example :
    contains (free_of (refresh parse clock [] workers office).0 "office") "10.0.0.2/24" ≡ true
pending_stays_free_example =
    pending_stays_free parse clock [] workers office "office" "10.0.0.2/24" listed unheld unnamed
      unkeyed

refresh-pending_example :
    pending_of (refresh parse clock [] workers office).0 "office"
    ≡ keep_entries (stays parse clock workers "office") (
        if contains (keys (or_empty office.status.free_ips)) "office"
          && not (has_pool (elems office.spec.pools) "office")
        then []
        else pending_of office.status "office")
refresh-pending_example = refresh-pending parse clock workers [] office "office"

-- The first pool's address times out at 35 s, and the second pool has none: no requeue.
requeue_in-Requeues_example : Requeues parse clock "lab" [] (
    requeue_in parse clock none
      ((("office", ("10.0.0.2/24", "t0") ∷ []) ∷ []) ++ (("lab", []) ∷ [])))
requeue_in-Requeues_example =
    requeue_in-Requeues parse clock (("office", ("10.0.0.2/24", "t0") ∷ []) ∷ []) "lab" []

abbrev office_manager : ManagerSet
office_manager = record {
  owner_network_name = "net";
  vlan_id = pos 7;
  gateways = some [];
  manager_affinity = none;
  mappings = some ((record { node_name = "node-a"; interface = "eth0" }) ∷ []);
}

-- The networks cannot be listed.
abbrev blind : Cluster
blind = record healthy { list_networks_answer = λ _. inl (external "Forbidden") }

abbrev half_up : VlanNetworkStatus
half_up = record office_status { state = some (("a", "Up") ∷ ("b", "Down") ∷ []) }

reconcile_pod-rounds_example :
    Ends
      (λ _ h. rounds_in h ≤ 0 + 6)
      (λ _ h. (rounds_in h ≡ 0) ⊎ (rounds_in h ≡ 0 + 6))
      (λ _. ⊥)
      (reconcile_pod blind env (record { namespace = "default"; name = "web" }) [])
unfolding rounds_in
reconcile_pod-rounds_example =
    reconcile_pod-rounds blind env (record { namespace = "default"; name = "web" }) 0 [] refl
