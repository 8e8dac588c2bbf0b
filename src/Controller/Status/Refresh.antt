-- ===== src/Controller/Status/Refresh.antt =====
-- What updateVlanNetworkStatus computes from the network, the names of the manager pods and the
-- worker pods. Instants and durations are nanoseconds; the zero time is 0.
use vlanman.Prelude.{
  ℕ, ◌+◌, ◌-◌, ◌*◌, ◌^◌, min, ℤ, pos, negsuc, String, List, [], ◌∷◌, map, Option, none, some, Bool,
  true, not, ◌||◌, ◌==◌, any, contains, delete_func, elems, ltb, leb, int_le, if◌then◌else◌,
}
use vlanman.Prelude.Maps.{Dict, lookup, insert, delete, keys, keep_entries, or_empty}
use vlanman.Prelude.Text.{address_of}
use vlanman.Kube.{Pod}
use vlanman.Api.{
  VlanNetwork, VlanNetworkPool, VlanNetworkStatus, reconciler_pending_ips_timeout_seconds,
}
use vlanman.Cluster.{Moment, at_pending, at_requeue}
use vlanman.Controller.Vlan.{extract_vlan, holds}

abbrev pub has_pool : List VlanNetworkPool → String → Bool
has_pool pools name = any (λ p. name == p.name) pools

-- The first loop over FreeIPs, whose names are `names`, as it acts on one of the two maps.
unfoldable pub drop_stale {ℓ} : {V : Type ℓ} → List VlanNetworkPool → List String → Dict V → Dict V
drop_stale pools [] m = m
drop_stale pools (name ∷ names) m =
    drop_stale pools names (if has_pool pools name then m else delete name m)

-- The loop over the pools, as it acts on FreeIPs and on PendingIPs.
unfoldable pub set_free : List VlanNetworkPool → Dict (List String) → Dict (List String)
set_free [] free = free
set_free (pool ∷ pools) free = set_free pools (insert pool.name pool.addresses free)

unfoldable pub set_pending : List VlanNetworkPool → Dict (Dict String) → Dict (Dict String)
set_pending [] pending = pending
set_pending (pool ∷ pools) pending =
    set_pending pools
      (elim (lookup pool.name pending) [ none ↦ insert pool.name [] pending | some _ ↦ pending ])

-- The addresses without a subnet that the worker pods hold.
unfoldable pub pod_ips : List Pod → List String
pod_ips [] = []
pod_ips (pod ∷ pods) =
    let rest = pod_ips pods in
    let (full, found) = extract_vlan pod in if found then address_of full ∷ rest else rest

abbrev pub timeout : ℕ
timeout = reconciler_pending_ips_timeout_seconds * 1000000000

module _ (parse_time : String → Option ℕ) (clock : Moment → ℕ) (pods : List Pod) where
  -- The test of the DeleteFunc over one pool's pending addresses.
  unfoldable pub is_settled : String → String → String → Bool
  is_settled pool ip stamp = elim (parse_time stamp) [
    | none ↦ true
    | some t ↦
        any (λ pod. holds pod (address_of ip)) pods
        || ltb (t + timeout) (clock (at_pending pool ip))
  ]

  unfoldable pub drop_settled : Dict (Dict String) → Dict (Dict String)
  drop_settled [] = []
  drop_settled ((pool, pending) ∷ rest) =
      (pool, keep_entries (λ ip stamp. not (is_settled pool ip stamp)) pending) ∷ drop_settled rest

-- The DeleteFunc over one pool's free addresses. `pending_names` are the keys of PendingIPs, which
-- are names of pools.
unfoldable pub is_taken : List String → List String → String → Bool
is_taken pending_names used ip =
    contains pending_names (address_of ip) || contains used (address_of ip)

unfoldable pub drop_taken : List String → List String → Dict (List String) → Dict (List String)
drop_taken pending_names used [] = []
drop_taken pending_names used ((pool, addresses) ∷ rest) =
    (pool, delete_func (is_taken pending_names used) addresses) ∷ drop_taken pending_names used rest

-- t.Sub(now), which saturates at the bounds of int64.
pub duration : ℕ → ℕ → ℤ
duration t at =
    if leb at t then pos (min (t - at) (2 ^ 63 - 1)) else negsuc (min (at - t - 1) (2 ^ 63 - 1))

abbrev pub int_min : ℤ → ℤ → ℤ
int_min a b = if int_le a b then a else b

-- slices.Min of a list that is not empty, `a` being its head.
unfoldable pub min_of : ℤ → List ℤ → ℤ
min_of a [] = a
min_of a (b ∷ rest) = min_of (int_min a b) rest

module _ (parse_time : String → Option ℕ) (clock : Moment → ℕ) where
  -- time.Until(t.Add(timeout)); a stamp that cannot be parsed gives the zero time.
  abbrev pub remaining : String → String × String → ℤ
  remaining pool (ip, stamp) = elim (parse_time stamp) [
    | none ↦ duration timeout (clock (at_requeue pool ip))
    | some t ↦ duration (t + timeout) (clock (at_requeue pool ip))
  ]

  -- What one round of the last loop assigns to requeueIn.
  unfoldable pub requeue_of : String → Dict String → Option ℤ
  requeue_of pool [] = none
  requeue_of pool (entry ∷ entries) =
      some (min_of (remaining pool entry) (map (remaining pool) entries))

  unfoldable pub requeue_in : Option ℤ → Dict (Dict String) → Option ℤ
  requeue_in last [] = last
  requeue_in last ((pool, pending) ∷ rest) = requeue_in (requeue_of pool pending) rest

  -- The new status and requeueIn.
  unfoldable pub refresh : List String → List Pod → VlanNetwork → VlanNetworkStatus × Option ℤ
  refresh manager_names pods net =
      let pools = elems net.spec.pools in
      let free = or_empty net.status.free_ips in
      let pending =
        drop_settled parse_time clock pods
          (set_pending pools (drop_stale pools (keys free) (or_empty net.status.pending_ips))) in
      (
        record net.status {
          state = some (keep_entries (λ k _. contains manager_names k) (or_empty net.status.state));
          free_ips = some (
              drop_taken (keys pending) (pod_ips pods)
                (set_free pools (drop_stale pools (keys free) free)));
          pending_ips = some pending;
        },
        requeue_in none pending,
      )
