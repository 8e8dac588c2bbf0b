-- ===== src/Ipam.antt =====
-- The choice of a pod's address: PopulateStatus of pkg/utils/utils.go and the loop of Default in
-- internal/webhook/corev1/webhook.go.
pub mod Choice
pub mod Series
pub mod Admission
use vlanman.Prelude.{ℕ, String, List, [], ◌∷◌, Option, none, some, ◌==◌, contains, if◌then◌else◌}
use vlanman.Prelude.Maps.{Dict, lookup, lookup_or, insert, keys, or_empty}
use vlanman.Api.{VlanNetworkStatus}

unfoldable pub populate_pools : Dict (List String) → List String → Dict (List String)
populate_pools free [] = free
populate_pools free (name ∷ names) =
    populate_pools (elim (lookup name free) [ none ↦ insert name [] free | some _ ↦ free ]) names

-- PopulateStatus
unfoldable pub populate_status : VlanNetworkStatus → List String → VlanNetworkStatus
unfolding populate_pools
populate_status status pool_names = record status {
  pending_ips = some (or_empty status.pending_ips);
  free_ips = some (populate_pools (or_empty status.free_ips) pool_names);
}

-- The loop over the pool: the first address that is not pending.
unfoldable pub pick_address : Dict String → List String → Option String
pick_address pending [] = none
pick_address pending (ip ∷ pool) =
    let later = pick_address pending pool in if contains (keys pending) ip then later else some ip

-- The free and the pending addresses of one pool.
unfoldable pub free_of : VlanNetworkStatus → String → List String
free_of status pool = lookup_or [] pool (or_empty status.free_ips)

unfoldable pub pending_of : VlanNetworkStatus → String → Dict String
pending_of status pool = lookup_or [] pool (or_empty status.pending_ips)

-- `pendingMap[IP] = stamp; PendingIPs[poolName] = pendingMap`
unfoldable pub reserve : VlanNetworkStatus → String → String → String → VlanNetworkStatus
unfolding pending_of
reserve status pool ip stamp = record status {
  pending_ips =
      some (insert pool (insert ip stamp (pending_of status pool)) (or_empty status.pending_ips));
}
