-- ===== src/Controller/Status/Free.antt =====
-- The free addresses that a status update leaves.
use vlanman.Prelude.{
  ℕ, String, List, [], ◌∷◌, Option, none, some, true, false, not, ◌&&◌, ◌==◌, ◌≡◌, refl, ◌∙◌, ap,
  ◌||◌, inl, inr, Option-cases, Bool, any, contains, contains-keep, delete_func, elems, arith,
  eq_iff, if◌then◌else◌,
}
use vlanman.Prelude.Maps.{
  Dict, lookup, lookup_or, insert, delete, keys, or_empty, lookup-insert, contains-keys-insert,
  contains-keys-delete, contains-keys-of-lookup, lookup-delete, lookup-eq-none,
}
use vlanman.Prelude.Text.{address_of, cut}
use vlanman.Kube.{Pod}
use vlanman.Api.{VlanNetwork, VlanNetworkPool}
use vlanman.Cluster.{Moment}
use vlanman.Ipam.{free_of, pick_address}
use vlanman.Ipam.Choice.{pick_address-fresh}
use vlanman.Controller.Vlan.{extract_vlan, holds}
use vlanman.Controller.Status.Refresh.{
  has_pool, drop_stale, set_free, drop_taken, drop_settled, set_pending, is_taken, pod_ips, refresh,
}

-- The addresses of the last pool of that name.
abbrev addresses_or : Option (List String) → List VlanNetworkPool → String → Option (List String)
addresses_or default [] name = default
addresses_or default (pool ∷ pools) name =
    addresses_or (if pool.name == name then some pool.addresses else default) pools name

lookup-set_free :
    (pools : List VlanNetworkPool) (free : Dict (List String)) (name : String)
    → lookup name (set_free pools free) ≡ addresses_or (lookup name free) pools name
unfolding set_free
lookup-set_free [] free name = refl
lookup-set_free (pool ∷ pools) free name =
    lookup-set_free pools (insert pool.name pool.addresses free) name
    ∙ ap (λ d. addresses_or d pools name) (lookup-insert pool.name name pool.addresses free)

-- Without a pool of that name, a name among `names` is dropped.
pub lookup-drop_stale :
    {V : Type 0} (pools : List VlanNetworkPool) (names : List String) (m : Dict V) (name : String)
    → lookup name (drop_stale pools names m)
      ≡ (if contains names name && not (has_pool pools name) then none else lookup name m)
unfolding drop_stale
lookup-drop_stale pools [] m name = refl
lookup-drop_stale pools (n ∷ names) m name = ground (
  arith,
  lookup-drop_stale pools names m name,
  lookup-drop_stale pools names (delete n m) name,
  lookup-delete n name m,
  eq_iff n name,
)

addresses_or-default :
    (pools : List VlanNetworkPool) (name : String) (d : Option (List String))
    → addresses_or d pools name ≡ (if has_pool pools name then addresses_or none pools name else d)
addresses_or-default [] name d = refl
addresses_or-default (pool ∷ pools) name d = ground (
  arith,
  eq_iff pool.name name,
  eq_iff name pool.name,
  addresses_or-default pools name d,
  addresses_or-default pools name none,
  addresses_or-default pools name (some pool.addresses),
)

-- The addresses that the network's spec gives to a pool.
unfoldable pub pool_addresses : VlanNetwork → String → List String
pool_addresses net name = elim (addresses_or none (elems net.spec.pools) name) [
  | none ↦ []
  | some xs ↦ xs
]

-- A name under which the spec lists an address is that of a pool.
pub has_pool-of_listed :
    (net : VlanNetwork) (name ip : String)
    → contains (pool_addresses net name) ip ≡ true
    → has_pool (elems net.spec.pools) name ≡ true
unfolding pool_addresses
has_pool-of_listed net name ip h =
    ground (arith, addresses_or-default (elems net.spec.pools) name none)

lookup-set_free_fresh :
    (pools : List VlanNetworkPool) (free : Dict (List String)) (name : String)
    → lookup name (set_free pools (drop_stale pools (keys free) free))
      ≡ addresses_or none pools name
lookup-set_free_fresh pools free name =
    lookup-set_free pools (drop_stale pools (keys free) free) name
    ∙ ground (
      arith,
      addresses_or-default pools name (lookup name (drop_stale pools (keys free) free)),
      addresses_or-default pools name none,
      lookup-drop_stale pools (keys free) free name,
      lookup-eq-none name free,
    )

lookup-drop_taken :
    (pending used : List String) (free : Dict (List String)) (name : String)
    → lookup_or [] name (drop_taken pending used free)
      ≡ delete_func (is_taken pending used) (lookup_or [] name free)
unfolding drop_taken
lookup-drop_taken pending used [] name = refl
lookup-drop_taken pending used ((k, addresses) ∷ free) name =
    ground (arith, lookup-drop_taken pending used free name)

-- The list of the pods' addresses holds an address exactly when a pod does.
contains-pod_ips :
    (pods : List Pod) (a : String) → contains (pod_ips pods) a ≡ any (λ pod. holds pod a) pods
unfolding pod_ips
contains-pod_ips [] a = refl
contains-pod_ips (pod ∷ pods) a = ground (
  arith,
  contains-pod_ips pods a,
  eq_iff a (address_of (extract_vlan pod).0),
  eq_iff (address_of (extract_vlan pod).0) a,
)

keys-drop_settled :
    (parse : String → Option ℕ) (clock : Moment → ℕ) (pods : List Pod)
    (pending : Dict (Dict String))
    → keys (drop_settled parse clock pods pending) ≡ keys pending
unfolding drop_settled
keys-drop_settled parse clock pods [] = refl
keys-drop_settled parse clock pods ((pool, m) ∷ rest) =
    ap (◌∷◌ pool) (keys-drop_settled parse clock pods rest)

contains-keys-of_none :
    {V : Type 0} (k : String) (m : Dict V) → lookup k m ≡ none → contains (keys m) k ≡ false
contains-keys-of_none k [] h = refl
contains-keys-of_none k ((j, v) ∷ m) h = ground (arith, contains-keys-of_none k m)

contains-set_pending :
    (pools : List VlanNetworkPool) (pending : Dict (Dict String)) (a : String)
    → contains (keys (set_pending pools pending)) a
      ≡ (contains (keys pending) a || has_pool pools a)
unfolding set_pending
contains-set_pending [] pending a = ground arith
contains-set_pending (pool ∷ pools) pending a =
    contains-set_pending pools _ a ∙ elim (Option-cases (lookup pool.name pending)) [
      | inl absent ↦ rw absent (
          ground (
            arith,
            contains-keys-insert pool.name a [] pending,
            eq_iff pool.name a,
            eq_iff a pool.name,
          ))
      | inr (m, there) ↦ rw there (
          ground (
            arith,
            contains-keys-of-lookup pool.name pending m there,
            eq_iff a pool.name,
            eq_iff pool.name a,
          ))
    ]

contains-drop_stale :
    {V : Type 0} (pools : List VlanNetworkPool) (names : List String) (m : Dict V) (a : String)
    → contains (keys (drop_stale pools names m)) a
      ≡ (contains (keys m) a && not (contains names a && not (has_pool pools a)))
unfolding drop_stale
contains-drop_stale pools [] m a = ground arith
contains-drop_stale pools (n ∷ names) m a = ground (
  arith,
  contains-drop_stale pools names m a,
  contains-drop_stale pools names (delete n m) a,
  contains-keys-delete n a m,
  eq_iff n a,
)

-- The names under which PendingIPs stands when the free addresses are computed.
pub pending_names : (String → Option ℕ) → (Moment → ℕ) → List Pod → VlanNetwork → List String
pending_names parse clock pods net = keys (
    drop_settled parse clock pods (
      set_pending (elems net.spec.pools) (
        drop_stale (elems net.spec.pools) (keys (or_empty net.status.free_ips))
          (or_empty net.status.pending_ips))))

-- What is kept out of the free addresses, by the part before the "/": an address that a worker pod
-- holds, one that is spelled like a pool, and one that is a key of PendingIPs and not of FreeIPs.
abbrev pub is_kept_out : List Pod → VlanNetwork → String → Bool
is_kept_out pods net ip =
    any (λ pod. holds pod (cut ip).before) pods
    || any (λ (pool : VlanNetworkPool). (cut ip).before == pool.name) (elems net.spec.pools)
    || (contains (keys (or_empty net.status.pending_ips)) (cut ip).before
        && not (contains (keys (or_empty net.status.free_ips)) (cut ip).before))

is_taken-kept_out :
    (parse : String → Option ℕ) (clock : Moment → ℕ) (pods : List Pod) (net : VlanNetwork)
    (ip : String)
    → is_taken (pending_names parse clock pods net) (pod_ips pods) ip ≡ is_kept_out pods net ip
unfolding is_taken pending_names address_of
is_taken-kept_out parse clock pods net ip =
    let pools = elems net.spec.pools in
    let stale =
      drop_stale pools (keys (or_empty net.status.free_ips)) (or_empty net.status.pending_ips) in
    ground (
      arith,
      contains-pod_ips pods (cut ip).before,
      keys-drop_settled parse clock pods (set_pending pools stale),
      contains-set_pending pools stale (cut ip).before,
      contains-drop_stale pools (keys (or_empty net.status.free_ips))
          (or_empty net.status.pending_ips) (cut ip).before,
    )

module _ (parse : String → Option ℕ) (clock : Moment → ℕ) (managers : List String) (pods : List Pod)
    (net : VlanNetwork) where
  free-taken :
      (pool : String)
      → free_of (refresh parse clock managers pods net).0 pool
        ≡ delete_func
            (is_taken (pending_names parse clock pods net) (pod_ips pods))
            (pool_addresses net pool)
  unfolding free_of refresh pending_names pool_addresses
  free-taken pool =
      lookup-drop_taken (pending_names parse clock pods net) (pod_ips pods) _ pool
      ∙ ap
          (λ o.
            delete_func (is_taken (pending_names parse clock pods net) (pod_ips pods)) (elems o))
          (lookup-set_free_fresh (elems net.spec.pools) (or_empty net.status.free_ips) pool)

  -- After an update the free addresses of a name are those that the spec gives to its pool, in their
  -- order, less those whose part before the "/" a worker pod holds, is spelled like a pool, or was a
  -- name in PendingIPs and none in FreeIPs; a name without a pool has none.
  pub refresh-free :
      (pool : String)
      → free_of (refresh parse clock managers pods net).0 pool
        ≡ delete_func (is_kept_out pods net) (pool_addresses net pool)
  refresh-free pool =
      free-taken pool
      ∙ ap (λ (p : String → Bool). delete_func p (pool_addresses net pool))
          (λ i ip. is_taken-kept_out parse clock pods net ip i)

  pub contains-free :
      (pool ip : String)
      → contains (free_of (refresh parse clock managers pods net).0 pool) ip ≡ (
          contains (pool_addresses net pool) ip
          && not (is_taken (pending_names parse clock pods net) (pod_ips pods) ip))
  contains-free pool ip = rw (free-taken pool) (contains-keep _ (pool_addresses net pool) ip)

  -- An address that a worker pod holds, with or without a subnet, is in no pool's free addresses.
  pub held_not_free :
      (pool ip : String)
      → any (λ pod. holds pod (address_of ip)) pods ≡ true
      → contains (free_of (refresh parse clock managers pods net).0 pool) ip ≡ false
  unfolding is_taken
  held_not_free pool ip h =
      ground (arith, contains-free pool ip, contains-pod_ips pods (address_of ip))

  -- So the webhook, which picks from the free addresses, gives no pod the address of a worker pod
  -- that the last update saw, whatever is pending.
  pub picked_not_held :
      (pending : Dict String) (pool ip : String)
      → pick_address pending (free_of (refresh parse clock managers pods net).0 pool) ≡ some ip
      → any (λ pod. holds pod (address_of ip)) pods ≡ false
  picked_not_held pending pool ip h = ground (
    arith,
    held_not_free pool ip,
    pick_address-fresh pending (free_of (refresh parse clock managers pods net).0 pool) h,
  )

  -- An address of a pool that no worker pod holds stays in the free addresses, pending or not: what
  -- PendingIPs keeps out is only an address that is spelled like a pool or a key of PendingIPs.
  pub pending_stays_free :
      (pool ip : String)
      → contains (pool_addresses net pool) ip ≡ true
      → any (λ pod. holds pod (address_of ip)) pods ≡ false
      → has_pool (elems net.spec.pools) (address_of ip) ≡ false
      → lookup (address_of ip) (or_empty net.status.pending_ips) ≡ none
      → contains (free_of (refresh parse clock managers pods net).0 pool) ip ≡ true
  unfolding address_of
  pending_stays_free pool ip listed unheld unnamed unkeyed = ground (
    arith,
    contains-free pool ip,
    is_taken-kept_out parse clock pods net ip,
    contains-keys-of_none (address_of ip) (or_empty net.status.pending_ips),
  )
