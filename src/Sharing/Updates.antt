-- ===== src/Sharing/Updates.antt =====
-- An update keeps the invariant: an address is not free while a pod that was listed holds it, and stays
-- pending while the pod is still to come.
use vlanman.Prelude.{
  ℕ, String, List, [], ◌∷◌, Option, none, some, Bool, true, false, ◌≡◌, refl, inl, inr, All,
  contains, arith, eq_iff, Bool-cases, ◌==◌,
}
use vlanman.Prelude.Maps.{Dict, lookup, keep_entries}
use vlanman.Kube.{Pod}
use vlanman.Api.{VlanNetwork, VlanNetworkStatus}
use vlanman.Cluster.{Moment}
use vlanman.Ipam.{free_of}
use vlanman.Controller.Status.Refresh.{refresh}
use vlanman.Controller.Status.Free.{
  pool_addresses, contains-free, held_not_free, has_pool-of_listed,
}
use vlanman.Controller.Status.Pending.{stays, refresh-pending}
use vlanman.Sharing.{Claim, in_time}
use vlanman.Sharing.Listing.{place, is_held, All-zip}
use vlanman.Sharing.Invariant.{IsPromised, IsKept, Inv}

lookup-keep_entries :
    (p : String → String → Bool) (k : String) (m : Dict String) {v : String}
    → lookup k m ≡ some v
    → p k v ≡ true
    → lookup k (keep_entries p m) ≡ some v
lookup-keep_entries p k [] h t = h
lookup-keep_entries p k ((j, w) ∷ m) {v} h t = elim (Bool-cases (j == k)) [
  | inl same ↦ ground (arith, (eq_iff j k).0 same)
  | inr other ↦ ground (arith, lookup-keep_entries p k m {v = v})
]

module _ (parse : String → Option ℕ) (clock : Moment → ℕ) (managers : List String) (pods : List Pod)
    (net : VlanNetwork) (status : VlanNetworkStatus) where
  abbrev current : VlanNetwork
  current = record net { status = status }

  abbrev after : VlanNetworkStatus
  after = (refresh parse clock managers pods current).0

  spec_same : (pool : String) → pool_addresses current pool ≡ pool_addresses net pool
  unfolding pool_addresses
  spec_same pool = refl

  -- A pending address that no listed pod holds stays pending, if its timeout has not passed.
  promise_kept :
      (c : Claim)
      → contains (pool_addresses net c.pool) c.ip ≡ true
      → is_held pods (place c) ≡ false
      → in_time parse clock pods c ≡ true
      → IsPromised status c
      → IsPromised after c
  promise_kept c of_pool unheld early p =
      rw (refresh-pending parse clock pods managers current c.pool) (
        lookup-keep_entries (stays parse clock pods c.pool) c.ip _
          (ground
            (arith, p, has_pool-of_listed current c.pool c.ip (rw (spec_same c.pool) of_pool)))
          (ground (arith, unheld, early)))

  written-IsKept :
      (c : Claim)
      → IsKept net status (some pods) c
      → in_time parse clock pods c ≡ true
      → IsKept net after none c
  written-IsKept c k early = record {
    of_pool = k.of_pool;
    reads = k.reads;
    guarded = elim k.seen [
      | inl (held, made) ↦
          inr (made, held_not_free parse clock managers pods current c.pool c.ip held)
      | inr (unheld, p) ↦ inl (promise_kept c k.of_pool unheld early p)
    ];
    seen = tt;
  }

  free_listed_by :
      (pool ip : String)
      → contains (free_of after pool) ip ≡ true
      → contains (pool_addresses net pool) ip ≡ true
  free_listed_by pool ip h =
      ground (arith, contains-free parse clock managers pods current pool ip, spec_same pool)

  pub written-Inv :
      (claims : List Claim)
      → All (λ c. in_time parse clock pods c ≡ true) claims
      → Inv net (record { status = status; claims = claims; listed = some pods })
      → Inv net (record { status = after; claims = claims; listed = none })
  written-Inv claims early v = record {
    free_listed = free_listed_by;
    kept = All-zip written-IsKept claims v.kept early;
    apart = v.apart;
  }
