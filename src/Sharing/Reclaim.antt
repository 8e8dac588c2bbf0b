-- ===== src/Sharing/Reclaim.antt =====
-- An address whose pod is gone can be given out again.
use vlanman.Prelude.{
  ℕ, ◌+◌, ◌<◌, String, List, [], ◌∷◌, Option, none, some, Bool, true, false, ◌≡◌, refl, All, map,
  contains, arith, elems, Option-cases, ◌≢◌, inl, inr, if◌then◌else◌,
}
use vlanman.Prelude.Maps.{Dict, lookup, keys, keep_entries, or_empty}
use vlanman.Prelude.Text.{address_of}
use vlanman.Kube.{Pod}
use vlanman.Api.{VlanNetwork}
use vlanman.Cluster.{Moment, Envs, at_pending}
use vlanman.Ipam.{pick_address, free_of, pending_of}
use vlanman.Ipam.Choice.{pick_address-ne-none}
use vlanman.Ipam.Series.{IsFree}
use vlanman.Controller.Status.Refresh.{has_pool, timeout}
use vlanman.Controller.Status.Free.{pool_addresses, pending_stays_free}
use vlanman.Controller.Status.Pending.{stays, refresh-pending}
use vlanman.Sharing.{System, Event, updates, lists, running, step, run, AreExpected}
use vlanman.Sharing.Listing.{place, All-map, unheld}
use vlanman.Sharing.Invariant.{HasDistinctAddresses, Inv}
use vlanman.Sharing.Safety.{new_system, run-new_system-Inv}

-- The stamp cannot be parsed, or its timeout has passed.
abbrev pub IsOver : (String → Option ℕ) → (Moment → ℕ) → String → String × String → Type 0
IsOver parse clock pool (ip, stamp) =
    (t : ℕ) → parse stamp ≡ some t → t + timeout < clock (at_pending pool ip)

module _ (parse : String → Option ℕ) (clock : Moment → ℕ) (pods : List Pod) (pool : String) where
  over_not_kept :
      (ip stamp : String)
      → IsOver parse clock pool (ip, stamp)
      → stays parse clock pods pool ip stamp ≡ false
  over_not_kept ip stamp over = elim (Option-cases (parse stamp)) [
    | inl e ↦ rw (e, stays) refl
    | inr (t, e) ↦ rw (e, stays) (ground (arith, over t e))
  ]

  none_kept :
      (ip : String) (pending : Dict String)
      → All (IsOver parse clock pool) pending
      → contains (keys (keep_entries (stays parse clock pods pool) pending)) ip ≡ false
  none_kept ip [] h = refl
  none_kept ip ((j, stamp) ∷ pending) (over, h) =
      ground (arith, over_not_kept j stamp over, none_kept ip pending h)

-- What holds of all entries holds of those that are left, whatever is dropped.
unless_dropped :
    (P : String × String → Type 0) (dropped : Bool) (m : Dict String)
    → All P m
    → All P (if dropped then [] else m)
unless_dropped P true m h = tt
unless_dropped P false m h = h

module _ (env : Envs) (net : VlanNetwork) (parse : String → Option ℕ) where
  -- Where the pods of all claims are read and none has the address, an update that finds all that is
  -- pending in the pool over leaves the address free.
  reclaimed :
      (s : System) (pool ip : String) (managers : List String) (clock : Moment → ℕ)
      → Inv net s
      → contains (pool_addresses net pool) ip ≡ true
      → contains (map place s.claims) (address_of ip) ≡ false
      → has_pool (elems net.spec.pools) (address_of ip) ≡ false
      → lookup (address_of ip) (or_empty s.status.pending_ips) ≡ none
      → All (IsOver parse clock pool) (pending_of s.status pool)
      → IsFree
          (step env net parse (step env net parse s lists) (updates managers clock)).status
          pool
          ip
  unfolding step pool_addresses
  reclaimed s pool ip managers clock v listed unclaimed unnamed unkeyed over = (
    pending_stays_free parse clock managers (running s.claims) (record net { status = s.status })
        pool ip listed
        (unheld s.claims (address_of ip) (All-map (λ c k. k.reads) s.claims v.kept) unclaimed)
        unnamed unkeyed,
    rw
        (refresh-pending parse clock (running s.claims) managers (record net { status = s.status })
          pool)
        (none_kept parse clock (running s.claims) pool ip _ (unless_dropped _ _ _ over)),
  )

-- An address of a pool comes back: where no pod that was given an address and is not gone has it, an
-- update that finds the timeout of all that is pending in the pool over leaves the address
-- free and not pending, and the next request for the pool gets one; if the text before its "/" is
-- neither the name of a pool nor a key of PendingIPs, and under the conditions of `run-Distinct`.
pub run-reclaims :
    (env : Envs) (net : VlanNetwork) (parse : String → Option ℕ) (events : List Event)
    (pool ip : String) (managers : List String) (clock : Moment → ℕ)
    → HasDistinctAddresses net
    → AreExpected env net parse new_system events
    → contains (pool_addresses net pool) ip ≡ true
    → has_pool (elems net.spec.pools) (address_of ip) ≡ false
    → let s = run env net parse new_system events in
      contains (map place s.claims) (address_of ip) ≡ false
      → lookup (address_of ip) (or_empty s.status.pending_ips) ≡ none
      → All (IsOver parse clock pool) (pending_of s.status pool)
      → let after =
          (step env net parse (step env net parse s lists) (updates managers clock)).status in
        IsFree after pool ip × (pick_address (pending_of after pool) (free_of after pool) ≢ none)
run-reclaims env net parse events pool ip managers clock apart_spec expected listed unnamed
      unclaimed unkeyed over =
    let free =
      reclaimed env net parse (run env net parse new_system events) pool ip managers clock
        (run-new_system-Inv env net parse apart_spec events expected) listed unclaimed unnamed
        unkeyed over in
    (free, pick_address-ne-none _ _ ip free.0 free.1)
