-- ===== src/Sharing/Safety.antt =====
-- No two pods hold the same address, whatever the order of requests, creations and updates.
use vlanman.Prelude.{
  ℕ, String, List, [], ◌∷◌, Option, none, some, true, ◌≡◌, refl, All, map, contains, Distinct,
  arith, eq_iff, eq_refl,
}
use vlanman.Prelude.Text.{address_of}
use vlanman.Api.{VlanNetwork}
use vlanman.Cluster.{Moment, Envs}
use vlanman.Ipam.{free_of}
use vlanman.Kube.{Pod}
use vlanman.Controller.Vlan.{extract_vlan}
use vlanman.Controller.Status.Free.{pool_addresses}
use vlanman.Sharing.{
  Claim, System, Event, admits, creates, ends, lists, updates, write, step, run, AreInTime,
  IsExpected, AreExpected,
}
use vlanman.Sharing.Listing.{place, Reads, All-map}
use vlanman.Sharing.Invariant.{HasDistinctAddresses, IsKept, Inv, lists-Inv, creates-Inv, ends-Inv}
use vlanman.Sharing.Requests.{admits-Inv}
use vlanman.Sharing.Updates.{written-Inv}

-- A network that no update or request has touched, and nobody's addresses.
abbrev pub new_system : System
new_system = record {
  status = record { free_ips = none; pending_ips = none; state = none; short_state = "" };
  claims = [];
  listed = none;
}

module _ (env : Envs) (net : VlanNetwork) (parse : String → Option ℕ)
    (apart_spec : HasDistinctAddresses net) where
  write-Inv :
      (s : System) (managers : List String) (clock : Moment → ℕ)
      → IsExpected parse s (updates managers clock)
      → Inv net s
      → Inv net (write parse net s managers clock s.listed)
  write-Inv s managers clock early v = go s.listed early v.kept
    where
      go :
          (l : Option (List Pod))
          → AreInTime parse clock s.claims l
          → All (IsKept net s.status l) s.claims
          → Inv net (write parse net s managers clock l)
      go none early kept = record { free_listed = v.free_listed; kept = v.kept; apart = v.apart }
      go (some pods) early kept =
          written-Inv parse clock managers pods net s.status s.claims early
            (record { free_listed = v.free_listed; kept = kept; apart = v.apart })

  step-Inv :
      (s : System) (e : Event) → IsExpected parse s e → Inv net s → Inv net (step env net parse s e)
  unfolding step
  step-Inv s (admits pool stamp pod endpoints routes) own v =
      admits-Inv env net apart_spec s pool stamp pod endpoints routes own v
  step-Inv s (creates i) x v = creates-Inv net s i v
  step-Inv s (ends i) x v = ends-Inv net s i v
  step-Inv s lists x v = lists-Inv net s v
  step-Inv s (updates managers clock) early v = write-Inv s managers clock early v

  run-Inv :
      (s : System) (events : List Event)
      → AreExpected env net parse s events
      → Inv net s
      → Inv net (run env net parse s events)
  unfolding run
  run-Inv s [] x v = v
  run-Inv s (e ∷ events) (x, xs) v = run-Inv (step env net parse s e) events xs (step-Inv s e x v)

  new_system-Inv : Inv net new_system
  unfolding free_of
  new_system-Inv = record { free_listed = λ pool ip h. cc; kept = tt; apart = tt }

  pub run-new_system-Inv :
      (events : List Event)
      → AreExpected env net parse new_system events
      → Inv net (run env net parse new_system events)
  run-new_system-Inv events x = run-Inv new_system events x new_system-Inv

-- The address that the controller reads from a pod.
abbrev pub read_address : Pod → String
read_address pod = address_of (extract_vlan pod).0

read_address-of : (c : Claim) → Reads c → read_address c.pod ≡ place c
read_address-of c reads = ground (
  arith,
  reads (place c),
  reads (read_address c.pod),
  eq_refl (place c),
  eq_refl (read_address c.pod),
  eq_iff (place c) (read_address c.pod),
  eq_iff (read_address c.pod) (place c),
)

-- The pod of a claim has an address of the pool that it asked for, and the controller reads that.
abbrev pub IsServed : VlanNetwork → Claim → Type 0
IsServed net c =
    (contains (pool_addresses net c.pool) c.ip ≡ true) × (read_address c.pod ≡ address_of c.ip)

read-places :
    (claims : List Claim)
    → All Reads claims
    → map (λ (c : Claim). read_address c.pod) claims ≡ map place claims
read-places [] h = refl
read-places (c ∷ claims) (r, h) = rw (read_address-of c r, read-places claims h) refl

-- Whatever the order of requests, creations of pods and updates, no two pods that were given an
-- address of a network and are not gone hold the same, and each holds one of the pool that it
-- asked for, as the controller reads it; if no two addresses in the spec are the same but for the
-- subnet, no pod brings variables of the webhook's own, and no pod is still to be created when an
-- update finds that the timeout of its address has passed.
pub run-Distinct :
    (env : Envs) (net : VlanNetwork) (parse : String → Option ℕ) (events : List Event)
    → HasDistinctAddresses net
    → AreExpected env net parse new_system events
    → Distinct
        (map (λ (c : Claim). read_address c.pod) (run env net parse new_system events).claims)
      × All (IsServed net) (run env net parse new_system events).claims
run-Distinct env net parse events apart_spec expected =
    let v = run-new_system-Inv env net parse apart_spec events expected in
    let claims = (run env net parse new_system events).claims in
    (
      rw (read-places claims (All-map (λ c k. k.reads) claims v.kept)) v.apart,
      All-map (λ c k. (k.of_pool, read_address-of c k.reads)) claims v.kept,
    )
