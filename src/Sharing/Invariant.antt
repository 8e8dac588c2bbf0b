-- ===== src/Sharing/Invariant.antt =====
-- The invariant of requests, pods and updates, and the steps that leave the status alone.
use vlanman.Prelude.{
  ℕ, String, List, Option, none, some, true, false, ◌≡◌, refl, ◌∙◌, ◌⊎◌, inl, inr, ◌==◌, All, map,
  contains, Distinct, Bool-cases,
}
use vlanman.Prelude.Maps.{lookup}
use vlanman.Prelude.Text.{address_of}
use vlanman.Kube.{Pod}
use vlanman.Api.{VlanNetwork, VlanNetworkStatus}
use vlanman.Ipam.{free_of, pending_of}
use vlanman.Controller.Status.Free.{pool_addresses}
use vlanman.Sharing.{Claim, System, running, create_at, remove_at}
use vlanman.Sharing.Listing.{
  place, Reads, is_held, All-zip, All-map, is_held-running, place-create_at, Distinct-remove_at,
  All-create_at, All-remove_at,
}

-- The addresses of the pools are not empty, and no two are the same but for the subnet.
pub record HasDistinctAddresses (net : VlanNetwork) : Type 0 where
  pub present :
      (pool ip : String)
      → contains (pool_addresses net pool) ip ≡ true
      → (address_of ip == "") ≡ false
  pub distinct :
      (p q a b : String)
      → contains (pool_addresses net p) a ≡ true
      → contains (pool_addresses net q) b ≡ true
      → address_of a ≡ address_of b
      → (p ≡ q) × (a ≡ b)

abbrev pub IsPromised : VlanNetworkStatus → Claim → Type 0
IsPromised status c = lookup c.ip (pending_of status c.pool) ≡ some c.stamp

abbrev pub IsSeen : VlanNetworkStatus → Option (List Pod) → Claim → Type 0
IsSeen status none c = Unit
IsSeen status (some pods) c =
    ((is_held pods (place c) ≡ true) × (c.created ≡ true))
    ⊎ ((is_held pods (place c) ≡ false) × IsPromised status c)

module _ (net : VlanNetwork) where
  -- The address of a claim is one of its pool; it is pending, or the pod is created and the address
  -- is not free. An update that is not written yet sees it held, or it is pending.
  pub record IsKept (status : VlanNetworkStatus) (listed : Option (List Pod)) (c : Claim)
      : Type 0 where
    pub of_pool : contains (pool_addresses net c.pool) c.ip ≡ true
    pub reads : Reads c
    pub guarded :
        IsPromised status c ⊎ ((c.created ≡ true) × (contains (free_of status c.pool) c.ip ≡ false))
    pub seen : IsSeen status listed c

  pub record Inv (s : System) : Type 0 where
    pub free_listed :
        (pool ip : String)
        → contains (free_of s.status pool) ip ≡ true
        → contains (pool_addresses net pool) ip ≡ true
    pub kept : All (IsKept s.status s.listed) s.claims
    pub apart : Distinct (map place s.claims)

  create-IsKept :
      {status : VlanNetworkStatus} {listed : Option (List Pod)} (c : Claim)
      → IsKept status listed c
      → IsKept status listed (record c { created = true })
  create-IsKept {status} {listed} c k = record {
    of_pool = k.of_pool;
    reads = k.reads;
    guarded = elim k.guarded [ inl p ↦ inl p | inr (_, f) ↦ inr (refl, f) ];
    seen = seen listed k.seen;
  }
    where
      seen :
          (l : Option (List Pod))
          → IsSeen status l c
          → IsSeen status l (record c { created = true })
      seen none h = tt
      seen (some pods) (inl (h, _)) = inl (h, refl)
      seen (some pods) (inr h) = inr h

  list-IsKept :
      {status : VlanNetworkStatus} {listed : Option (List Pod)} (pods : List Pod) (c : Claim)
      → IsKept status listed c
      → is_held pods (place c) ≡ c.created
      → IsKept status (some pods) c
  list-IsKept {status} pods c k h = record {
    of_pool = k.of_pool;
    reads = k.reads;
    guarded = k.guarded;
    seen = elim (Bool-cases c.created) [
      | inl e ↦ inl (h ∙ e, e)
      | inr e ↦ inr (h ∙ e, promised e k.guarded)
    ];
  }
    where
      promised :
          c.created ≡ false
          → IsPromised status c
            ⊎ ((c.created ≡ true) × (contains (free_of status c.pool) c.ip ≡ false))
          → IsPromised status c
      promised e (inl p) = p
      promised e (inr (t, _)) = cc

  pub lists-Inv : (s : System) → Inv s → Inv (record s { listed = some (running s.claims) })
  lists-Inv s v = record {
    free_listed = v.free_listed;
    kept =
        All-zip (λ c. list-IsKept (running s.claims) c) s.claims v.kept
          (is_held-running s.claims (All-map (λ c k. k.reads) s.claims v.kept) v.apart);
    apart = v.apart;
  }

  pub creates-Inv : (s : System) (i : ℕ) → Inv s → Inv (record s { claims = create_at i s.claims })
  creates-Inv s i v = record {
    free_listed = v.free_listed;
    kept = All-create_at create-IsKept i s.claims v.kept;
    apart = rw (place-create_at i s.claims) v.apart;
  }

  pub ends-Inv : (s : System) (i : ℕ) → Inv s → Inv (record s { claims = remove_at i s.claims })
  ends-Inv s i v = record {
    free_listed = v.free_listed;
    kept = All-remove_at (IsKept s.status s.listed) i s.claims v.kept;
    apart = Distinct-remove_at i s.claims v.apart;
  }
