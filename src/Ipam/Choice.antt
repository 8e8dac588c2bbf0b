-- ===== src/Ipam/Choice.antt =====
-- Which address the loop of Default picks.
use vlanman.Prelude.{
  ◌≢◌, String, List, [], ◌∷◌, ◌++◌, Option, none, some, ◌≡◌, refl, ap, true, false, contains, All,
  inl, inr, Bool-cases, arith, eq_iff,
}
use vlanman.Prelude.Maps.{Dict, keys}
use vlanman.Ipam.{pick_address}

abbrev IsPending : Dict String → String → Type 0
IsPending pending ip = contains (keys pending) ip ≡ true

abbrev pub Picks : Dict String → List String → Option String → Type 0
Picks pending pool none = All (IsPending pending) pool
Picks pending pool (some ip) =
    (skipped : List String) × (rest : List String) × (pool ≡ skipped ++ (ip ∷ rest))
    × All (IsPending pending) skipped
    × (contains (keys pending) ip ≡ false)

-- The loop picks the first address of the pool that is not pending, and none exactly when every
-- address of the pool is pending.
pub pick_address-Picks :
    (pending : Dict String) (pool : List String) → Picks pending pool (pick_address pending pool)
unfolding pick_address
pick_address-Picks pending [] = tt
pick_address-Picks pending (ip ∷ pool) = elim (Bool-cases (contains (keys pending) ip)) [
  | inl busy ↦
      rw (busy, pick_address)
        (skip (pick_address pending pool) busy (pick_address-Picks pending pool))
  | inr free ↦ rw (free, pick_address) ([], pool, refl, tt, free)
]
  where
    skip :
        (r : Option String)
        → IsPending pending ip
        → Picks pending pool r
        → Picks pending (ip ∷ pool) r
    skip none busy all = (busy, all)
    skip (some found) busy (skipped, rest, eq, all, free) =
        (ip ∷ skipped, rest, ap (◌∷◌ ip) eq, (busy, all), free)

-- A picked address is one of the pool, and is not pending.
pub pick_address-fresh :
    (pending : Dict String) (pool : List String) {ip : String}
    → pick_address pending pool ≡ some ip
    → (contains pool ip ≡ true) × (contains (keys pending) ip ≡ false)
unfolding pick_address
pick_address-fresh pending [] h = cc
pick_address-fresh pending (x ∷ pool) {ip} h =
    ground (arith, pick_address-fresh pending pool {ip = ip}, eq_iff x ip)

-- An address of the pool that is not pending is enough for a pick.
pub pick_address-ne-none :
    (pending : Dict String) (pool : List String) (ip : String)
    → contains pool ip ≡ true
    → contains (keys pending) ip ≡ false
    → pick_address pending pool ≢ none
unfolding pick_address
pick_address-ne-none pending [] ip h k = cc
pick_address-ne-none pending (x ∷ pool) ip h k =
    ground (arith, pick_address-ne-none pending pool ip, eq_iff x ip)
