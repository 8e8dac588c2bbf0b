-- ===== src/Ipam/Series.antt =====
-- A series of requests for addresses of one pool, each with the stamp of its time, as the lock of
-- Default puts them one after the other.
use vlanman.Prelude.{
  String, List, [], ◌∷◌, none, some, ◌≡◌, refl, true, false, ◌==◌, ◌||◌, contains, All, Distinct,
  arith, eq_iff, eq_refl, ◌∙◌, Option-cases, inl, inr,
}
use vlanman.Prelude.Maps.{insert, keys, or_empty, lookup-insert, contains-keys-insert}
use vlanman.Api.{VlanNetworkStatus}
use vlanman.Ipam.{populate_status, pick_address, free_of, pending_of, reserve}
use vlanman.Ipam.Choice.{pick_address-fresh}

-- The status that one request leaves.
abbrev pub reserved : VlanNetworkStatus → String → String → String → VlanNetworkStatus
reserved status pool ip stamp = reserve (populate_status status (pool ∷ [])) pool ip stamp

-- The addresses that the requests get; one that gets none changes nothing.
pub assign_all : VlanNetworkStatus → String → List String → List String
assign_all status pool [] = []
assign_all status pool (stamp ∷ stamps) =
    elim (pick_address (pending_of status pool) (free_of status pool)) [
      | none ↦ assign_all status pool stamps
      | some ip ↦ ip ∷ assign_all (reserved status pool ip stamp) pool stamps
    ]

module _ (status : VlanNetworkStatus) (pool : String) where
  pub free_of-populate : free_of (populate_status status (pool ∷ [])) pool ≡ free_of status pool
  unfolding free_of populate_status
  free_of-populate =
      ground (arith, lookup-insert pool pool [] (or_empty status.free_ips), eq_refl pool)

  pub pending_of-populate :
      pending_of (populate_status status (pool ∷ [])) pool ≡ pending_of status pool
  unfolding pending_of populate_status
  pending_of-populate = refl

  free_of-reserve :
      (ip stamp : String) → free_of (reserve status pool ip stamp) pool ≡ free_of status pool
  unfolding free_of reserve
  free_of-reserve ip stamp = refl

  pending_of-reserve :
      (ip stamp : String)
      → pending_of (reserve status pool ip stamp) pool ≡ insert ip stamp (pending_of status pool)
  unfolding reserve pending_of
  pending_of-reserve ip stamp = ground (
    arith,
    lookup-insert pool pool (insert ip stamp (pending_of status pool))
        (or_empty status.pending_ips),
    eq_refl pool,
  )

-- What a request leaves: the free addresses stay, and its address is pending.
module _ (status : VlanNetworkStatus) (pool ip stamp : String) where
  free_of-reserved : free_of (reserved status pool ip stamp) pool ≡ free_of status pool
  free_of-reserved =
      free_of-reserve (populate_status status (pool ∷ [])) pool ip stamp
      ∙ free_of-populate status pool

  pending_of-reserved :
      (j : String)
      → contains (keys (pending_of (reserved status pool ip stamp) pool)) j
        ≡ (ip == j || contains (keys (pending_of status pool)) j)
  pending_of-reserved j =
      rw
        (
          pending_of-reserve (populate_status status (pool ∷ [])) pool ip stamp,
          pending_of-populate status pool,
        )
        (contains-keys-insert ip j stamp (pending_of status pool))

-- An address that is pending is never assigned.
pending-unassigned :
    (status : VlanNetworkStatus) (pool : String) (stamps : List String) (x : String)
    → contains (keys (pending_of status pool)) x ≡ true
    → contains (assign_all status pool stamps) x ≡ false
unfolding assign_all
pending-unassigned status pool [] x h = refl
pending-unassigned status pool (stamp ∷ stamps) x h =
    elim (Option-cases (pick_address (pending_of status pool) (free_of status pool))) [
      | inl e ↦ rw (e, assign_all) (pending-unassigned status pool stamps x h)
      | inr (ip, e) ↦
          rw (e, assign_all)
            (ground (
              arith,
              eq_iff ip x,
              pick_address-fresh (pending_of status pool) (free_of status pool) e,
              pending-unassigned (reserved status pool ip stamp) pool stamps x,
              pending_of-reserved status pool ip stamp x,
            ))
    ]

abbrev pub IsFree : VlanNetworkStatus → String → String → Type 0
IsFree status pool ip =
    (contains (free_of status pool) ip ≡ true)
    × (contains (keys (pending_of status pool)) ip ≡ false)

-- However many requests come one after the other, no two of them get the same address, and each
-- address that is given out was free in the pool and not pending before the first of them.
pub assign_all-Distinct :
    (status : VlanNetworkStatus) (pool : String) (stamps : List String)
    → Distinct (assign_all status pool stamps)
      × All (IsFree status pool) (assign_all status pool stamps)
unfolding assign_all
assign_all-Distinct status pool [] = (tt, tt)
assign_all-Distinct status pool (stamp ∷ stamps) =
    elim (Option-cases (pick_address (pending_of status pool) (free_of status pool))) [
      | inl e ↦ rw (e, assign_all) (assign_all-Distinct status pool stamps)
      | inr (ip, e) ↦
          rw (e, assign_all)
            (let rest = assign_all-Distinct (reserved status pool ip stamp) pool stamps in
              (
                (
                  pending-unassigned (reserved status pool ip stamp) pool stamps ip
                      (rw (pending_of-reserved status pool ip stamp ip, eq_refl) refl),
                  rest.0,
                ),
                (
                  pick_address-fresh (pending_of status pool) (free_of status pool) e,
                  weaken ip (assign_all (reserved status pool ip stamp) pool stamps) rest.1,
                ),
              ))
    ]
  where
    weaken :
        (ip : String) (xs : List String)
        → All (IsFree (reserved status pool ip stamp) pool) xs
        → All (IsFree status pool) xs
    weaken ip [] all = tt
    weaken ip (x ∷ xs) (p, all) = (
      (
        rw (← free_of-reserved status pool ip stamp) p.0,
        ground (arith, p.1, pending_of-reserved status pool ip stamp x),
      ),
      weaken ip xs all,
    )
