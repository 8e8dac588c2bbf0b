-- ===== src/Controller/Status/Pending.antt =====
-- The pending addresses that a status update leaves, and when it asks to be run again.
use vlanman.Prelude.{
  ℕ, ℤ, String, List, [], ◌∷◌, ◌++◌, map, Option, none, some, Bool, true, not, ◌&&◌, ◌≡◌, refl, ◌∙◌,
  ap, contains, elems, All, int_le, int_eq, int_eq_iff, eq_refl, false, ◌||◌, Bool-cases, ◌==◌, inl,
  inr, arith, eq_iff, any, leb, ◌+◌, if◌then◌else◌,
}
use vlanman.Prelude.Maps.{Dict, lookup_or, lookup-insert, keys, keep_entries, or_empty}
use vlanman.Kube.{Pod}
use vlanman.Api.{VlanNetwork, VlanNetworkPool}
use vlanman.Cluster.{Moment, at_pending}
use vlanman.Ipam.{pending_of}
use vlanman.Controller.Status.Refresh.{
  has_pool, set_pending, drop_settled, is_settled, min_of, int_min, remaining, requeue_of,
  requeue_in, refresh, timeout,
}
use vlanman.Controller.Vlan.{holds}
use vlanman.Prelude.Text.{address_of}
use vlanman.Controller.Status.Free.{lookup-drop_stale}

lookup-set_pending :
    (pools : List VlanNetworkPool) (m : Dict (Dict String)) (pool : String)
    → lookup_or [] pool (set_pending pools m) ≡ lookup_or [] pool m
unfolding set_pending
lookup-set_pending [] m pool = refl
lookup-set_pending (p ∷ pools) m pool =
    lookup-set_pending pools _ pool
    ∙ ground (arith, lookup-insert p.name pool [] m, eq_iff p.name pool)

module _ (parse : String → Option ℕ) (clock : Moment → ℕ) (pods : List Pod) where
  abbrev kept : String → String → String → Bool
  kept pool ip stamp = not (is_settled parse clock pods pool ip stamp)

  lookup-drop_settled :
      (m : Dict (Dict String)) (pool : String)
      → lookup_or [] pool (drop_settled parse clock pods m)
        ≡ keep_entries (kept pool) (lookup_or [] pool m)
  unfolding drop_settled
  lookup-drop_settled [] pool = refl
  lookup-drop_settled ((p, pending) ∷ rest) pool = elim (Bool-cases (p == pool)) [
    | inl same ↦ rw ((eq_iff p pool).0 same) (ground (arith, eq_refl pool))
    | inr other ↦ ground (arith, lookup-drop_settled rest pool)
  ]

  -- The pending addresses before the update, or none for a name that has free addresses and no pool.
  abbrev pub if_in_pool : VlanNetwork → String → Dict String
  if_in_pool net pool =
      if contains (keys (or_empty net.status.free_ips)) pool
        && not (has_pool (elems net.spec.pools) pool)
      then []
      else pending_of net.status pool

  refresh-kept :
      (managers : List String) (net : VlanNetwork) (pool : String)
      → pending_of (refresh parse clock managers pods net).0 pool
        ≡ keep_entries (kept pool) (if_in_pool net pool)
  unfolding pending_of refresh
  refresh-kept managers net pool =
      lookup-drop_settled _ pool
      ∙ ap (keep_entries (kept pool)) (
          lookup-set_pending (elems net.spec.pools) _ pool
          ∙ ground (
            arith,
            lookup-drop_stale (elems net.spec.pools) (keys (or_empty net.status.free_ips))
                (or_empty net.status.pending_ips) pool,
          ))

  -- The stamp can be parsed, no worker pod holds the address, and the timeout has not passed.
  abbrev pub stays : String → String → String → Bool
  stays pool ip stamp = elim (parse stamp) [
    | none ↦ false
    | some t ↦
        not (any (λ pod. holds pod (address_of ip)) pods)
        && leb (clock (at_pending pool ip)) (t + timeout)
  ]

  kept-stays : (pool ip stamp : String) → kept pool ip stamp ≡ stays pool ip stamp
  unfolding is_settled
  kept-stays pool ip stamp = ground arith

  -- After an update a pool's pending addresses are those before it that are not settled: the stamp
  -- can be parsed, no worker pod holds the address, and the timeout has not passed. A name that has
  -- free addresses and no pool any more loses its pending ones.
  pub refresh-pending :
      (managers : List String) (net : VlanNetwork) (pool : String)
      → pending_of (refresh parse clock managers pods net).0 pool
        ≡ keep_entries (stays pool) (if_in_pool net pool)
  refresh-pending managers net pool =
      refresh-kept managers net pool
      ∙ ap (λ (p : String → String → Bool). keep_entries p (if_in_pool net pool))
          (λ i ip stamp. kept-stays pool ip stamp i)

abbrev contains_int : ℤ → List ℤ → Bool
contains_int a [] = false
contains_int a (x ∷ xs) = int_eq a x || contains_int a xs

int_eq_refl : (a : ℤ) → int_eq a a ≡ true
int_eq_refl a = (int_eq_iff a a).1 refl

-- The least of a list is one of its elements.
min_of-contains : (a : ℤ) (xs : List ℤ) → contains_int (min_of a xs) (a ∷ xs) ≡ true
unfolding min_of
min_of-contains a [] = rw int_eq_refl refl
min_of-contains a (x ∷ xs) = elim (Bool-cases (int_le a x)) [
  | inl le ↦ ground (arith, min_of-contains a xs)
  | inr gt ↦ ground (arith, min_of-contains x xs)
]

abbrev AtMost : ℤ → ℤ → Type 0
AtMost a b = int_le a b ≡ true

int_le_trans : (a b c : ℤ) → AtMost a b → AtMost b c → AtMost a c
int_le_trans a b c p q = ground arith

int_le_refl : (a : ℤ) → AtMost a a
int_le_refl a = ground arith

int_min-AtMost : (a b : ℤ) → AtMost (int_min a b) a × AtMost (int_min a b) b
int_min-AtMost a b = ground arith

min_of-AtMost : (a : ℤ) (xs : List ℤ) → AtMost (min_of a xs) a × All (AtMost (min_of a xs)) xs
unfolding min_of
min_of-AtMost a [] = (int_le_refl a, tt)
min_of-AtMost a (x ∷ xs) =
    let rest = min_of-AtMost (int_min a x) xs in
    let step = int_min-AtMost a x in
    (
      int_le_trans _ (int_min a x) a rest.0 step.0,
      (int_le_trans _ (int_min a x) x rest.0 step.1, rest.1),
    )

module _ (parse : String → Option ℕ) (clock : Moment → ℕ) where
  All-map :
      (r : ℤ) (pool : String) (entries : Dict String)
      → All (AtMost r) (map (remaining parse clock pool) entries)
      → All (λ e. AtMost r (remaining parse clock pool e)) entries
  All-map r pool [] h = tt
  All-map r pool (e ∷ entries) h = (h.0, All-map r pool entries h.1)

  abbrev pub Requeues : String → Dict String → Option ℤ → Type 0
  Requeues pool entries none = entries ≡ []
  Requeues pool entries (some r) =
      All (λ e. AtMost r (remaining parse clock pool e)) entries
      × contains_int r (map (remaining parse clock pool) entries) ≡ true

  last_wins :
      (rq : Option ℤ) (rest : Dict (Dict String)) (pool : String) (entries : Dict String)
      → requeue_in parse clock rq (rest ++ ((pool, entries) ∷ []))
        ≡ requeue_of parse clock pool entries
  unfolding requeue_in
  last_wins rq [] pool entries = refl
  last_wins rq ((p, m) ∷ rest) pool entries =
      last_wins (requeue_of parse clock p m) rest pool entries

  -- The requeue time is that of the pool that is visited last: the least remaining time of its
  -- pending addresses, and none when it has none, whatever is pending in the other pools.
  pub requeue_in-Requeues :
      (rest : Dict (Dict String)) (pool : String) (entries : Dict String)
      → Requeues pool entries (requeue_in parse clock none (rest ++ ((pool, entries) ∷ [])))
  unfolding requeue_of
  requeue_in-Requeues rest pool [] = rw (last_wins none rest pool []) refl
  requeue_in-Requeues rest pool (e ∷ entries) = rw (last_wins none rest pool (e ∷ entries)) (
      let low =
        min_of-AtMost (remaining parse clock pool e) (map (remaining parse clock pool) entries) in
      (
        (low.0, All-map _ pool entries low.1),
        min_of-contains (remaining parse clock pool e) (map (remaining parse clock pool) entries),
      ))
