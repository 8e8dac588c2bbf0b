-- ===== src/Ipam/Admission.antt =====
-- What a request leaves of the free and the pending addresses of every pool.
use vlanman.Prelude.{
  String, [], ◌∷◌, some, ◌≡◌, refl, ◌∙◌, arith, eq_iff, Bool-cases, inl, inr, ◌==◌, if◌then◌else◌,
}
use vlanman.Prelude.Maps.{lookup, insert, or_empty, lookup-insert}
use vlanman.Api.{VlanNetworkStatus}
use vlanman.Ipam.{populate_status, free_of, pending_of, reserve}

module _ (status : VlanNetworkStatus) (pool ip stamp : String) where
  -- The free addresses of every pool stay.
  pub free_of-admitted :
      (q : String)
      → free_of (reserve (populate_status status (pool ∷ [])) pool ip stamp) q ≡ free_of status q
  unfolding free_of reserve populate_status
  free_of-admitted q =
      ground (arith, lookup-insert pool q [] (or_empty status.free_ips), eq_iff pool q)

  pub pending_of-admitted :
      (q : String)
      → pending_of (reserve (populate_status status (pool ∷ [])) pool ip stamp) q
        ≡ (if pool == q then insert ip stamp (pending_of status pool) else pending_of status q)
  unfolding pending_of reserve populate_status
  pending_of-admitted q = ground (
    arith,
    lookup-insert pool q (insert ip stamp (pending_of status pool)) (or_empty status.pending_ips),
    eq_iff pool q,
  )

  -- The address is pending with its stamp, and any other is pending as before.
  pub lookup-admitted :
      (q jp : String)
      → lookup jp (pending_of (reserve (populate_status status (pool ∷ [])) pool ip stamp) q) ≡ (
          if pool == q
          then if ip == jp then some stamp else lookup jp (pending_of status q)
          else lookup jp (pending_of status q))
  lookup-admitted q jp = elim (Bool-cases (pool == q)) [
    | inl same ↦
        rw (pending_of-admitted q, same)
          (lookup-insert ip jp stamp (pending_of status pool) ∙ rw ((eq_iff pool q).0 same) refl)
    | inr other ↦ rw (pending_of-admitted q, other) refl
  ]
