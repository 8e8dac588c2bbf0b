-- ===== src/Sharing/Requests.antt =====
-- A request keeps the invariant: the address that it picks is no other pod's.
use vlanman.Prelude.{
  String, List, [], ◌∷◌, none, true, false, ◌≡◌, refl, ◌∙◌, sym, ap, inl, inr, ◌==◌, any, All, map,
  contains, arith, eq_iff, eq_refl, Option-cases, Bool-cases,
}
use vlanman.Prelude.Maps.{Dict, keys, contains-keys-of-lookup}
use vlanman.Prelude.Text.{address_of}
use vlanman.Kube.{Pod}
use vlanman.Api.{VlanNetwork, VlanNetworkStatus}
use vlanman.Cluster.{Envs}
use vlanman.Ipam.{populate_status, pick_address, free_of, pending_of, reserve}
use vlanman.Ipam.Choice.{pick_address-fresh}
use vlanman.Ipam.Series.{free_of-populate, pending_of-populate}
use vlanman.Ipam.Admission.{free_of-admitted, lookup-admitted}
use vlanman.PodWebhook.ReadBack.{sets_address, holds-apply_patch}
use vlanman.Controller.Vlan.{holds}
use vlanman.Sharing.{Claim, System, admit}
use vlanman.Sharing.Listing.{place, All-map}
use vlanman.Sharing.Invariant.{HasDistinctAddresses, IsPromised, IsKept, Inv}

module _ (net : VlanNetwork) (apart_spec : HasDistinctAddresses net) (s : System)
    (pool ip stamp : String) (free : contains (free_of s.status pool) ip ≡ true)
    (unpending : contains (keys (pending_of s.status pool)) ip ≡ false) where
  -- The address that is picked is not that of a claim.
  not_same : (c : Claim) → IsKept net s.status s.listed c → c.pool ≡ pool → c.ip ≡ ip → ⊥
  not_same c k same_pool same_ip = elim k.guarded [
    | inl p ↦ cc (contains-keys-of-lookup c.ip (pending_of s.status c.pool) c.stamp p)
    | inr (_, taken) ↦ cc
  ]

  elsewhere :
      Inv net s → (c : Claim) → IsKept net s.status s.listed c → (place c == address_of ip) ≡ false
  elsewhere v c k = elim (Bool-cases (place c == address_of ip)) [
    | inl same ↦
        let at =
          apart_spec.distinct c.pool pool c.ip ip k.of_pool (v.free_listed pool ip free)
            ((eq_iff (place c) (address_of ip)).0 same) in
        absurd (not_same c k at.0 at.1)
    | inr other ↦ other
  ]

  abbrev after : VlanNetworkStatus
  after = reserve (populate_status s.status (pool ∷ [])) pool ip stamp

  admitted-IsKept : (c : Claim) → IsKept net s.status s.listed c → IsKept net after none c
  admitted-IsKept c k = record {
    of_pool = k.of_pool;
    reads = k.reads;
    guarded = elim k.guarded [
      | inl p ↦ inl (still p)
      | inr (made, taken) ↦ inr (made, free_of-at c.pool ∙ taken)
    ];
    seen = tt;
  }
    where
      free_of-at :
          (q : String) → contains (free_of after q) c.ip ≡ contains (free_of s.status q) c.ip
      free_of-at q = ap (λ xs. contains xs c.ip) (free_of-admitted s.status pool ip stamp q)

      still : IsPromised s.status c → IsPromised after c
      still p =
          lookup-admitted s.status pool ip stamp c.pool c.ip
          ∙ ground (
            arith,
            eq_iff pool c.pool,
            eq_iff ip c.ip,
            λ (e : c.pool ≡ pool) (f : c.ip ≡ ip). not_same c k e f,
          )

  -- The places of the claims do not hold that of the address.
  contains-places :
      (claims : List Claim)
      → All (λ c. (place c == address_of ip) ≡ false) claims
      → contains (map place claims) (address_of ip) ≡ false
  contains-places [] h = refl
  contains-places (c ∷ claims) (e, h) = ground (arith, contains-places claims h)

  pub admitted-Inv :
      (pod : Pod)
      → ((a : String) → holds pod a ≡ (a == address_of ip))
      → Inv net s
      → Inv net (record {
        status = after;
        claims =
            record { pool = pool; ip = ip; stamp = stamp; pod = pod; created = false } ∷ s.claims;
        listed = none;
      })
  admitted-Inv pod reads v = record {
    free_listed = λ q a h.
        v.free_listed q a
          (ap (λ xs. contains xs a) (sym (free_of-admitted s.status pool ip stamp q)) ∙ h);
    kept = (
      record {
        of_pool = v.free_listed pool ip free;
        reads = reads;
        guarded =
            inl
              (lookup-admitted s.status pool ip stamp pool ip ∙ rw (eq_refl pool, eq_refl ip) refl);
        seen = tt;
      },
      All-map admitted-IsKept s.claims v.kept,
    );
    apart = (contains-places s.claims (All-map (elsewhere v) s.claims v.kept), v.apart);
  }

module _ (env : Envs) (net : VlanNetwork) (apart_spec : HasDistinctAddresses net) where
  pub admits-Inv :
      (s : System) (pool stamp : String) (pod : Pod) (endpoints : Dict String) (routes : String)
      → any sets_address pod.init_containers ≡ false
      → Inv net s
      → let status = populate_status s.status (pool ∷ []) in
        Inv net (
          admit env net s pool stamp pod endpoints routes
            (pick_address (pending_of status pool) (free_of status pool)))
  admits-Inv s pool stamp pod endpoints routes own v =
      rw (free_of-populate s.status pool, pending_of-populate s.status pool)
        (elim (Option-cases (pick_address (pending_of s.status pool) (free_of s.status pool))) [
          | inl e ↦ rw e v
          | inr (ip, e) ↦ rw e (
              let fresh = pick_address-fresh (pending_of s.status pool) (free_of s.status pool) e in
              admitted-Inv net apart_spec s pool ip stamp fresh.0 fresh.1 _
                (λ a.
                  holds-apply_patch pod net env.worker_init_image env.worker_init_pull_policy ip
                    endpoints routes a own
                    (apart_spec.present pool ip (v.free_listed pool ip fresh.0)))
                v)
        ])
