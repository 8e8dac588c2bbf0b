-- ===== src/Cmd/Manager/Leader/Terms.antt =====
-- What the callbacks of the election do to the addresses of a gateway, where the kernel keeps them.
use vlanman.Prelude.{ℕ, List, ◌∷◌, some, false, ◌&&◌, ◌||◌, not, ◌≡◌, refl, ◌∙◌, ap}
use vlanman.Prelude.Ends.{
  Ends, Ends-return, Ends-bind, Ends-bind-ask, Ends-map_value, Ends-no_error,
}
use vlanman.Host.{Host, HostEvent, Link, IpNet, link_by_name}
use vlanman.Cmd.Manager.{ManagerEnvs}
use vlanman.Cmd.Manager.Leader.{Gateways, gateway_name, add_ip_address, remove_ip_address}
use vlanman.Cmd.Manager.Leader.Routes.{dropped-Routed}
use vlanman.Cmd.Manager.Leader.Kernel.{
  KeepsAddresses, add_addresses-Held, delete_addresses-Held, delete_addresses-exits,
}
use vlanman.Cmd.Manager.Leader.Held.{
  is_held, HeldAs, AllHeld, mentions, DistinctNets, is_held-added, is_held-deleted, is_held-Routed,
}

module _ (host : Host) (e : ManagerEnvs) (g : Gateways) (link : Link)
    (k : KeepsAddresses host (gateway_name e) link) where
  add_ip_address-HeldAs :
      {F : ℕ → List HostEvent → Type 0} (h : List HostEvent)
      → Ends
          (λ _. HeldAs link (λ net. mentions g.nets net || is_held link net h))
          F
          (λ _. ⊥)
          (add_ip_address host e (some g.link) g.nets h)
  unfolding add_ip_address is_held
  add_ip_address-HeldAs h = Ends-bind-ask _ _ _ h (
      rw (k.found h) (
        Ends-bind (λ l h1. (l ≡ link) × (h1 ≡ link_by_name (gateway_name e) ∷ h)) _ _ _
          (Ends-return _ _ (refl, refl))
          (λ l h1 (same, at).
            rw (same, at)
              (Ends-bind _ _ _ _
                (Ends-no_error (add_addresses-Held host link (gateway_name e) k g.nets _))
                (λ _ h2 at2. rw at2 (
                  Ends-map_value
                    (λ _ h3 routed net.
                      is_held-Routed link e.gateways net routed ∙ is_held-added link g.nets net _)
                    (dropped-Routed host g.link e.gateways _)))))))

  remove_ip_address-HeldAs :
      {F : ℕ → List HostEvent → Type 0} (h : List HostEvent)
      → DistinctNets g.nets
      → AllHeld link g.nets h
      → Ends
          (λ _. HeldAs link (λ net. not (mentions g.nets net) && is_held link net h))
          F
          (λ _. ⊥)
          (remove_ip_address host e g.nets h)
  unfolding remove_ip_address is_held
  remove_ip_address-HeldAs h distinct all = Ends-bind-ask _ _ _ h (
      rw (k.found h) (
        Ends-bind (λ l h1. (l ≡ link) × (h1 ≡ link_by_name (gateway_name e) ∷ h)) _ _ _
          (Ends-return _ _ (refl, refl))
          (λ l h1 (same, at).
            rw (same, at)
              (Ends-no_error (
                Ends-map_value
                  (λ _ h2 at2 net. ap (is_held link net) at2 ∙ is_held-deleted link g.nets net _)
                  (delete_addresses-Held host link (gateway_name e) k g.nets _ distinct all))))))

  remove_ip_address-exits :
      {P : Unit {0} → List HostEvent → Type 0} (net : IpNet) (nets : List IpNet)
      (h : List HostEvent)
      → g.nets ≡ net ∷ nets
      → is_held link net h ≡ false
      → Ends P (λ code _. code ≡ 1) (λ _. ⊥) (remove_ip_address host e g.nets h)
  unfolding remove_ip_address is_held
  remove_ip_address-exits net nets h these absent = Ends-bind-ask _ _ _ h (
      rw (k.found h, these)
        (Ends-bind (λ l h1. (l ≡ link) × (h1 ≡ link_by_name (gateway_name e) ∷ h)) _ _ _
          (Ends-return _ _ (refl, refl))
          (λ l h1 (same, at).
            rw (same, at)
              (Ends-map_value (λ _ _ never. absurd never)
                (delete_addresses-exits host link (gateway_name e) k net nets _ absent)))))

  -- Where the kernel keeps the addresses of the interface, and those of the gateways are not empty and
  -- distinct: a manager that is told to lead, whatever the interface has, ends with all of them on it,
  -- and the others as before, and neither exits nor panics. One that is told to stop while the
  -- interface has all of them ends with none of them on it, and the others as before, and neither exits
  -- nor panics. One that is told to stop while it has not the first, as where it never led, ends the
  -- program with code 1.
  pub election_callbacks-HeldAs :
      (net : IpNet) (nets : List IpNet) (h leading idle : List HostEvent)
      → g.nets ≡ net ∷ nets
      → DistinctNets g.nets
      → AllHeld link g.nets leading
      → is_held link net idle ≡ false
      → Ends
          (λ _. HeldAs link (λ n. mentions g.nets n || is_held link n h))
          (λ _ _. ⊥)
          (λ _. ⊥)
          (add_ip_address host e (some g.link) g.nets h)
        × Ends
            (λ _. HeldAs link (λ n. not (mentions g.nets n) && is_held link n leading))
            (λ _ _. ⊥)
            (λ _. ⊥)
            (remove_ip_address host e g.nets leading)
        × Ends (λ _ _. ⊥) (λ code _. code ≡ 1) (λ _. ⊥) (remove_ip_address host e g.nets idle)
  election_callbacks-HeldAs net nets h leading idle these distinct all absent = (
    add_ip_address-HeldAs h,
    remove_ip_address-HeldAs leading distinct all,
    remove_ip_address-exits net nets idle these absent,
  )
