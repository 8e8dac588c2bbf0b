-- ===== src/Cmd/Manager/Leader/Kernel.antt =====
-- What the kernel answers to the addition and the deletion of addresses of a link that is there, and
-- what the loops over the addresses in addIPAddress and removeIPAddress of cmd/manager/main.go do then.
use vlanman.Prelude.{String, List, [], ◌∷◌, inl, inr, true, false, ◌≡◌, refl, Bool-cases}
use vlanman.Prelude.Ends.{Ends, Ends-return, Ends-fail, Ends-bind, Ends-bind-ask}
use vlanman.Errors.{GoError}
use vlanman.Host.{Host, HostEvent, Link, IpNet, addr_add, addr_del, file_exists}
use vlanman.Cmd.Manager.Leader.{unless_exists, add_addresses, delete_addresses}
use vlanman.Cmd.Manager.Leader.Addresses.{added, deleted}
use vlanman.Cmd.Manager.Leader.Held.{is_held, AllHeld, AllHeld-addr_del, DistinctNets}

-- The link is there, and the kernel keeps its addresses: one that it has is refused as a file that exists,
-- and one that it has not cannot be deleted, which is another error.
pub record KeepsAddresses (host : Host) (name : String) (link : Link) : Type 0 where
  pub found : (h : List HostEvent) → host.link_by_name_answer name h ≡ inr link
  pub adds :
      (net : IpNet) (h : List HostEvent)
      → is_held link net h ≡ false
      → host.addr_add_answer link net h ≡ inr tt
  pub adds_again :
      (net : IpNet) (h : List HostEvent)
      → is_held link net h ≡ true
      → (e : GoError) × (host.addr_add_answer link net h ≡ inl e) × (file_exists host e ≡ true)
  pub deletes :
      (net : IpNet) (h : List HostEvent)
      → is_held link net h ≡ true
      → host.addr_del_answer link net h ≡ inr tt
  pub deletes_none :
      (net : IpNet) (h : List HostEvent)
      → is_held link net h ≡ false
      → (e : GoError) × (host.addr_del_answer link net h ≡ inl e) × (file_exists host e ≡ false)

module _ (host : Host) (link : Link) (name : String) (k : KeepsAddresses host name link) where
  pub add_addresses-Held :
      (nets : List IpNet) (h : List HostEvent)
      → Ends (λ _ h'. h' ≡ added link nets h) (λ _ _. ⊥) (λ _. ⊥) (add_addresses host link nets h)
  unfolding add_addresses added
  add_addresses-Held [] h = Ends-return _ h refl
  add_addresses-Held (net ∷ nets) h = Ends-bind-ask _ _ _ h (
      Ends-bind (λ _ h1. h1 ≡ addr_add link net ∷ h) _ _ _ passed
        (λ _ h1 at. rw at (add_addresses-Held nets (addr_add link net ∷ h))))
    where
      passed :
          Ends
            (λ _ h1. h1 ≡ addr_add link net ∷ h)
            (λ _ _. ⊥)
            (λ _. ⊥)
            (unless_exists host (host.addr_add_answer link net h) (addr_add link net ∷ h))
      passed = elim (Bool-cases (is_held link net h)) [
        | inl there ↦
            let (x, refused, exists) = k.adds_again net h there in
            rw (refused, exists) (Ends-return _ _ refl)
        | inr absent ↦ rw (k.adds net h absent) (Ends-return _ _ refl)
      ]

  pub delete_addresses-Held :
      (nets : List IpNet) (h : List HostEvent)
      → DistinctNets nets
      → AllHeld link nets h
      → Ends
          (λ _ h'. h' ≡ deleted link nets h)
          (λ _ _. ⊥)
          (λ _. ⊥)
          (delete_addresses host link nets h)
  unfolding delete_addresses deleted
  delete_addresses-Held [] h _ _ = Ends-return _ h refl
  delete_addresses-Held (net ∷ nets) h (other, distinct) (held, all) = Ends-bind-ask _ _ _ h (
      rw (k.deletes net h held) (
        Ends-bind (λ _ h1. h1 ≡ addr_del link net ∷ h) _ _ _ (Ends-return _ _ refl)
          (λ _ h1 at. rw at (
            delete_addresses-Held nets (addr_del link net ∷ h) distinct
              (AllHeld-addr_del link net nets h other all)))))

  -- A stop without the first of the addresses ends the program.
  pub delete_addresses-exits :
      (net : IpNet) (nets : List IpNet) (h : List HostEvent)
      → is_held link net h ≡ false
      → Ends (λ _ _. ⊥) (λ code _. code ≡ 1) (λ _. ⊥) (delete_addresses host link (net ∷ nets) h)
  unfolding delete_addresses
  delete_addresses-exits net nets h absent =
      let (x, refused, other) = k.deletes_none net h absent in
      Ends-bind-ask _ _ _ h (
        rw (refused, other)
          (Ends-bind (λ _ _. ⊥) _ _ _ (Ends-fail _ _ refl) (λ _ _ never. absurd never)))
