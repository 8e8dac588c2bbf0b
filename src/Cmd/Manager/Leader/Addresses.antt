-- ===== src/Cmd/Manager/Leader/Addresses.antt =====
-- The addresses that the callbacks of the election ask for, and ask to delete.
use vlanman.Prelude.{List, [], ◌∷◌, inl, inr, ◌≡◌, refl, Bool-cases}
use vlanman.Prelude.Ends.{Ends, Ends-return, Ends-fail, Ends-bind, Ends-bind-ask}
use vlanman.Host.{Host, HostAnswer, HostEvent, Link, IpNet, addr_add, addr_del, file_exists}
use vlanman.Cmd.Manager.Leader.{unless_exists, add_addresses, delete_addresses}

-- The addresses asked for on a link, put before the events.
unfoldable pub added : Link → List IpNet → List HostEvent → List HostEvent
added link [] h = h
added link (net ∷ nets) h = added link nets (addr_add link net ∷ h)

unfoldable pub deleted : Link → List IpNet → List HostEvent → List HostEvent
deleted link [] h = h
deleted link (net ∷ nets) h = deleted link nets (addr_del link net ∷ h)

module _ (host : Host) where
  unless_exists-Ends :
      (r : HostAnswer (Unit {0})) (h : List HostEvent)
      → Ends (λ _ h'. h' ≡ h) (λ code _. code ≡ 1) (λ _. ⊥) (unless_exists host r h)
  unless_exists-Ends (inr _) h = Ends-return _ h refl
  unless_exists-Ends (inl e) h = elim (Bool-cases (file_exists host e)) [
    | inl there ↦ rw there (Ends-return _ h refl)
    | inr other ↦ rw other (Ends-fail _ h refl)
  ]

  pub add_addresses-added :
      (link : Link) (nets : List IpNet) (h : List HostEvent)
      → Ends
          (λ _ h'. h' ≡ added link nets h)
          (λ code _. code ≡ 1)
          (λ _. ⊥)
          (add_addresses host link nets h)
  unfolding add_addresses added
  add_addresses-added link [] h = Ends-return _ h refl
  add_addresses-added link (net ∷ nets) h = Ends-bind-ask _ _ _ h (
      Ends-bind _ _ _ _ (unless_exists-Ends _ _) (λ _ h1 e. rw e (add_addresses-added link nets _)))

  pub delete_addresses-deleted :
      (link : Link) (nets : List IpNet) (h : List HostEvent)
      → Ends
          (λ _ h'. h' ≡ deleted link nets h)
          (λ code _. code ≡ 1)
          (λ _. ⊥)
          (delete_addresses host link nets h)
  unfolding delete_addresses deleted
  delete_addresses-deleted link [] h = Ends-return _ h refl
  delete_addresses-deleted link (net ∷ nets) h = Ends-bind-ask _ _ _ h (
      Ends-bind _ _ _ _ (unless_exists-Ends _ _)
        (λ _ h1 e. rw e (delete_addresses-deleted link nets _)))
