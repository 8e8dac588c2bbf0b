-- ===== src/Cmd/Manager/Leader/Setup.antt =====
-- What interfaceSetup leaves where it comes to the election, and when it panics.
use vlanman.Prelude.{List, [], ◌∷◌, map, Option, none, some, inl, inr, ◌≡◌, refl, ap, sym}
use vlanman.Prelude.Run.{ok, return}
use vlanman.Prelude.Ends.{Ends, Ends-return, Ends-fail, Ends-crash, Ends-bind, Ends-bind-ask}
use vlanman.Host.Exits.{Ends-bind-or_exit}
use vlanman.Errors.{GoError}
use vlanman.Api.{Gateway}
use vlanman.Host.{
  Host, HostAnswer, HostEvent, Link, Attrs, macvlan_link, vlan_link, other_link, attrs_of,
  new_attrs, with_index, link_by_name, link_add, link_set_up,
}
use vlanman.Cmd.Manager.{ManagerEnvs}
use vlanman.Cmd.Manager.Leader.{
  gateway_name, gateway_net, setup_routes, dropped, as_macvlan, made_or_found, given, with_given,
  make_gateway, Gateways, setup_with, interface_setup,
}

module _ (host : Host) (e : ManagerEnvs) where
  -- The macvlan that is asked for on an interface.
  abbrev wanted : Link → Link
  wanted parent = macvlan_link (new_attrs (gateway_name e) (attrs_of parent).index)

  -- It was made, or where it was refused, one of that name was found.
  pub data IsTaken (parent : Link) (h : List HostEvent) : Link → List HostEvent → Type 0 where
    made :
        host.link_add_answer (wanted parent) h ≡ inr tt
        → IsTaken parent h
            (with_index (host.given_index (wanted parent) h) (wanted parent))
            (link_add (wanted parent) ∷ h)
    found :
        {fault : GoError} {attrs : Attrs}
        → host.link_add_answer (wanted parent) h ≡ inl fault
        → host.link_by_name_answer (gateway_name e) (link_add (wanted parent) ∷ h)
          ≡ inr (macvlan_link attrs)
        → IsTaken parent h
            (macvlan_link attrs)
            (link_by_name (gateway_name e) ∷ link_add (wanted parent) ∷ h)

  -- The link is such a macvlan, and was set up.
  abbrev IsUp : Option Link → List HostEvent → Link → List HostEvent → Type 0
  IsUp none h link h' = ⊥
  IsUp (some parent) h link h' =
      (h1 : List HostEvent) × IsTaken parent h link h1
      × (host.link_set_up_answer link h1 ≡ inr tt)
      × (h' ≡ link_set_up link ∷ h1)

  as_macvlan-IsTaken :
      {C : List HostEvent → Type 0} (parent : Link) (h : List HostEvent) (fault : GoError)
      (link : Link)
      → host.link_add_answer (wanted parent) h ≡ inl fault
      → host.link_by_name_answer (gateway_name e) (link_add (wanted parent) ∷ h) ≡ inr link
      → Ends
          (IsTaken parent h)
          (λ code _. code ≡ 1)
          C
          (as_macvlan host link (link_by_name (gateway_name e) ∷ link_add (wanted parent) ∷ h))
  as_macvlan-IsTaken parent h fault (macvlan_link attrs) p q = Ends-return _ _ (found p q)
  as_macvlan-IsTaken parent h fault (vlan_link _ _) p q = Ends-fail _ _ refl
  as_macvlan-IsTaken parent h fault (other_link _ _) p q = Ends-fail _ _ refl

  made_or_found-IsTaken :
      {C : List HostEvent → Type 0} (parent : Link) (h : List HostEvent)
      → Ends
          (IsTaken parent h)
          (λ code _. code ≡ 1)
          C
          (made_or_found host e
            (wanted parent)
            (with_given host (wanted parent) h)
            (link_add (wanted parent) ∷ h))
  made_or_found-IsTaken {C} parent h = go (host.link_add_answer (wanted parent) h) refl
    where
      go :
          (r : HostAnswer (Unit {0}))
          → host.link_add_answer (wanted parent) h ≡ r
          → Ends
              (IsTaken parent h)
              (λ code _. code ≡ 1)
              C
              (made_or_found host e
                (wanted parent)
                (given host r (host.given_index (wanted parent) h))
                (link_add (wanted parent) ∷ h))
      go (inr _) q = Ends-return _ _ (made q)
      go (inl fault) q =
          Ends-bind-ask _ _ _ _
            (Ends-bind-or_exit _ _ _ refl (λ link r. as_macvlan-IsTaken parent h fault link q r))

  make_gateway-IsUp :
      (watched : Option Link) (h : List HostEvent)
      → Ends
          (IsUp watched h)
          (λ code _. code ≡ 1)
          (λ _. watched ≡ none)
          (make_gateway host e watched h)
  unfolding make_gateway
  make_gateway-IsUp none h =
      Ends-bind (λ _ _. ⊥) _ _ h (Ends-crash h refl) (λ _ _ never. absurd never)
  make_gateway-IsUp (some parent) h =
      Ends-bind (λ index h1. (index ≡ (attrs_of parent).index) × (h1 ≡ h)) _ _ h
        (Ends-return _ h (refl, refl))
        (λ index h1 (i, at).
          rw (i, at)
            (Ends-bind-ask _ _ _ h (
              Ends-bind _ _ _ _ (made_or_found-IsTaken parent h) (λ link h2 taken.
                Ends-bind-ask _ _ _ h2 (
                  Ends-bind-or_exit _ _ _ refl
                    (λ _ up. Ends-return link _ (h2, taken, up, refl)))))))

  -- No gateways, and nothing asked; or the macvlan, set up, and the addresses of the gateways in order.
  abbrev pub IsPrepared : Option Link → List HostEvent → Option Gateways → List HostEvent → Type 0
  IsPrepared watched h none h' = (e.gateways ≡ []) × (h' ≡ h)
  IsPrepared watched h (some g) h' =
      ((gw : Gateway) × (others : List Gateway) × (e.gateways ≡ gw ∷ others))
      × (g.nets ≡ map (gateway_net host) e.gateways)
      × IsUp watched h g.link h'

  setup_routes-none :
      (watched : Option Link) (h : List HostEvent)
      → dropped host (setup_routes host watched []) h ≡ (ok tt, h)
  unfolding dropped setup_routes return
  setup_routes-none watched h = refl

  -- Once the interface is up, the manager either has no gateways and asks for nothing, or comes to the
  -- election with a macvlan of the name of its gateway, made on the watched interface or found, that
  -- was set up by the last call, and with the addresses of its gateways in their order. It exits only
  -- with code 1, and panics only where it reads no link of the watcher.
  pub interface_setup-IsPrepared :
      (watched : Option Link) (h : List HostEvent)
      → Ends
          (IsPrepared watched h)
          (λ code _. code ≡ 1)
          (λ _. watched ≡ none)
          (interface_setup host e watched h)
  unfolding interface_setup
  interface_setup-IsPrepared watched h = go e.gateways refl
    where
      go :
          (gateways : List Gateway)
          → e.gateways ≡ gateways
          → Ends
              (IsPrepared watched h)
              (λ code _. code ≡ 1)
              (λ _. watched ≡ none)
              (setup_with host e watched gateways h)
      go [] none_given =
          Ends-bind (λ _ h1. h1 ≡ h) _ _ h
            (rw (setup_routes-none watched h) (record { holds = refl }))
            (λ _ h1 at. Ends-return _ h1 (none_given, at))
      go (gw ∷ others) given =
          Ends-bind (IsUp watched h) _ _ h (make_gateway-IsUp watched h) (λ link h1 up.
            Ends-return _ h1 ((gw, others, given), ap (map (gateway_net host)) (sym given), up))
