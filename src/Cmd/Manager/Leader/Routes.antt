-- ===== src/Cmd/Manager/Leader/Routes.antt =====
-- What the callbacks of the election ask of the node: the addresses, and after them the routes.
use vlanman.Prelude.{
  ℕ, String, List, [], ◌∷◌, ◌++◌, map, elems, Option, none, some, ◌⊎◌, inl, inr, inl_ne_inr,
  inr_injective, false, ◌==◌, ◌≡◌, refl, sym, ap, Sum-cases, if◌then◌else◌,
}
use vlanman.Prelude.Run.{ok, err, panic, Out}
use vlanman.Prelude.Ends.{
  Ends, Ends-return, Ends-bind, Ends-bind-ask, Ends-bind-call, Ends-bind-lift, Ends-map_value,
  Ends-map_error,
}
use vlanman.Errors.{GoError}
use vlanman.Api.{Gateway, Route}
use vlanman.Host.{Host, HostEvent, Link, KernelRoute, IpNet, Ip, link_by_name, route_add, attrs_of}
use vlanman.Host.Exits.{Ends-bind-or_exit}
use vlanman.Cmd.Manager.{ManagerEnvs}
use vlanman.Cmd.Manager.Leader.{
  gateway_name, parsed_via, via_ip, gateway_route, add_gateway_routes, setup_routes, dropped,
  add_ip_address, remove_ip_address,
}
use vlanman.Cmd.Manager.Leader.Addresses.{
  added, deleted, add_addresses-added, delete_addresses-deleted,
}

-- The routes of the gateways, in their order.
abbrev pub all_routes : List Gateway → List (Gateway × Route)
all_routes [] = []
all_routes (gw ∷ gateways) = map (λ r. (gw, r)) (elems gw.routes) ++ all_routes gateways

module _ (host : Host) (link : Link) where
  -- The gateway of a route: none, or the address of the network that `via` names.
  abbrev IsVia : Option String → Option Ip → Type 0
  IsVia none ip = ip ≡ none
  IsVia (some via) ip =
      (found : Option Ip) × (net : IpNet) × (host.parse_cidr via ≡ inr (found, net)) × (ip ≡ net.ip)

  abbrev IsNoVia : Option String → Type 0
  IsNoVia none = ⊥
  IsNoVia (some via) = (e : GoError) × (host.parse_cidr via ≡ inl e)

  -- A route of a gateway as the kernel is asked for it. One whose source is "self" has the address that
  -- the whole text of the gateway's address is, if it is one.
  abbrev pub IsRoute : Gateway × Route → KernelRoute → Type 0
  IsRoute (gw, r) k =
      (found : Option Ip) × (net : IpNet) × (host.parse_cidr r.destination ≡ inr (found, net))
      × IsVia r.via k.gw
      × (k.link_index ≡ (attrs_of link).index)
      × (k.dst ≡ some net)
      × (k.src ≡ (if r.source == "self" then host.parse_ip gw.address else none))
      × (k.scope_link ≡ false)

  -- The destination of a route, or its `via`, cannot be parsed.
  abbrev pub IsUnparsed : Gateway × Route → Type 0
  IsUnparsed (gw, r) = ((e : GoError) × (host.parse_cidr r.destination ≡ inl e)) ⊎ IsNoVia r.via

  -- Each of the routes was asked for, in turn, and accepted.
  pub data Done : List (Gateway × Route) → List HostEvent → List HostEvent → Type 0 where
    done : {h : List HostEvent} → Done [] h h
    accepted :
        {r : Gateway × Route} {rest : List (Gateway × Route)} {k : KernelRoute}
        {h h' : List HostEvent}
        → IsRoute r k
        → host.route_add_answer k h ≡ inr tt
        → Done rest (route_add k ∷ h) h'
        → Done (r ∷ rest) h h'

  -- So were the first of them; the next cannot be parsed, or was refused, and none after it is asked for.
  pub data Stopped : List (Gateway × Route) → List HostEvent → List HostEvent → Type 0 where
    unparsed :
        {r : Gateway × Route} {rest : List (Gateway × Route)} {h : List HostEvent}
        → IsUnparsed r
        → Stopped (r ∷ rest) h h
    refused :
        {r : Gateway × Route} {rest : List (Gateway × Route)} {k : KernelRoute} {h : List HostEvent}
        {e : GoError}
        → IsRoute r k
        → host.route_add_answer k h ≡ inl e
        → Stopped (r ∷ rest) h (route_add k ∷ h)
    after :
        {r : Gateway × Route} {rest : List (Gateway × Route)} {k : KernelRoute}
        {h h' : List HostEvent}
        → IsRoute r k
        → host.route_add_answer k h ≡ inr tt
        → Stopped rest (route_add k ∷ h) h'
        → Stopped (r ∷ rest) h h'

  Done-append :
      {xs ys : List (Gateway × Route)} {h h1 h2 : List HostEvent}
      → Done xs h h1
      → Done ys h1 h2
      → Done (xs ++ ys) h h2
  Done-append done d = d
  Done-append (accepted r a c) d = accepted r a (Done-append c d)

  Done-append_Stopped :
      {xs ys : List (Gateway × Route)} {h h1 h2 : List HostEvent}
      → Done xs h h1
      → Stopped ys h1 h2
      → Stopped (xs ++ ys) h h2
  Done-append_Stopped done d = d
  Done-append_Stopped (accepted r a c) d = after r a (Done-append_Stopped c d)

  Stopped-append :
      {xs : List (Gateway × Route)} (ys : List (Gateway × Route)) {h h1 : List HostEvent}
      → Stopped xs h h1
      → Stopped (xs ++ ys) h h1
  Stopped-append ys (unparsed u) = unparsed u
  Stopped-append ys (refused r a) = refused r a
  Stopped-append ys (after r a c) = after r a (Stopped-append ys c)

  parsed_via-IsVia :
      (v : Option String) (via : Option IpNet)
      → parsed_via host v ≡ inr via
      → IsVia v (via_ip host via)
  parsed_via-IsVia none via e = ap (via_ip host) (sym (inr_injective e))
  parsed_via-IsVia (some v) via e = elim (Sum-cases (host.parse_cidr v)) [
    | inl (x, bad) ↦ absurd (inl_ne_inr (rw (bad, parsed_via) at e))
    | inr ((found, net), parsed) ↦
        (found, net, parsed, ap (via_ip host) (sym (inr_injective (rw (parsed, parsed_via) at e))))
  ]

  parsed_via-IsNoVia : (v : Option String) (x : GoError) → parsed_via host v ≡ inl x → IsNoVia v
  parsed_via-IsNoVia none x e = absurd (inl_ne_inr (sym e))
  parsed_via-IsNoVia (some v) x e = elim (Sum-cases (host.parse_cidr v)) [
    | inl bad ↦ bad
    | inr (found, parsed) ↦ absurd (inl_ne_inr (sym (rw (parsed, parsed_via) at e)))
  ]

  add_gateway_routes-Ends :
      (gw : Gateway) (routes : List Route) (h : List HostEvent)
      → Ends
          (λ _. Done (map (λ r. (gw, r)) routes) h)
          (λ _. Stopped (map (λ r. (gw, r)) routes) h)
          (λ _. ⊥)
          (add_gateway_routes host (some link) gw routes h)
  unfolding add_gateway_routes gateway_route
  add_gateway_routes-Ends gw [] h = Ends-return _ h done
  add_gateway_routes-Ends gw (r ∷ routes) h =
      Ends-bind-lift _ _ _ (λ e bad. unparsed (inl (e, bad)))
        (λ net parsed.
          Ends-bind-lift _ _ _ (λ e bad. unparsed (inr (parsed_via-IsNoVia r.via e bad)))
            (λ via named.
              let is : IsRoute (gw, r) (gateway_route host gw r (attrs_of link).index net.1 via) =
                (net.0, net.1, parsed, parsed_via-IsVia r.via via named, refl, refl, refl, refl) in
              Ends-bind (λ i h1. (i ≡ (attrs_of link).index) × (h1 ≡ h)) _ _ h
                (Ends-return _ h (refl, refl))
                (λ index h1 (i, at).
                  rw (i, at)
                    (Ends-bind-call _ _ _ h (λ _ no. refused is no)
                      (λ _ yes.
                        Ends-map_value (λ _ _. accepted is yes)
                          (Ends-map_error (λ _ _. after is yes)
                            (add_gateway_routes-Ends gw routes _)))))))

  pub setup_routes-Ends :
      (gateways : List Gateway) (h : List HostEvent)
      → Ends
          (λ _. Done (all_routes gateways) h)
          (λ _. Stopped (all_routes gateways) h)
          (λ _. ⊥)
          (setup_routes host (some link) gateways h)
  unfolding setup_routes
  setup_routes-Ends [] h = Ends-return _ h done
  setup_routes-Ends (gw ∷ gateways) h =
      Ends-bind _ _ _ h
        (Ends-map_error (λ _ _. Stopped-append (all_routes gateways))
          (add_gateway_routes-Ends gw (elems gw.routes) h))
        (λ _ h1 first.
          Ends-map_value (λ _ _. Done-append first)
            (Ends-map_error (λ _ _. Done-append_Stopped first) (setup_routes-Ends gateways h1)))

  -- The routes of the gateways were asked for in turn, each until the first that does not pass.
  abbrev pub Routed : List Gateway → List HostEvent → List HostEvent → Type 0
  Routed gateways h h' = Done (all_routes gateways) h h' ⊎ Stopped (all_routes gateways) h h'

  pub dropped-Routed :
      {F : ℕ → List HostEvent → Type 0} (gateways : List Gateway) (h : List HostEvent)
      → Ends
          (λ _. Routed gateways h)
          F
          (λ _. ⊥)
          (dropped host (setup_routes host (some link) gateways) h)
  unfolding dropped
  dropped-Routed {F} gateways h =
      go (setup_routes host (some link) gateways h) (setup_routes-Ends gateways h)
    where
      go :
          (out : Out HostEvent GoError (Unit {0}))
          → Ends
              (λ _. Done (all_routes gateways) h)
              (λ _. Stopped (all_routes gateways) h)
              (λ _. ⊥)
              out
          → Ends (λ _. Routed gateways h) F (λ _. ⊥) (dropped host (λ _. out) h)
      go (ok a, h2) s = record { holds = inl s.holds }
      go (err e, h2) s = record { holds = inr s.holds }
      go (panic, h2) s = record { holds = s.holds }

module _ (host : Host) where
  -- The interface was found, and was asked to have each of the addresses; then came the routes.
  abbrev pub IsLeading : ManagerEnvs → Link → List IpNet → List HostEvent → List HostEvent → Type 0
  IsLeading e gateway_link nets h h' =
      (link : Link) × (host.link_by_name_answer (gateway_name e) h ≡ inr link)
      × Routed host gateway_link e.gateways (added link nets (link_by_name (gateway_name e) ∷ h)) h'

  abbrev pub IsStopped : ManagerEnvs → List IpNet → List HostEvent → List HostEvent → Type 0
  IsStopped e nets h h' =
      (link : Link) × (host.link_by_name_answer (gateway_name e) h ≡ inr link)
      × (h' ≡ deleted link nets (link_by_name (gateway_name e) ∷ h))

  -- A manager that becomes the leader asks, on the interface of the gateway, for each address in turn,
  -- and after them for the routes of its gateways in turn, through the link that the election was begun
  -- with, to their destinations and by their gateways as they are parsed; the first route that cannot
  -- be parsed or is refused is the last. A route from the gateway itself has as its source what the
  -- whole text of the gateway's address is parsed to. A manager that stops leading asks for the
  -- deletion of the same addresses, in the same order. Either returns only so, exits only with code 1,
  -- and never panics.
  pub election_callbacks :
      (e : ManagerEnvs) (gateway_link : Link) (nets : List IpNet) (h : List HostEvent)
      → Ends
          (λ _. IsLeading e gateway_link nets h)
          (λ code _. code ≡ 1)
          (λ _. ⊥)
          (add_ip_address host e (some gateway_link) nets h)
        × Ends
            (λ _. IsStopped e nets h)
            (λ code _. code ≡ 1)
            (λ _. ⊥)
            (remove_ip_address host e nets h)
  unfolding add_ip_address remove_ip_address
  election_callbacks e gateway_link nets h = (
    Ends-bind-ask _ _ _ h (
        Ends-bind-or_exit _ _ _ refl (λ link found.
          Ends-bind _ _ _ _ (add_addresses-added host link nets _) (λ _ h1 at. rw at (
            Ends-map_value (λ _ h2 routed. (link, found, routed))
              (dropped-Routed host gateway_link e.gateways _))))),
    Ends-bind-ask _ _ _ h (
        Ends-bind-or_exit _ _ _ refl (λ link found.
          Ends-map_value (λ _ h2 at. (link, found, at))
            (delete_addresses-deleted host link nets _))),
  )
