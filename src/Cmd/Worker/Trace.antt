-- ===== src/Cmd/Worker/Trace.antt =====
-- The worker's calls where it succeeds, and how it ends where it does not.
use vlanman.Prelude.{
  ℤ, String, List, [], ◌∷◌, Option, none, some, inl, inr, true, eqb, ◌≡◌, refl, Bool-cases, ap, ◌∙◌,
}
use vlanman.Prelude.Text.{◌⧺◌}
use vlanman.Prelude.Decimal.{parsed, parse_int, format_int}
use vlanman.Prelude.Ends.{
  Ends, Ends-return, Ends-fail, Ends-crash, Ends-bind, Ends-bind-ask, Ends-map_value, Ends-weaken,
}
use vlanman.Api.{Route}
use vlanman.Cluster.{Response}
use vlanman.Host.{
  Host, HostAnswer, HostEvent, Environment, Link, IpNet, link_by_name, link_set_up, addr_add,
  route_add, command, http_post, trim_space, file_exists,
}
use vlanman.Host.Exits.{Ends-bind-parsed, Ends-bind-or_exit, Ends-or_exit}
use vlanman.Cmd.Worker.{
  url, own_ns, checked, read_body, own_net, kernel_route, add_routes, address_added,
  request_macvlan, configure, worker_main,
}

module _ (host : Host) where
  -- The requests for routes, put before the events.
  pub routes_asked : Link → IpNet → List Route → List HostEvent → List HostEvent
  routes_asked link own [] h = h
  routes_asked link own (r ∷ routes) h =
      routes_asked link own routes (route_add (kernel_route host link own r) ∷ h)

  add_routes-asked :
      (link : Link) (own : IpNet) (routes : List Route) (h : List HostEvent)
      → Ends
          (λ _ h'. h' ≡ routes_asked link own routes h)
          (λ code _. code ≡ 1)
          (λ _. ⊥)
          (add_routes host link own routes h)
  unfolding add_routes routes_asked
  add_routes-asked link own [] h = Ends-return _ h refl
  add_routes-asked link own (r ∷ routes) h =
      Ends-bind-ask _ _ _ h
        (Ends-bind-or_exit _ _ _ refl (λ _ _. add_routes-asked link own routes _))

  -- What a macvlan is asked for with, and what the answer names.
  abbrev IsRequested : Environment → List HostEvent → ℤ → List HostEvent → Type 0
  IsRequested env h id h' =
      (text : String) × (ns_id : ℤ) × (payload : String) × (response : Response) × (body : String)
      × (host.command_answer own_ns h ≡ inr text)
      × (parse_int 64 (trim_space text) ≡ parsed ns_id)
      × (host.marshal_ns_id ns_id ≡ inr payload)
      × (host.http_post_answer (url env) payload (command own_ns ∷ h) ≡ inr (some response))
      × (eqb response.status_code 200 ≡ true)
      × (response.body ≡ some (inr body))
      × (host.unmarshal_vlan_id body ≡ inr id)
      × (h' ≡ http_post (url env) payload ∷ command own_ns ∷ h)

  -- The newest event is a request whose response has no body.
  abbrev pub IsBodiless : List HostEvent → Type 0
  IsBodiless [] = ⊥
  IsBodiless (e ∷ h) =
      (to : String) × (payload : String) × (response : Response) × (e ≡ http_post to payload)
      × (host.http_post_answer to payload h ≡ inr (some response))
      × (response.body ≡ none)

  checked-Ends :
      {C : List HostEvent → Type 0} (r : Option Response) (h : List HostEvent)
      → Ends
          (λ response h'. (r ≡ some response) × (eqb response.status_code 200 ≡ true) × (h' ≡ h))
          (λ code _. code ≡ 1)
          C
          (checked r h)
  checked-Ends none h = Ends-fail _ h refl
  checked-Ends (some response) h = elim (Bool-cases (eqb response.status_code 200)) [
    | inl good ↦ rw good (Ends-return _ h (refl, good, refl))
    | inr bad ↦ rw bad (Ends-fail _ h refl)
  ]

  read_body-Ends :
      {C : List HostEvent → Type 0} (body : Option (HostAnswer String)) (h : List HostEvent)
      → (body ≡ none → C h)
      → Ends
          (λ text h'. (body ≡ some (inr text)) × (h' ≡ h))
          (λ code _. code ≡ 1)
          C
          (read_body body h)
  read_body-Ends none h c = Ends-crash h (c refl)
  read_body-Ends (some (inl e)) h c = Ends-fail _ h refl
  read_body-Ends (some (inr text)) h c = Ends-return text h (refl, refl)

  request_macvlan-IsRequested :
      (env : Environment) (h : List HostEvent)
      → Ends (IsRequested env h) (λ code _. code ≡ 1) IsBodiless (request_macvlan host env h)
  unfolding request_macvlan
  request_macvlan-IsRequested env h = Ends-bind-ask _ _ _ h (
      Ends-bind-or_exit _ _ _ refl (λ text e1. Ends-bind-parsed _ _ _ refl (λ ns_id e2.
        Ends-bind-or_exit _ _ _ refl (λ payload e3. Ends-bind-ask _ _ _ _ (
          Ends-bind-or_exit _ _ _ refl (λ received e4.
            Ends-bind _ _ _ _ (checked-Ends received _) (λ response h1 (e5, e6, at1). rw at1 (
              Ends-bind _ _ _ _
                (read_body-Ends response.body _ (λ no. (_, _, response, refl, e4 ∙ ap inr e5, no)))
                (λ body h2 (e7, at2). rw at2 (
                  Ends-or_exit _ _ refl (λ id e8. (
                    text,
                    ns_id,
                    payload,
                    response,
                    body,
                    e1,
                    e2,
                    e3,
                    e4 ∙ ap inr e5,
                    e6,
                    e7,
                    e8,
                    refl,
                  ))))))))))))

  -- The interface was received, set up, and asked to have the address and then each of the routes.
  abbrev pub IsConfigured : Environment → List HostEvent → List HostEvent → Type 0
  IsConfigured env h h' =
      (id : ℤ) × (h1 : List HostEvent) × (link : Link) × (routes : List Route) × IsRequested env h
        id h1
      × (host.link_by_name_answer ("macvlan" ⧺ format_int id) h1 ≡ inr link)
      × (host.link_set_up_answer link (link_by_name ("macvlan" ⧺ format_int id) ∷ h1) ≡ inr tt)
      × (host.unmarshal_routes (env "ROUTES") ≡ inr routes)
      × (h'
          ≡ routes_asked link (own_net host env) routes (
              addr_add link (own_net host env)
              ∷ link_set_up link
              ∷ link_by_name ("macvlan" ⧺ format_int id)
              ∷ h1))

  address_added-Ends :
      {C : List HostEvent → Type 0} (r : HostAnswer (Unit {0})) (h : List HostEvent)
      → Ends (λ _ h'. h' ≡ h) (λ code _. code ≡ 1) C (address_added host r h)
  address_added-Ends (inr _) h = Ends-return _ h refl
  address_added-Ends (inl e) h = elim (Bool-cases (file_exists host e)) [
    | inl there ↦ rw there (Ends-return _ h refl)
    | inr other ↦ rw other (Ends-fail _ h refl)
  ]

  -- Where the worker returns, its calls were these, in this order: the number of its network
  -- namespace, the request with that number, answered with status 200 and the number of an interface,
  -- then the look-up and the set-up of that interface, its address, and each route of ROUTES in turn.
  -- Where it exits, the code is 1. It panics only on a response without a body.
  pub worker_main-IsConfigured :
      (env : Environment) (h : List HostEvent)
      → Ends (λ _. IsConfigured env h) (λ code _. code ≡ 1) IsBodiless (worker_main host env h)
  unfolding worker_main configure
  worker_main-IsConfigured env h =
      Ends-bind _ _ _ h (request_macvlan-IsRequested env h) (λ id h1 requested.
        Ends-bind-ask _ _ _ h1 (
          Ends-bind-or_exit _ _ _ refl (λ link found. Ends-bind-ask _ _ _ _ (
            Ends-bind-or_exit _ _ _ refl (λ _ up. Ends-bind-ask _ _ _ _ (
              Ends-bind _ _ _ _ (address_added-Ends _ _) (λ _ h2 at. rw at (
                Ends-bind-or_exit _ _ _ refl (λ routes e.
                  Ends-map_value
                    (λ _ h3 asked. (id, h1, link, routes, requested, found, up, e, asked))
                    (Ends-weaken (λ _ never. absurd never)
                      (add_routes-asked link (own_net host env) routes _)))))))))))
