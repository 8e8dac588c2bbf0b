-- ===== src/Cmd/Worker/FromManager.antt =====
-- The worker and the daemon together: the worker's request is answered with what the handler `macvlan`
-- replies to it.
use vlanman.Prelude.{
  ℕ, ℤ, String, List, [], ◌∷◌, Option, none, some, ◌⊎◌, inl, inr, true, eqb, ◌≡◌, refl, sym, ◌∙◌,
  ap, subst, inr_injective, arith,
}
use vlanman.Prelude.Decimal.{parsed, parse_int, format_int}
use vlanman.Prelude.Text.{◌⧺◌}
use vlanman.Prelude.Run.{Out, ok, err, panic}
use vlanman.Prelude.Ends.{Ends, Ends-map_value, Ends-weaken, Ends-ok}
use vlanman.Errors.{GoError}
use vlanman.Cluster.{Response}
use vlanman.Host.{
  Host, HostEvent, Environment, Link, attrs_of, command, link_by_name, http_post, trim_space,
}
use vlanman.Cmd.Manager.Macvlan.{Reply, macvlan, macvlan_on}
use vlanman.Cmd.Manager.Macvlan.Replies.{IsMoved, IsServed, macvlan-IsReply}
use vlanman.Cmd.Worker.{url, own_ns, worker_main}
use vlanman.Cmd.Worker.Trace.{IsConfigured, IsBodiless, worker_main-IsConfigured}

-- What the client receives of a reply: its status and, if it can be read, the text of its number.
abbrev pub Delivers : (ℤ → String) → Out HostEvent (Unit {0}) Reply → Response → Type 0
Delivers encode out response =
    (r : Reply)
    → out.0 ≡ ok r
    → (response.status_code ≡ r.status)
      × ((body : String) → response.body ≡ some (inr body) → body ≡ encode r.id)

-- A run that neither fails nor panics has a value.
value_of :
    {A : Type 0} {P : A → List HostEvent → Type 0} (out : Out HostEvent (Unit {0}) A)
    → Ends P (λ _ _. ⊥) (λ _. ⊥) out
    → (a : A) × (out.0 ≡ ok a)
value_of (ok a, _) s = (a, refl)
value_of (err _, _) s = absurd s.holds
value_of (panic, _) s = absurd s.holds

is_200 : (a b : ℕ) → eqb a 200 ≡ true → a ≡ b → b ≡ 200
is_200 a b good same = ground arith

-- `before` are the events on the node of the manager when the request comes, `encode` the JSON text of
-- a MacvlanResponse.
module _ (worker manager : Host) (vlan_id : ℤ) (env : Environment)
    (before : List HostEvent → List HostEvent) (encode : ℤ → String) where
  -- The worker set up the link of the name of a macvlan that the manager made in answer to its request,
  -- and moved to the process that it found for the network namespace of the worker.
  abbrev pub IsConnected : List HostEvent → Type 0
  IsConnected h =
      (text : String) × (ns_id : ℤ) × (payload : String) × (vlan link : Link) × (h1 : List
        HostEvent)
      × (worker.command_answer own_ns h ≡ inr text)
      × (parse_int 64 (trim_space text) ≡ parsed ns_id)
      × IsMoved manager vlan_id (macvlan_on manager vlan_id vlan) ns_id
          (macvlan manager vlan_id (some (inr payload)) (before (command own_ns ∷ h))).1
      × (h1 ≡ http_post (url env) payload ∷ command own_ns ∷ h)
      × (worker.link_by_name_answer (attrs_of (macvlan_on manager vlan_id vlan)).name h1 ≡ inr link)
      × (worker.link_set_up_answer link
            (link_by_name (attrs_of (macvlan_on manager vlan_id vlan)).name ∷ h1)
          ≡ inr tt)

  module _
      (sent : (payload : String) (h : List HostEvent) (response : Response)
        → worker.http_post_answer (url env) payload h ≡ inr (some response)
        → Delivers encode (macvlan manager vlan_id (some (inr payload)) (before h)) response)
      (bodies : (to payload : String) (h : List HostEvent) (response : Response)
        → worker.http_post_answer to payload h ≡ inr (some response)
        → ¬ (response.body ≡ none))
      (number_back : worker.unmarshal_vlan_id (encode vlan_id) ≡ inr vlan_id)
      (ns_back : (n : ℤ) (text payload : String)
        → parse_int 64 text ≡ parsed n
        → worker.marshal_ns_id n ≡ inr payload
        → manager.unmarshal_ns_id payload ≡ inr n) where
    -- A reply with status 200 is that of a request that was served.
    Reply-IsServed :
        (body : Option (GoError ⊎ String)) (h : List HostEvent) (r : Reply)
        → (macvlan manager vlan_id body h).0 ≡ ok r
        → r.status ≡ 200
        → IsServed manager vlan_id body r (macvlan manager vlan_id body h).1
    Reply-IsServed body h r e good = elim (Ends-ok r (macvlan-IsReply manager vlan_id body h) e) [
      | inl served ↦ served
      | inr (bad, _) ↦ absurd (omega (arith, good, bad))
    ]

    -- A request that was served, on a body whose number is known.
    body-IsServed :
        (payload : String) (ns_id : ℤ) (r : Reply) (hm : List HostEvent)
        → manager.unmarshal_ns_id payload ≡ inr ns_id
        → IsServed manager vlan_id (some (inr payload)) r hm
        → (vlan : Link) × (r.id ≡ vlan_id)
          × IsMoved manager vlan_id (macvlan_on manager vlan_id vlan) ns_id hm
    body-IsServed payload ns_id r hm e (text, ns, vlan, _, same, read, _, (done, moved)) = (
      vlan,
      ap (λ (a : Reply). a.id) done,
      subst (λ n. IsMoved manager vlan_id (macvlan_on manager vlan_id vlan) n hm)
          (inr_injective (sym read ∙ ap manager.unmarshal_ns_id (sym text_same) ∙ e)) moved,
    )
      where
        text_same : payload ≡ text
        text_same = cc

    configured-IsConnected : (h h' : List HostEvent) → IsConfigured worker env h h' → IsConnected h
    configured-IsConnected h h'
          (
            id,
            h1,
            link,
            routes,
            (
              text, ns_id, payload, response, body, asked, number, put, answered, good, whole, got,
              at,
            ),
            found,
            up,
            _,
            _,
          ) =
        let (r, replied) = value_of _ (macvlan-IsReply manager vlan_id (some (inr payload)) _) in
        let (status, text_of) = sent payload (command own_ns ∷ h) response answered r replied in
        let (vlan, same, moved) =
          body-IsServed payload ns_id r _ (ns_back ns_id _ payload number put) (
            Reply-IsServed (some (inr payload)) (before (command own_ns ∷ h)) r replied
              (is_200 _ _ good status)) in
        let its_id = inr_injective (
          sym got
          ∙ ap worker.unmarshal_vlan_id (text_of body whole ∙ ap encode same)
          ∙ number_back) in
        (
          text,
          ns_id,
          payload,
          vlan,
          link,
          h1,
          asked,
          number,
          moved,
          at,
          subst (λ n. worker.link_by_name_answer ("macvlan" ⧺ format_int n) h1 ≡ inr link) its_id
              found,
          subst
              (λ n.
                worker.link_set_up_answer link (link_by_name ("macvlan" ⧺ format_int n) ∷ h1)
                ≡ inr tt)
              its_id up,
        )

    never_bodiless : (h : List HostEvent) → IsBodiless worker h → ⊥
    never_bodiless [] never = absurd never
    never_bodiless (_ ∷ h) (to, payload, response, _, answered, absent) =
        bodies to payload h response answered absent

    -- Where the worker's request is answered with what the handler of the manager on its node replies,
    -- and the numbers in the messages are read back, a worker that returns has set up the link of the
    -- name of a macvlan that this manager made for the request, and moved to the process that it found
    -- for the network namespace of the worker. It exits only with code 1, and never panics.
    pub worker_main-IsConnected :
        (h : List HostEvent)
        → Ends (λ _ _. IsConnected h) (λ code _. code ≡ 1) (λ _. ⊥) (worker_main worker env h)
    worker_main-IsConnected h =
        Ends-weaken (λ h1 bodiless. never_bodiless h1 bodiless)
          (Ends-map_value (λ _ h' done. configured-IsConnected h h' done)
            (worker_main-IsConfigured worker env h))
