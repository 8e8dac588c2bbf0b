-- ===== src/Controller/Status/Writes.antt =====
-- Which networks one update of all of them writes.
use vlanman.Prelude.{ℤ, String, List, [], ◌∷◌, ◌++◌, Option, none, some, inr, ◌≡◌, refl, ap}
use vlanman.Prelude.Ends.{
  Ends, Ends-return, Ends-call, Ends-bind-ask, Ends-bind-attempt, Ends-bind-attempt-keeps,
  Ends-bind-wrap-call, Ends-bind-wrap-lift, Ends-map_value,
}
use vlanman.Api.{VlanNetwork}
use vlanman.Cluster.{Cluster, Operator, Event, Envs, update_status}
use vlanman.Controller.Status.{StatusOutcome, update_network_status, update_each, after_refresh}

-- The names of the networks whose status is written, the newest first.
unfoldable pub writes_in : List Event → List String
writes_in [] = []
writes_in (update_status net ∷ h) = net.name ∷ writes_in h
writes_in (_ ∷ h) = writes_in h

-- The writes after those of the networks, one for each, in their order.
abbrev after_writes : List VlanNetwork → List String → List String
after_writes [] done = done
after_writes (net ∷ nets) done = after_writes nets (net.name ∷ done)

-- What was asked to be written: without an error every network, with one those of a first part of
-- the list, each once and in the order of the list.
abbrev pub Written : List VlanNetwork → List String → StatusOutcome → List Event → Type 0
Written nets done (_, none) h = writes_in h ≡ after_writes nets done
Written nets done (_, some _) h =
    (first rest : List VlanNetwork) × (nets ≡ first ++ rest)
    × (writes_in h ≡ after_writes first done)

module _ (c : Cluster) (env : Envs) where
  refreshed-writes :
      (net : VlanNetwork) (done : List String) (h : List Event)
      → writes_in h ≡ done
      → Ends
          (λ fresh h'. (fresh.0.name ≡ net.name) × (writes_in h' ≡ done))
          (λ _ h'. writes_in h' ≡ done)
          (λ _. ⊥)
          (update_network_status c env net h)
  unfolding update_network_status writes_in
  refreshed-writes net done h p =
      Ends-bind-attempt-keeps (λ h'. writes_in h' ≡ done) _ _ h
        (Ends-call _ _ h (λ _ _. p) (λ _ _. p))
        (λ daemons h1 q.
          Ends-bind-wrap-lift _ _ _ h1 (λ _ _. q)
            (λ _ _.
              Ends-bind-wrap-call _ _ _ _ h1 (λ _ _. q)
                (λ pods _. Ends-bind-ask _ _ _ _ (Ends-return _ _ (refl, q)))))

  one_more :
      (net : VlanNetwork) (nets : List VlanNetwork) (done : List String) (out : StatusOutcome)
      (h : List Event)
      → Written nets (net.name ∷ done) out h
      → Written (net ∷ nets) done out h
  one_more net nets done (rq, none) h w = w
  one_more net nets done (rq, some e) h (first, rest, parts, w) =
      (net ∷ first, rest, ap (◌∷◌ net) parts, w)

  after_write-Written :
      (nets : List VlanNetwork) (done : List String) (net : VlanNetwork)
      (next : Option ℤ → Operator StatusOutcome)
      → ((rq : Option ℤ) (h : List Event)
          → writes_in h ≡ net.name ∷ done
          → Ends (Written nets (net.name ∷ done)) (λ _ _. ⊥) (λ _. ⊥) (next rq h))
      → (fresh : VlanNetwork) (rq : Option ℤ) (h : List Event) → fresh.name ≡ net.name
      → writes_in h ≡ done
      → Ends
          (Written nets (net.name ∷ done))
          (λ _ _. ⊥)
          (λ _. ⊥)
          (after_refresh c next (inr (fresh, rq)) h)
  unfolding writes_in
  after_write-Written nets done net next continues fresh rq h named p =
      Ends-bind-attempt (λ _ h'. writes_in h' ≡ net.name ∷ done)
        (λ _ h'. writes_in h' ≡ net.name ∷ done) _ _ h
        (Ends-call _ _ h (λ _ _. written) (λ _ _. written))
        (λ e h' q. Ends-return _ h' ([], nets, refl, q)) (λ _ h' q. continues rq h' q)
    where
      written : (fresh.name ∷ writes_in h) ≡ (net.name ∷ done)
      written = λ i. named i ∷ p i

  -- After the networks are listed, an update asks to write each network once, in the order of the
  -- list, if it ends without an error; with an error it asked to write those of a first part of the list, in order.
  -- An error is part of its result, and it never panics.
  pub update_each-Written :
      (nets : List VlanNetwork) (rq : Option ℤ) (done : List String) (h : List Event)
      → writes_in h ≡ done
      → Ends (Written nets done) (λ _ _. ⊥) (λ _. ⊥) (update_each c env nets rq h)
  unfolding update_each
  update_each-Written [] rq done h p = Ends-return _ h p
  update_each-Written (net ∷ nets) rq done h p =
      Ends-bind-attempt (λ fresh h'. (fresh.0.name ≡ net.name) × (writes_in h' ≡ done))
        (λ _ h'. writes_in h' ≡ done) _ _ h (refreshed-writes net done h p)
        (λ e h' q. Ends-return _ h' ([], net ∷ nets, refl, q))
        (λ fresh h' (named, q).
          Ends-map_value (λ out h''. one_more net nets done out h'')
            (after_write-Written nets done net _
              (λ rq h''. update_each-Written nets rq (net.name ∷ done) h'') fresh.0 fresh.1 h' named
              q))
