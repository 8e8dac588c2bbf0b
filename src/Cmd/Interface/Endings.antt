-- ===== src/Cmd/Interface/Endings.antt =====
-- How the interface job ends, and what it leaves on the node.
use vlanman.Prelude.{
  ℕ, ℤ, String, List, [], ◌∷◌, ◌⊎◌, inl, inr, ◌≡◌, refl, true, false, Bool-cases, Sum-cases, any,
  ◌==◌, Option, sym, subst,
}
use vlanman.Prelude.Decimal.{parsed, parse_int}
use vlanman.Prelude.Run.{◌>>=◌}
use vlanman.Prelude.Ends.{Ends, Ends-return, Ends-fail, Ends-bind, Ends-bind-ask, Ends-map_error}
use vlanman.Errors.{GoError}
use vlanman.Host.{
  Host, HostAnswer, Program, Environment, Link, HostEvent, KernelRoute, IpNet, Ip, link_add,
  link_del, link_set_up, link_set_ns_pid, file_exists, or_exit,
}
use vlanman.Host.Exits.{Ends-bind-parsed, adds}
use vlanman.Cmd.Interface.{
  find_in, after_routes, after_list, after_parse, find_default_interface, find_parent, remove_found,
  add_vlan, make_vlan, vlan_of, move_vlan, interface_main, is_default,
}

module _ (host : Host) where
  -- Of an interface and a process, the code that the program exits with and the events then: it was
  -- made, set up and moved; or it could not be made, which is an error unless it is there already; or
  -- it was made, and its deletion is the last thing that was asked.
  pub data Ending (vlan : Link) (pid : ℤ) (h : List HostEvent) : ℕ → List HostEvent → Type 0 where
    moved :
        {h' : List HostEvent}
        → adds h' ≡ adds h
        → host.link_add_answer vlan h' ≡ inr tt
        → host.link_set_up_answer vlan (link_add vlan ∷ h') ≡ inr tt
        → host.link_set_ns_pid_answer vlan pid (link_set_up vlan ∷ link_add vlan ∷ h') ≡ inr tt
        → Ending vlan pid h 0 (link_set_ns_pid vlan pid ∷ link_set_up vlan ∷ link_add vlan ∷ h')
    existing :
        {h' : List HostEvent} {e : GoError}
        → adds h' ≡ adds h
        → host.link_add_answer vlan h' ≡ inl e
        → file_exists host e ≡ true
        → Ending vlan pid h 0 (link_add vlan ∷ h')
    refused :
        {h' : List HostEvent} {e : GoError}
        → adds h' ≡ adds h
        → host.link_add_answer vlan h' ≡ inl e
        → file_exists host e ≡ false
        → Ending vlan pid h 1 (link_add vlan ∷ h')
    not_up :
        {h' : List HostEvent} {e : GoError}
        → adds h' ≡ adds h
        → host.link_add_answer vlan h' ≡ inr tt
        → host.link_set_up_answer vlan (link_add vlan ∷ h') ≡ inl e
        → Ending vlan pid h 1 (link_del vlan ∷ link_set_up vlan ∷ link_add vlan ∷ h')
    not_moved :
        {h' : List HostEvent} {e : GoError}
        → adds h' ≡ adds h
        → host.link_add_answer vlan h' ≡ inr tt
        → host.link_set_up_answer vlan (link_add vlan ∷ h') ≡ inr tt
        → host.link_set_ns_pid_answer vlan pid (link_set_up vlan ∷ link_add vlan ∷ h') ≡ inl e
        → Ending vlan pid h 1
            (link_del vlan ∷ link_set_ns_pid vlan pid ∷ link_set_up vlan ∷ link_add vlan ∷ h')
    not_begun : {h' : List HostEvent} → adds h' ≡ adds h → Ending vlan pid h 1 h'

  -- No interface was asked for since `h`; a program that exited did so with code 1.
  abbrev Unbegun : {A : Type 0} → List HostEvent → Program A → List HostEvent → Type 0
  Unbegun h m h' =
      Ends (λ _ h2. adds h2 ≡ adds h) (λ code h2. (code ≡ 1) × (adds h2 ≡ adds h)) (λ _. ⊥) (m h')

  or_exit-Unbegun :
      {E A : Type 0} (r : E ⊎ A) (h h' : List HostEvent)
      → adds h' ≡ adds h
      → Unbegun h (or_exit r) h'
  or_exit-Unbegun (inl e) h h' p = Ends-fail _ h' (refl, p)
  or_exit-Unbegun (inr a) h h' p = Ends-return a h' p

  find_in-Unbegun :
      (dflt : String) (links : List Link) (h h' : List HostEvent)
      → adds h' ≡ adds h
      → Unbegun h (find_in host dflt links) h'
  unfolding find_in adds
  find_in-Unbegun dflt [] h h' p = Ends-return _ h' p
  find_in-Unbegun dflt (l ∷ links) h h' p =
      Ends-bind-ask _ _ _ h' (go (host.route_list_answer l h') _ p (find_in-Unbegun dflt links h))
    where
      go :
          (routes : HostAnswer (List KernelRoute)) (h1 : List HostEvent)
          → adds h1 ≡ adds h
          → ((h' : List HostEvent) → adds h' ≡ adds h → Unbegun h (find_in host dflt links) h')
          → Unbegun h (after_routes host dflt l (find_in host dflt links) routes) h1
      go (inl e) h1 q next = Ends-return _ h1 q
      go (inr routes) h1 q next = elim (Bool-cases (any (is_default host dflt) routes)) [
        | inl found ↦ rw found (Ends-return _ h1 q)
        | inr other ↦ rw other (next h1 q)
      ]

  find_default_interface-Unbegun :
      (h h' : List HostEvent) → adds h' ≡ adds h → Unbegun h (find_default_interface host) h'
  unfolding find_default_interface adds
  find_default_interface-Unbegun h h' p = parse (host.parse_cidr "0.0.0.0/0")
    where
      list :
          (dflt : String) (links : HostAnswer (List Link)) (h1 : List HostEvent)
          → adds h1 ≡ adds h
          → Unbegun h (after_list host dflt links) h1
      list dflt (inl e) h1 q = Ends-return _ h1 q
      list dflt (inr links) h1 q = find_in-Unbegun dflt links h h1 q

      parse : (net : HostAnswer (Option Ip × IpNet)) → Unbegun h (after_parse host net) h'
      parse (inl e) = Ends-return _ h' p
      parse (inr (_, dflt)) = Ends-bind-ask _ _ _ h' (list _ _ _ p)

  find_parent-Unbegun : (name : String) (h : List HostEvent) → Unbegun h (find_parent host name) h
  unfolding find_parent adds
  find_parent-Unbegun name h = elim (Bool-cases (name == "")) [
    | inl empty ↦ rw empty (
        Ends-bind _ _ _ h (find_default_interface-Unbegun h h refl)
          (λ found h1 p. or_exit-Unbegun found h h1 p))
    | inr given ↦ rw given (Ends-bind-ask _ _ _ h (or_exit-Unbegun _ h _ refl))
  ]

  remove_found-Unbegun :
      (old : HostAnswer Link) (h h' : List HostEvent)
      → adds h' ≡ adds h
      → Unbegun h (remove_found host old) h'
  unfolding adds
  remove_found-Unbegun (inl _) h h' p = Ends-return _ h' p
  remove_found-Unbegun (inr link) h h' p = Ends-bind-ask _ _ _ h' (or_exit-Unbegun _ h _ p)

  module _ (vlan : Link) (pid : ℤ) (h : List HostEvent) where
    abbrev Leaves : Program (Unit {0}) → List HostEvent → Type 0
    Leaves m h' = Ends (λ _ _. ⊥) (Ending vlan pid h) (λ _. ⊥) (m h')

    add_vlan-Ending : (h' : List HostEvent) → adds h' ≡ adds h → Leaves (add_vlan host vlan pid) h'
    unfolding add_vlan ◌>>=◌
    add_vlan-Ending h' p = elim (Sum-cases (host.link_add_answer vlan h')) [
      | inl (e, q) ↦ elim (Bool-cases (file_exists host e)) [
        | inl there ↦ rw (q, there) (record { holds = existing p q there })
        | inr other ↦ rw (q, other) (record { holds = refused p q other })
      ]
      | inr (_, q) ↦ elim (Sum-cases (host.link_set_up_answer vlan (link_add vlan ∷ h'))) [
        | inl (e, r) ↦ rw (q, r) (record { holds = not_up p q r })
        | inr (_, r) ↦
            elim (Sum-cases
              (host.link_set_ns_pid_answer vlan pid (link_set_up vlan ∷ link_add vlan ∷ h'))) [
                | inl (e, t) ↦ rw (q, r, t) (record { holds = not_moved p q r t })
                | inr (_, t) ↦ rw (q, r, t) (record { holds = moved p q r t })
              ]
      ]
    ]

    unbegun :
        (code : ℕ) (h' : List HostEvent)
        → (code ≡ 1) × (adds h' ≡ adds h)
        → Ending vlan pid h code h'
    unbegun code h' (e, p) = subst (λ k. Ending vlan pid h k h') (sym e) (not_begun p)

    make_vlan-Ending :
        (h' : List HostEvent) → adds h' ≡ adds h → Leaves (make_vlan host vlan pid) h'
    unfolding make_vlan adds
    make_vlan-Ending h' p = Ends-bind-ask _ _ _ h' (
        Ends-bind (λ _ h2. adds h2 ≡ adds h) _ _ _
          (Ends-map_error unbegun (remove_found-Unbegun _ h _ p)) (λ _ h2 q. add_vlan-Ending h2 q))

  -- The program was started with numbers in ID and PID, found the parent `dflt`, and ended so for it.
  abbrev pub IsMade : Environment → List HostEvent → ℕ → List HostEvent → Type 0
  IsMade env h code h' =
      (id : ℤ) × (pid : ℤ) × (dflt : Link) × (parse_int 64 (env "ID") ≡ parsed id)
      × (parse_int 64 (env "PID") ≡ parsed pid)
      × Ending (vlan_of host (env "ID") id dflt) pid h code h'

  abbrev pub IsUnbegun : List HostEvent → ℕ → List HostEvent → Type 0
  IsUnbegun h code h' = (code ≡ 1) × (adds h' ≡ adds h)

  -- The interface job always exits, and never panics. It asks for an interface at most once. It exits
  -- with code 0 exactly where the interface was made, set up and moved to the process, or was refused
  -- because it exists. Where it was made but not set up or not moved, its deletion is asked for last,
  -- and the code is 1, as in every other case.
  pub interface_main-Ending :
      (env : Environment) (h : List HostEvent)
      → Ends
          (λ _ _. ⊥)
          (λ code h'. IsUnbegun h code h' ⊎ IsMade env h code h')
          (λ _. ⊥)
          (interface_main host env h)
  unfolding interface_main move_vlan
  interface_main-Ending env h = Ends-bind-parsed _ _ h (inl (refl, refl)) (λ id id_is.
      Ends-bind-parsed _ _ h (inl (refl, refl)) (λ pid pid_is.
        Ends-bind (λ _ h1. adds h1 ≡ adds h) _ _ h
          (Ends-map_error (λ _ _ p. inl p) (find_parent-Unbegun (env "INTERFACE") h))
          (λ dflt h1 p.
            Ends-map_error (λ code h2 ending. inr (id, pid, dflt, id_is, pid_is, ending))
              (make_vlan-Ending _ pid h h1 p))))
