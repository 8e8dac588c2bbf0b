-- ===== src/Cmd/Manager/Macvlan/Replies.antt =====
-- What the handler `macvlan` replies, and what it leaves on the node.
use vlanman.Prelude.{
  ℤ, String, List, ◌∷◌, Option, none, some, ◌⊎◌, inl, inr, true, ◌≡◌, refl, Bool-cases, Sum-cases,
  subst, sym, arith,
}
use vlanman.Prelude.Run.{◌>>=◌}
use vlanman.Prelude.Ends.{
  Ends, Ends-return, Ends-fail, Ends-bind, Ends-bind-ask, Ends-catch, Ends-map_value,
  Ends-map_error,
}
use vlanman.Errors.{GoError}
use vlanman.Host.{
  Host, HostAnswer, HostEvent, Link, CommandError, exit_error, no_exit, link_add, link_del,
  link_set_up, link_by_name, command, contains_text,
}
use vlanman.Cmd.Manager.Macvlan.{
  Reply, or_write_error, body_or_error, parent_name, macvlan_name, list_ns, set_ns, named_pid,
  remove_found, after_set_ns, macvlan_on, move_to, move_macvlan, make_macvlan, macvlan,
}

-- The answer of `ip link set` that the handler goes on with.
abbrev IsPassed : CommandError ⊎ String → Type 0
IsPassed (inr _) = Unit
IsPassed (inl (exit_error stderr)) = contains_text stderr "File exists" ≡ true
IsPassed (inl (no_exit _)) = ⊥

-- The body is nil, or reading it failed.
abbrev IsUnread : Option (GoError ⊎ String) → Type 0
IsUnread none = Unit
IsUnread (some (inl _)) = Unit
IsUnread (some (inr _)) = ⊥

module _ (host : Host) (vlan_id : ℤ) where
  -- The macvlan `m` was made, set up, and moved to the process that lsns names for the namespace.
  abbrev pub IsMoved : Link → ℤ → List HostEvent → Type 0
  IsMoved m ns_id h' =
      (h1 : List HostEvent) × (listed : String) × (host.link_add_answer m h1 ≡ inr tt)
      × (host.link_set_up_answer m (link_add m ∷ h1) ≡ inr tt)
      × (host.command_answer (list_ns host vlan_id ns_id) (link_set_up m ∷ link_add m ∷ h1)
          ≡ inr listed)
      × IsPassed (
          host.command_answer (set_ns host vlan_id (named_pid listed))
            (command (list_ns host vlan_id ns_id) ∷ link_set_up m ∷ link_add m ∷ h1))
      × (h'
          ≡ command (set_ns host vlan_id (named_pid listed))
            ∷ command (list_ns host vlan_id ns_id)
            ∷ link_set_up m
            ∷ link_add m
            ∷ h1)

  -- The events after both links were looked up.
  abbrev looked_up : List HostEvent → List HostEvent
  looked_up h =
      link_by_name (macvlan_name host vlan_id) ∷ link_by_name (parent_name host vlan_id) ∷ h

  -- Why the handler fails, and what it leaves.
  pub data Left (body : Option (GoError ⊎ String)) (h : List HostEvent)
      : List HostEvent → Type 0 where
    -- The body could not be read, or its text is no number of a namespace: nothing was asked for.
    unread : IsUnread body → Left body h h
    unparsed :
        {text : String} {e : GoError}
        → body ≡ some (inr text)
        → host.unmarshal_ns_id text ≡ inl e
        → Left body h h
    -- The interface of the manager was not found.
    no_parent :
        {e : GoError}
        → host.link_by_name_answer (parent_name host vlan_id) h ≡ inl e
        → Left body h (link_by_name (parent_name host vlan_id) ∷ h)
    -- An interface of the name was there, and could not be deleted.
    undeleted :
        {old : Link} {e : GoError}
        → host.link_by_name_answer
            (macvlan_name host vlan_id)
            (link_by_name (parent_name host vlan_id) ∷ h)
          ≡ inr old
        → host.link_del_answer old (looked_up h) ≡ inl e
        → Left body h (link_del old ∷ looked_up h)
    refused :
        {m : Link} {h' : List HostEvent} {e : GoError}
        → host.link_add_answer m h' ≡ inl e
        → Left body h (link_add m ∷ h')
    -- It was made and not set up, and its deletion was asked for.
    deleted :
        {m : Link} {h' : List HostEvent} {e : GoError}
        → host.link_set_up_answer m (link_add m ∷ h') ≡ inl e
        → Left body h (link_del m ∷ link_set_up m ∷ link_add m ∷ h')
    -- It was made and set up, and is left where it is: lsns failed, or the move did.
    unlisted :
        {m : Link} {list : List String} {h' : List HostEvent} {e : CommandError}
        → host.link_set_up_answer m (link_add m ∷ h') ≡ inr tt
        → host.command_answer list (link_set_up m ∷ link_add m ∷ h') ≡ inl e
        → Left body h (command list ∷ link_set_up m ∷ link_add m ∷ h')
    unmoved :
        {m : Link} {list set : List String} {h' : List HostEvent}
        → host.link_set_up_answer m (link_add m ∷ h') ≡ inr tt
        → ¬ IsPassed (host.command_answer set (command list ∷ link_set_up m ∷ link_add m ∷ h'))
        → Left body h (command set ∷ command list ∷ link_set_up m ∷ link_add m ∷ h')

  after_set_ns-Ends :
      (r : CommandError ⊎ String) (h : List HostEvent)
      → Ends
          (λ _ h'. IsPassed r × (h' ≡ h))
          (λ _ h'. (¬ IsPassed r) × (h' ≡ h))
          (λ _. ⊥)
          (after_set_ns host vlan_id r h)
  after_set_ns-Ends (inr _) h = Ends-return _ h (tt, refl)
  after_set_ns-Ends (inl (no_exit _)) h = Ends-fail _ h (λ passed. passed, refl)
  after_set_ns-Ends (inl (exit_error stderr)) h =
      elim (Bool-cases (contains_text stderr "File exists")) [
        | inl there ↦ rw there (Ends-return _ h (refl, refl))
        | inr other ↦ rw other (Ends-fail _ h ((λ passed. ground (arith, passed, other)), refl))
      ]

  or_write_error-Ends :
      {X A : Type 0} (r : X ⊎ A) (h : List HostEvent)
      → Ends
          (λ a h'. (r ≡ inr a) × (h' ≡ h))
          (λ _ h'. ((e : X) × (r ≡ inl e)) × (h' ≡ h))
          (λ _. ⊥)
          (or_write_error r h)
  or_write_error-Ends (inl e) h = Ends-fail _ h ((e, refl), refl)
  or_write_error-Ends (inr a) h = Ends-return a h (refl, refl)

  move_to-Ends :
      (pid : String) (h : List HostEvent)
      → Ends
          (λ r h'.
            (r ≡ record { status = 200; id = vlan_id })
            × IsPassed (host.command_answer (set_ns host vlan_id pid) h)
            × (h' ≡ command (set_ns host vlan_id pid) ∷ h))
          (λ _ h'.
            (¬ IsPassed (host.command_answer (set_ns host vlan_id pid) h))
            × (h' ≡ command (set_ns host vlan_id pid) ∷ h))
          (λ _. ⊥)
          (move_to host vlan_id pid h)
  unfolding move_to
  move_to-Ends pid h = Ends-bind-ask _ _ _ h (
      Ends-bind _ _ _ _ (after_set_ns-Ends _ _)
        (λ _ h1 (passed, at). rw at (Ends-return _ _ (refl, passed, refl))))

  -- The reply to a request that was done, and the interface then.
  abbrev IsDone : Link → ℤ → Reply → List HostEvent → Type 0
  IsDone m ns_id r h' = (r ≡ record { status = 200; id = vlan_id }) × IsMoved m ns_id h'

  move_macvlan-IsDone :
      (body : Option (GoError ⊎ String)) (m : Link) (ns_id : ℤ) (h h' : List HostEvent)
      → Ends (IsDone m ns_id) (λ _. Left body h) (λ _. ⊥) (move_macvlan host vlan_id m ns_id h')
  unfolding move_macvlan ◌>>=◌
  move_macvlan-IsDone body m ns_id h h' = elim (Sum-cases (host.link_add_answer m h')) [
    | inl (e, q) ↦ rw q (record { holds = refused q })
    | inr (_, q) ↦ elim (Sum-cases (host.link_set_up_answer m (link_add m ∷ h'))) [
      | inl (e, r) ↦ rw (q, r) (record { holds = deleted r })
      | inr (_, r) ↦
          elim (Sum-cases
            (host.command_answer (list_ns host vlan_id ns_id) (link_set_up m ∷ link_add m ∷ h'))) [
              | inl (e, t) ↦ rw (q, r, t) (record { holds = unlisted r t })
              | inr (listed, t) ↦
                  rw (q, r, t)
                    (Ends-map_value
                      (λ reply h2 (e, passed, at). (e, (h', listed, q, r, t, passed, at)))
                      (Ends-map_error
                        (λ _ h2 (failed, at). subst (Left body h) (sym at) (unmoved r failed))
                        (move_to-Ends (named_pid listed) _)))
            ]
    ]
  ]

  -- The body holds the number of a namespace, and the interface of the manager was found.
  abbrev pub IsServed : Option (GoError ⊎ String) → Reply → List HostEvent → Type 0
  IsServed body r h' =
      (text : String) × (ns_id : ℤ) × (vlan : Link) × (h0 : List HostEvent) × (body
        ≡ some (inr text))
      × (host.unmarshal_ns_id text ≡ inr ns_id)
      × (host.link_by_name_answer (parent_name host vlan_id) h0 ≡ inr vlan)
      × IsDone (macvlan_on host vlan_id vlan) ns_id r h'

  remove_found-Ends :
      (old : HostAnswer Link) (h : List HostEvent)
      → Ends
          (λ _ _. Unit {0})
          (λ _ h'.
            (link : Link) × (e : GoError) × (old ≡ inr link)
            × (host.link_del_answer link h ≡ inl e)
            × (h' ≡ link_del link ∷ h))
          (λ _. ⊥)
          (remove_found host vlan_id old h)
  remove_found-Ends (inl _) h = Ends-return _ h tt
  remove_found-Ends (inr link) h = Ends-bind-ask _ _ _ h (
      Ends-map_value (λ _ _ _. tt)
        (Ends-map_error (λ _ _ ((e, failed), at). (link, e, refl, failed, at))
          (or_write_error-Ends _ _)))

  make_macvlan-IsDone :
      (body : Option (GoError ⊎ String)) (ns_id : ℤ) (h : List HostEvent)
      → Ends
          (λ r h'.
            (vlan : Link) × (host.link_by_name_answer (parent_name host vlan_id) h ≡ inr vlan)
            × IsDone (macvlan_on host vlan_id vlan) ns_id r h')
          (λ _. Left body h)
          (λ _. ⊥)
          (make_macvlan host vlan_id ns_id h)
  unfolding make_macvlan
  make_macvlan-IsDone body ns_id h = Ends-bind-ask _ _ _ h (
      Ends-bind _ _ _ _
        (Ends-map_error (λ _ _ ((e, failed), at). subst (Left body h) (sym at) (no_parent failed))
          (or_write_error-Ends _ _))
        (λ vlan h1 (found, at). rw at (
          Ends-bind-ask _ _ _ _ (
            Ends-bind _ _ _ _
              (Ends-map_error
                (λ _ _ (link, e, there, failed, at).
                  subst (Left body h) (sym at) (undeleted there failed))
                (remove_found-Ends _ _))
              (λ _ h2 p.
                Ends-map_value (λ r h3 d. (vlan, found, d))
                  (move_macvlan-IsDone body (macvlan_on host vlan_id vlan) ns_id h h2))))))

  -- How the handler replies: it always does.
  abbrev pub IsReply : Option (GoError ⊎ String) → List HostEvent → Reply → List HostEvent → Type 0
  IsReply body h r h' = IsServed body r h' ⊎ ((r.status ≡ 500) × Left body h h')

  read_body-Ends :
      (body : Option (GoError ⊎ String)) (h : List HostEvent)
      → Ends
          (λ text h'. (body ≡ some (inr text)) × (h' ≡ h))
          (λ _ h'. IsUnread body × (h' ≡ h))
          (λ _. ⊥)
          (body_or_error body h)
  read_body-Ends none h = Ends-fail _ h (tt, refl)
  read_body-Ends (some (inl e)) h = Ends-fail _ h (tt, refl)
  read_body-Ends (some (inr text)) h = Ends-return text h (refl, refl)

  -- The handler replies to every request, and never panics. With status 200 it does so exactly where
  -- the macvlan on the interface of the manager was made, set up, and moved to the process that lsns
  -- names for the namespace in the body: the number in the reply is then the one in the name of that
  -- macvlan. With status 500 a step has failed: the body could not be read or is no number, the
  -- interface of the manager was not found, or an interface of the name could not be deleted, and none
  -- was asked for; it was refused; it could not be set up and its deletion was asked for; or lsns
  -- or the move failed, and it is left behind.
  pub macvlan-IsReply :
      (body : Option (GoError ⊎ String)) (h : List HostEvent)
      → Ends (IsReply body h) (λ _ _. ⊥) (λ _. ⊥) (macvlan host vlan_id body h)
  unfolding macvlan
  macvlan-IsReply body h =
      Ends-catch (λ _. Left body h) _ _ h
        (Ends-bind _ _ _ h
          (Ends-map_error (λ _ _ (why, at). subst (Left body h) (sym at) (unread why))
            (read_body-Ends body h))
          (λ text h1 (read, at). rw at (
            Ends-bind _ _ _ h
              (Ends-map_error
                (λ _ _ ((e, failed), at). subst (Left body h) (sym at) (unparsed read failed))
                (or_write_error-Ends _ h))
              (λ ns_id h2 (parsed, at2). rw at2 (
                Ends-map_value
                  (λ r h3 (vlan, found, d). inl (text, ns_id, vlan, h, read, parsed, found, d))
                  (make_macvlan-IsDone body ns_id h))))))
        (λ _ h1 left. Ends-return _ h1 (inr (refl, left)))
