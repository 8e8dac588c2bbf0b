-- ===== src/Cmd/Manager/Leader/Held.antt =====
-- The addresses that a link has after what was asked of the node, and what its kernel answers then.
use vlanman.Prelude.{
  List, [], ◌∷◌, inl, inr, Bool, true, false, ◌&&◌, ◌||◌, not, ◌≡◌, refl, ◌∙◌, ◌↔◌, arith, any, All,
  Bool-cases, inl, inr,
}
use native.Mathlib.Decide.{ℕ_discrete}
use vlanman.Prelude.Equality.{String-discrete, ℤ-discrete, deep_equal, deep_equal_iff}
use vlanman.Host.{HostEvent, Link, IpNet, Host, addr_add, addr_del, link_del}
use vlanman.Cmd.Manager.Leader.Addresses.{added, deleted}
use vlanman.Cmd.Manager.Leader.Routes.{
  Done, done, accepted, Stopped, unparsed, refused, after, Routed,
}
use vlanman.Api.{Gateway, Route}

IpNet-discrete : Discrete IpNet
IpNet-discrete = hlevel (String-discrete, ℕ_discrete)

Link-discrete : Discrete Link
Link-discrete = hlevel (String-discrete, ℤ-discrete)

-- Equality of addresses, and of links.
pub same_net : IpNet → IpNet → Bool
same_net = deep_equal IpNet-discrete

pub same_link : Link → Link → Bool
same_link = deep_equal Link-discrete

pub same_net_iff : (m n : IpNet) → (same_net m n ≡ true) ↔ (m ≡ n)
unfolding same_net
same_net_iff = deep_equal_iff IpNet-discrete

-- Two addresses that are told apart are so in either order.
pub same_net_swap : (m n : IpNet) → same_net m n ≡ false → same_net n m ≡ false
same_net_swap m n other = elim (Bool-cases (same_net n m)) [
  | inl same ↦ cc ((same_net_iff n m).0 same)
  | inr different ↦ different
]

pub same_link_self : (link : Link) → same_link link link ≡ true
unfolding same_link
same_link_self link = (deep_equal_iff Link-discrete link link).1 refl

abbrev pub mentions : List IpNet → IpNet → Bool
mentions nets net = any (λ n. same_net n net) nets

-- No address is listed twice.
abbrev pub DistinctNets : List IpNet → Type 0
DistinctNets [] = Unit
DistinctNets (net ∷ nets) = (mentions nets net ≡ false) × DistinctNets nets

or_swap : (a b c : Bool) → (a || (b || c)) ≡ ((b || a) || c)
or_swap true true c = refl
or_swap true false c = refl
or_swap false true c = refl
or_swap false false c = refl

and_swap : (a b c : Bool) → (not a && (not b && c)) ≡ (not (b || a) && c)
and_swap true true c = refl
and_swap true false c = refl
and_swap false true c = refl
and_swap false false c = refl

module _ (link : Link) where
  -- What an event makes of an address of the link.
  abbrev then_held : HostEvent → IpNet → Bool → Bool
  then_held (addr_add l n) net held = (same_link l link && same_net n net) || held
  then_held (addr_del l n) net held = not (same_link l link && same_net n net) && held
  then_held (link_del l) net held = not (same_link l link) && held
  then_held _ net held = held

  -- Whether the link has the address after the events.
  unfoldable pub is_held : IpNet → List HostEvent → Bool
  is_held net [] = false
  is_held net (e ∷ h) = then_held e net (is_held net h)

  pub is_held-added :
      (nets : List IpNet) (net : IpNet) (h : List HostEvent)
      → is_held net (added link nets h) ≡ (mentions nets net || is_held net h)
  unfolding is_held added
  is_held-added [] net h = refl
  is_held-added (n ∷ nets) net h =
      is_held-added nets net (addr_add link n ∷ h)
      ∙ rw (same_link_self link) (or_swap (mentions nets net) (same_net n net) (is_held net h))

  pub is_held-deleted :
      (nets : List IpNet) (net : IpNet) (h : List HostEvent)
      → is_held net (deleted link nets h) ≡ (not (mentions nets net) && is_held net h)
  unfolding is_held deleted
  is_held-deleted [] net h = refl
  is_held-deleted (n ∷ nets) net h =
      is_held-deleted nets net (addr_del link n ∷ h)
      ∙ rw (same_link_self link) (and_swap (mentions nets net) (same_net n net) (is_held net h))

  is_held-Done :
      {host : Host} {via : Link} {rs : List (Gateway × Route)} {h h' : List HostEvent} (net : IpNet)
      → Done host via rs h h'
      → is_held net h' ≡ is_held net h
  unfolding is_held
  is_held-Done net done = refl
  is_held-Done net (accepted _ _ d) = is_held-Done net d

  is_held-Stopped :
      {host : Host} {via : Link} {rs : List (Gateway × Route)} {h h' : List HostEvent} (net : IpNet)
      → Stopped host via rs h h'
      → is_held net h' ≡ is_held net h
  unfolding is_held
  is_held-Stopped net (unparsed _) = refl
  is_held-Stopped net (refused _ _) = refl
  is_held-Stopped net (after _ _ d) = is_held-Stopped net d

  -- Routes leave the addresses as they are.
  pub is_held-Routed :
      {host : Host} {via : Link} (gateways : List Gateway) {h h' : List HostEvent} (net : IpNet)
      → Routed host via gateways h h'
      → is_held net h' ≡ is_held net h
  is_held-Routed gateways net (inl d) = is_held-Done net d
  is_held-Routed gateways net (inr d) = is_held-Stopped net d

  -- The addresses that the link has after the events.
  abbrev pub HeldAs : (IpNet → Bool) → List HostEvent → Type 0
  HeldAs held h = (net : IpNet) → is_held net h ≡ held net

  -- Each of the addresses is held.
  abbrev pub AllHeld : List IpNet → List HostEvent → Type 0
  AllHeld nets h = All (λ net. is_held net h ≡ true) nets

  -- A deletion leaves the others.
  pub AllHeld-addr_del :
      (net : IpNet) (nets : List IpNet) (h : List HostEvent)
      → mentions nets net ≡ false
      → AllHeld nets h
      → AllHeld nets (addr_del link net ∷ h)
  unfolding is_held
  AllHeld-addr_del net [] h _ _ = tt
  AllHeld-addr_del net (n ∷ nets) h other (held, all) =
      (ground (arith, same_net_swap n net), AllHeld-addr_del net nets h (ground arith) all)
