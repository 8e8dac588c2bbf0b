-- ===== src/Tests/ElectionExamples.antt =====
-- A manager that is told to lead and to stop, on a node whose kernel keeps addresses.
use vlanman.Prelude.{
  List, ◌&&◌, ℕ, pos, String, [], ◌∷◌, some, none, inl, inr, false, not, ◌||◌, ◌≡◌, refl,
  Bool-cases, ap, arith, if◌then◌else◌,
}
use vlanman.Prelude.Ends.{Ends}
use vlanman.Errors.{GoError, external}
use vlanman.Host.{
  Host, Link, IpNet, macvlan_link, new_attrs, cidr_mask, file_exists, contains_text, starts_with,
  HostEvent, addr_add,
}
use vlanman.Cmd.Manager.Leader.{Gateways, gateway_name, add_ip_address, remove_ip_address}
use vlanman.Cmd.Manager.Leader.Held.{
  is_held, HeldAs, mentions, same_net, same_net_iff, same_link_self, AllHeld,
}
use vlanman.Cmd.Manager.Leader.Kernel.{KeepsAddresses}
use vlanman.Cmd.Manager.Leader.Terms.{election_callbacks-HeldAs}
use vlanman.Tests.NodeExamples.{node, leading}

abbrev macvlan : Link
macvlan = macvlan_link (new_attrs "macvlangw7" (pos 4))

abbrev text_of : GoError → String
text_of (external text) = text
text_of _ = ""

abbrev kernel : Host
kernel = record node {
  link_by_name_answer = λ _ _. inr macvlan;
  addr_add_answer =
      λ link net h. if is_held link net h then inl (external "file exists") else inr tt;
  addr_del_answer = λ link net h.
      if is_held link net h then inr tt else inl (external "cannot assign requested address");
  error_text = text_of;
}

kernel-KeepsAddresses : (name : String) → KeepsAddresses kernel name macvlan
unfolding file_exists contains_text starts_with
kernel-KeepsAddresses name = record {
  found = λ h. refl;
  adds = λ net h absent. rw absent refl;
  adds_again = λ net h there. (external "file exists", rw there refl, refl);
  deletes = λ net h there. rw there refl;
  deletes_none = λ net h absent. (external "cannot assign requested address", rw absent refl, refl);
}

abbrev net_of : String → ℕ → IpNet
net_of text n = record { ip = some (record { text = text }); mask = cidr_mask (pos n) 32 }

abbrev ones_of : IpNet → ℕ
ones_of net = elim net.mask [ none ↦ 0 | some mask ↦ mask.ones ]

abbrev two_gateways : Gateways
two_gateways = record { link = macvlan; nets = net_of "10.0.0.1" 24 ∷ net_of "10.1.0.2" 16 ∷ [] }

told_apart : same_net (net_of "10.1.0.2" 16) (net_of "10.0.0.1" 24) ≡ false
told_apart = elim (Bool-cases (same_net (net_of "10.1.0.2" 16) (net_of "10.0.0.1" 24))) [
  | inl same ↦ absurd (omega (arith, ap ones_of ((same_net_iff _ _).0 same)))
  | inr other ↦ other
]

-- The events of a manager that leads, from the newest.
abbrev led : List HostEvent
led = addr_add macvlan (net_of "10.1.0.2" 16) ∷ addr_add macvlan (net_of "10.0.0.1" 24) ∷ []

led-AllHeld : AllHeld macvlan two_gateways.nets led
unfolding is_held
led-AllHeld = (
  rw (same_link_self macvlan, (same_net_iff (net_of "10.0.0.1" 24) _).1 refl, told_apart) refl,
  (rw (same_link_self macvlan, (same_net_iff (net_of "10.1.0.2" 16) _).1 refl) refl, tt),
)

election_callbacks-HeldAs_example :
    Ends
      (λ _. HeldAs macvlan (λ n. mentions two_gateways.nets n || is_held macvlan n []))
      (λ _ _. ⊥)
      (λ _. ⊥)
      (add_ip_address kernel leading (some macvlan) two_gateways.nets [])
    × Ends
        (λ _. HeldAs macvlan (λ n. not (mentions two_gateways.nets n) && is_held macvlan n led))
        (λ _ _. ⊥)
        (λ _. ⊥)
        (remove_ip_address kernel leading two_gateways.nets led)
    × Ends
        (λ _ _. ⊥)
        (λ code _. code ≡ 1)
        (λ _. ⊥)
        (remove_ip_address kernel leading two_gateways.nets [])
unfolding is_held
election_callbacks-HeldAs_example =
    election_callbacks-HeldAs kernel leading two_gateways macvlan
      (kernel-KeepsAddresses (gateway_name leading)) (net_of "10.0.0.1" 24)
      (net_of "10.1.0.2" 16 ∷ []) [] led [] refl (rw told_apart refl, (refl, tt)) led-AllHeld refl
