-- ===== src/Cmd/Manager/Leader.antt =====
-- The gateway of a network in cmd/manager/main.go: interfaceSetup from the time the interface is up to
-- the leader election, its callbacks addIPAddress and removeIPAddress, and setupRoutes.
pub mod Addresses
pub mod Routes
pub mod Setup
pub mod Held
pub mod Kernel
pub mod Terms
use vlanman.Prelude.{
  ℕ, ℤ, pos, String, List, [], ◌∷◌, map, elems, Option, none, some, ◌⊎◌, inl, inr, Bool, true,
  false, not, ◌==◌, if◌then◌else◌,
}
use vlanman.Prelude.Text.{◌⧺◌, Parts, cut}
use vlanman.Prelude.Decimal.{parse_int, parsed_value, format_int}
use vlanman.Prelude.Run.{Run, Result, return, fail, crash, call, ask, lift, attempt, ◌>>=◌, ◌>>◌}
use vlanman.Errors.{GoError}
use vlanman.Api.{Gateway, Route}
use vlanman.Host.{
  Host, HostAnswer, HostEvent, Program, Link, macvlan_link, vlan_link, other_link, attrs_of,
  new_attrs, with_index, KernelRoute, Ip, IpNet, cidr_mask, link_by_name, link_add, link_set_up,
  addr_add, addr_del, route_add, exit, or_exit, file_exists,
}
use vlanman.Cmd.Manager.{ManagerEnvs}

abbrev pub gateway_name : ManagerEnvs → String
gateway_name e = "macvlangw" ⧺ format_int e.vlan_id

-- gatewayLink and gatewayIPNets, where the network has gateways: what the election is begun with.
pub record Gateways : Type 0 where
  pub link : Link
  pub nets : List IpNet

module _ (host : Host) where
  abbrev prefix_of : Parts → ℤ
  prefix_of parts = parsed_value (parse_int 64 (if not parts.found then "32" else parts.after))

  -- The address of a gateway; the error of ParseInt is dropped.
  pub gateway_net : Gateway → IpNet
  unfolding cut
  gateway_net gw = record {
    ip = host.parse_ip (cut gw.address).before;
    mask = cidr_mask (prefix_of (cut gw.address)) 32;
  }

  -- The network of the text behind `via`, if it is there.
  abbrev pub parsed_via : Option String → HostAnswer (Option IpNet)
  parsed_via none = inr none
  parsed_via (some via) = elim (host.parse_cidr via) [
    | inl e ↦ inl e
    | inr (_, net) ↦ inr (some net)
  ]

  -- `link.Attrs()` of a nil link panics.
  abbrev index_or_crash : {E : Type 0} → Option Link → Run HostEvent E ℤ
  index_or_crash none = crash
  index_or_crash (some link) = return (attrs_of link).index

  -- The Gw of the route is the address of the parsed network.
  abbrev pub via_ip : Option IpNet → Option Ip
  via_ip none = none
  via_ip (some net) = net.ip

  pub gateway_route : Gateway → Route → ℤ → IpNet → Option IpNet → KernelRoute
  gateway_route gw r index dst via = record {
    link_index = index;
    dst = some dst;
    gw = via_ip via;
    src = if r.source == "self" then host.parse_ip gw.address else none;
    scope_link = false;
  }

  -- The loop over the routes of a gateway.
  pub add_gateway_routes : Option Link → Gateway → List Route → Run HostEvent GoError (Unit {0})
  add_gateway_routes link gw [] = return tt
  add_gateway_routes link gw (r ∷ routes) = do
    net ← lift (host.parse_cidr r.destination)
    via ← lift (parsed_via r.via)
    index ← index_or_crash link
    let route = gateway_route gw r index net.1 via
    call (route_add route) (host.route_add_answer route)
    add_gateway_routes link gw routes

  -- setupRoutes
  pub setup_routes : Option Link → List Gateway → Run HostEvent GoError (Unit {0})
  setup_routes link [] = return tt
  setup_routes link (gw ∷ gateways) = do
    add_gateway_routes link gw (elems gw.routes)
    setup_routes link gateways

  -- A call whose error other than "file exists" ends the program.
  abbrev pub unless_exists : HostAnswer (Unit {0}) → Program (Unit {0})
  unless_exists (inl e) = if file_exists host e then return tt else exit 1
  unless_exists (inr _) = return tt

  pub add_addresses : Link → List IpNet → Program (Unit {0})
  add_addresses link [] = return tt
  add_addresses link (net ∷ nets) = do
    added ← ask (addr_add link net) (host.addr_add_answer link net)
    unless_exists added
    add_addresses link nets

  pub delete_addresses : Link → List IpNet → Program (Unit {0})
  delete_addresses link [] = return tt
  delete_addresses link (net ∷ nets) = do
    gone ← ask (addr_del link net) (host.addr_del_answer link net)
    unless_exists gone
    delete_addresses link nets

  -- A run of the program whose error is dropped.
  pub dropped : Run HostEvent GoError (Unit {0}) → Program (Unit {0})
  dropped m h = elim (m h).0 [
    | Result.ok _ ↦ (Result.ok tt, (m h).1)
    | Result.err _ ↦ (Result.ok tt, (m h).1)
    | Result.panic ↦ (Result.panic, (m h).1)
  ]

  -- addIPAddress
  pub add_ip_address : ManagerEnvs → Option Link → List IpNet → Program (Unit {0})
  add_ip_address e gateway_link nets = do
    found ← ask (link_by_name (gateway_name e)) (host.link_by_name_answer (gateway_name e))
    link ← or_exit found
    add_addresses link nets
    dropped (setup_routes gateway_link e.gateways)

  -- removeIPAddress
  pub remove_ip_address : ManagerEnvs → List IpNet → Program (Unit {0})
  remove_ip_address e nets = do
    found ← ask (link_by_name (gateway_name e)) (host.link_by_name_answer (gateway_name e))
    link ← or_exit found
    delete_addresses link nets

  -- `alreadyExists.(*ip.Macvlan)`
  abbrev pub as_macvlan : Link → Program Link
  as_macvlan (macvlan_link attrs) = return (macvlan_link attrs)
  as_macvlan (vlan_link _ _) = exit 1
  as_macvlan (other_link _ _) = exit 1

  -- Where the macvlan cannot be made, one of that name is taken.
  abbrev pub made_or_found : ManagerEnvs → Link → HostAnswer ℤ → Program Link
  made_or_found e macvlan (inr index) = return (with_index index macvlan)
  made_or_found e macvlan (inl _) = do
    found ← ask (link_by_name (gateway_name e)) (host.link_by_name_answer (gateway_name e))
    link ← or_exit found
    as_macvlan link

  -- The answer of LinkAdd, with the index that it writes.
  abbrev pub given : HostAnswer (Unit {0}) → ℤ → HostAnswer ℤ
  given (inl e) index = inl e
  given (inr _) index = inr index

  abbrev pub with_given : Link → List HostEvent → HostAnswer ℤ
  with_given macvlan h = given (host.link_add_answer macvlan h) (host.given_index macvlan h)

  -- The macvlan of the gateway on the interface that is watched.
  pub make_gateway : ManagerEnvs → Option Link → Program Link
  make_gateway e watched = do
    parent ← index_or_crash watched
    let macvlan = macvlan_link (new_attrs (gateway_name e) parent)
    added ← ask (link_add macvlan) (with_given macvlan)
    link ← made_or_found e macvlan added
    up ← ask (link_set_up link) (host.link_set_up_answer link)
    or_exit up
    return link

  abbrev pub setup_with : ManagerEnvs → Option Link → List Gateway → Program (Option Gateways)
  setup_with e watched [] = do dropped (setup_routes watched []); return none
  setup_with e watched (gw ∷ gateways) = do
    link ← make_gateway e watched
    return (some (record { link = link; nets = map gateway_net (gw ∷ gateways) }))

  -- interfaceSetup after the wait, with the link of the watcher: `none` where there are no gateways.
  pub interface_setup : ManagerEnvs → Option Link → Program (Option Gateways)
  interface_setup e watched = setup_with e watched e.gateways
