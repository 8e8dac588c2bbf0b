-- ===== src/Cmd/Interface.antt =====
-- cmd/interface/main.go: the job's program, which makes the VLAN interface and moves it to the network
-- namespace of a manager.
pub mod Endings
pub mod FromManager
use vlanman.Prelude.{
  ℕ, ℤ, pos, String, List, [], ◌∷◌, Option, none, some, ◌⊎◌, inl, inr, Bool, true, false, any, ◌==◌,
  if◌then◌else◌,
}
use vlanman.Prelude.Text.{◌⧺◌}
use vlanman.Prelude.Decimal.{ParsedInt, parsed, bad_syntax, out_of_range, parse_int}
use vlanman.Prelude.Run.{return, ask, ◌>>=◌, ◌>>◌}
use vlanman.Errors.{GoError, external}
use vlanman.Host.{
  Host, HostAnswer, Program, Environment, Link, vlan_link, attrs_of, new_attrs, KernelRoute, IpNet,
  HostEvent, link_list, route_list, link_by_name, link_add, link_del, link_set_up, link_set_ns_pid,
  exit, or_exit, parsed_or_exit, file_exists, Ip,
}

module _ (host : Host) where
  abbrev destination_text : Option IpNet → String
  destination_text none = "<nil>"
  destination_text (some net) = host.net_text net

  abbrev pub is_default : String → KernelRoute → Bool
  is_default dflt r = destination_text r.dst == dflt

  -- The routes of one link: an error ends the search, and so does the default route.
  abbrev pub after_routes :
      String
      → Link
      → Program (HostAnswer Link)
      → HostAnswer (List KernelRoute)
      → Program (HostAnswer Link)
  after_routes dflt l next (inl e) = return (
      inl (
        external
          ("Error listing routes for device " ⧺ ((attrs_of l).name ⧺ (": " ⧺ host.error_text e)))))
  after_routes dflt l next (inr routes) =
      if any (is_default dflt) routes then return (inr l) else next

  -- The loop over the links.
  pub find_in : String → List Link → Program (HostAnswer Link)
  find_in dflt [] = return (inl (external "Default route not found"))
  find_in dflt (l ∷ links) = do
    routes ← ask (route_list l) (host.route_list_answer l)
    after_routes dflt l (find_in dflt links) routes

  abbrev pub after_list : String → HostAnswer (List Link) → Program (HostAnswer Link)
  after_list dflt (inl e) = return (inl (external ("Error listing links: " ⧺ host.error_text e)))
  after_list dflt (inr links) = find_in dflt links

  abbrev pub after_parse : HostAnswer (Option Ip × IpNet) → Program (HostAnswer Link)
  after_parse (inl e) = return (inl (external ("Error parsing CIDR: " ⧺ host.error_text e)))
  after_parse (inr (_, dflt)) = do
    links ← ask link_list host.link_list_answer
    after_list (host.net_text dflt) links

  -- findDefaultInterface
  pub find_default_interface : Program (HostAnswer Link)
  find_default_interface = after_parse (host.parse_cidr "0.0.0.0/0")

  -- The interface with the given name, or the one of the default route.
  pub find_parent : String → Program Link
  find_parent name = do
    found ←
        if name == ""
        then find_default_interface
        else ask (link_by_name name) (host.link_by_name_answer name)
    or_exit found

  -- An interface of that name goes first.
  abbrev pub remove_found : HostAnswer Link → Program (Unit {0})
  remove_found (inl _) = return tt
  remove_found (inr link) = do gone ← ask (link_del link) (host.link_del_answer link); or_exit gone

  abbrev after_add : HostAnswer (Unit {0}) → Program (Unit {0})
  after_add (inl e) = if file_exists host e then exit 0 else exit 1
  after_add (inr _) = return tt

  -- An error after the interface was made: it is deleted; the error of that is only logged.
  abbrev or_clean_up : Link → HostAnswer (Unit {0}) → Program (Unit {0})
  or_clean_up vlan (inl _) = do ask (link_del vlan) (host.link_del_answer vlan); exit 1
  or_clean_up vlan (inr _) = return tt

  pub add_vlan : Link → ℤ → Program (Unit {0})
  add_vlan vlan pid = do
    added ← ask (link_add vlan) (host.link_add_answer vlan)
    after_add added
    up ← ask (link_set_up vlan) (host.link_set_up_answer vlan)
    or_clean_up vlan up
    moved ← ask (link_set_ns_pid vlan pid) (host.link_set_ns_pid_answer vlan pid)
    or_clean_up vlan moved
    exit 0

  -- From the search for an interface of that name on.
  pub make_vlan : Link → ℤ → Program (Unit {0})
  make_vlan vlan pid = do
    old ← ask (link_by_name (attrs_of vlan).name) (host.link_by_name_answer (attrs_of vlan).name)
    remove_found old
    add_vlan vlan pid

  -- The interface: its name is made from the text of the variable.
  abbrev pub vlan_of : String → ℤ → Link → Link
  vlan_of env_id id dflt = vlan_link (new_attrs ("vlan" ⧺ env_id) (attrs_of dflt).index) id

  -- main, once the variables are parsed.
  pub move_vlan : String → ℤ → ℤ → String → Program (Unit {0})
  move_vlan env_id id pid name = do dflt ← find_parent name; make_vlan (vlan_of env_id id dflt) pid

  -- main
  pub interface_main : Environment → Program (Unit {0})
  interface_main env = do
    id ← parsed_or_exit (parse_int 64 (env "ID"))
    pid ← parsed_or_exit (parse_int 64 (env "PID"))
    move_vlan (env "ID") id pid (env "INTERFACE")
