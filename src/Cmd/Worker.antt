-- ===== src/Cmd/Worker.antt =====
-- cmd/worker/main.go: the init container of a pod, which asks the manager on its node for a macvlan
-- interface and gives that the pod's address and routes.
pub mod Trace
pub mod FromWebhook
pub mod FromManager
use vlanman.Prelude.{
  ℕ, ℤ, pos, String, List, [], ◌∷◌, Option, none, some, ◌⊎◌, inl, inr, Bool, true, false, not, eqb,
  ◌==◌, if◌then◌else◌,
}
use vlanman.Prelude.Text.{◌⧺◌, Parts, cut}
use vlanman.Prelude.Decimal.{
  ParsedInt, parsed, bad_syntax, out_of_range, parse_int, parsed_value, format_int,
}
use vlanman.Prelude.Run.{return, crash, ask, ◌>>=◌, ◌>>◌}
use vlanman.Errors.{GoError}
use vlanman.Api.{Route}
use vlanman.Cluster.{Response}
use vlanman.Host.{
  Host, HostAnswer, Program, Environment, Link, attrs_of, KernelRoute, Ip, IpNet, cidr_mask,
  link_by_name, link_set_up, addr_add, route_add, command, http_post, exit, or_exit, parsed_or_exit,
  file_exists, trim_space,
}

abbrev pub url : Environment → String
url env = "http://" ⧺ (env "VLAN_NETWORK" ⧺ "-service.vlanman-system:61410/macvlan")

-- The command that prints the number of the network namespace.
abbrev pub own_ns : List String
own_ns = "bash" ∷ "-c" ∷ "readlink /proc/$$/ns/net | grep -o '[0-9]\\+'" ∷ []

-- An error of the parse gives 32.
abbrev or_32 : ParsedInt → ℤ
or_32 (parsed i) = i
or_32 bad_syntax = pos 32
or_32 (out_of_range _) = pos 32

-- The response has to be there, and have status 200.
abbrev pub checked : Option Response → Program Response
checked none = exit 1
checked (some response) = if not (eqb response.status_code 200) then exit 1 else return response

-- io.ReadAll of the body.
abbrev pub read_body : Option (GoError ⊎ String) → Program String
read_body none = crash
read_body (some body) = or_exit body

module _ (host : Host) where
  -- The address of the pod with its mask.
  pub own_net : Environment → IpNet
  own_net env = record {
    ip = host.parse_ip (env "MACVLAN_IP");
    mask = cidr_mask (or_32 (parse_int 64 (env "MACVLAN_SUBNET"))) 32;
  }

  -- The error of ParseInt is dropped.
  abbrev mask_of : Parts → ℤ
  mask_of parts = parsed_value (parse_int 64 (if not parts.found then "32" else parts.after))

  abbrev gateway_of : Option String → Option Ip
  gateway_of none = none
  gateway_of (some via) = host.parse_ip via

  -- The route that the loop asks for.
  pub kernel_route : Link → IpNet → Route → KernelRoute
  unfolding cut
  kernel_route link own r = record {
    link_index = (attrs_of link).index;
    dst = some (record {
      ip = host.parse_ip (cut r.destination).before;
      mask = cidr_mask (mask_of (cut r.destination)) 32;
    });
    gw = gateway_of r.via;
    src = if r.source == "self" then own.ip else none;
    scope_link = r.scope_link;
  }

  -- The loop over the routes.
  pub add_routes : Link → IpNet → List Route → Program (Unit {0})
  add_routes link own [] = return tt
  add_routes link own (r ∷ routes) = do
    added ←
        ask (route_add (kernel_route link own r)) (host.route_add_answer (kernel_route link own r))
    or_exit added
    add_routes link own routes

  -- An address that is there already will do.
  abbrev pub address_added : HostAnswer (Unit {0}) → Program (Unit {0})
  address_added (inl e) = if file_exists host e then return tt else exit 1
  address_added (inr _) = return tt

  -- The request: the number of the network namespace is sent, and the number of the interface received.
  pub request_macvlan : Environment → Program ℤ
  request_macvlan env = do
    out ← ask (command own_ns) (host.command_answer own_ns)
    text ← or_exit out
    ns_id ← parsed_or_exit (parse_int 64 (trim_space text))
    payload ← or_exit (host.marshal_ns_id ns_id)
    answer ← ask (http_post (url env) payload) (host.http_post_answer (url env) payload)
    received ← or_exit answer
    response ← checked received
    body ← read_body response.body
    or_exit (host.unmarshal_vlan_id body)

  -- What follows: the interface is set up, and given the address and the routes.
  pub configure : Environment → String → Program (Unit {0})
  configure env name = do
    found ← ask (link_by_name name) (host.link_by_name_answer name)
    link ← or_exit found
    up ← ask (link_set_up link) (host.link_set_up_answer link)
    or_exit up
    added ← ask (addr_add link (own_net env)) (host.addr_add_answer link (own_net env))
    address_added added
    routes ← or_exit (host.unmarshal_routes (env "ROUTES"))
    add_routes link (own_net env) routes

  -- main
  pub worker_main : Environment → Program (Unit {0})
  worker_main env = do id ← request_macvlan env; configure env ("macvlan" ⧺ format_int id)
