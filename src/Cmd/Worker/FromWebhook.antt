-- ===== src/Cmd/Worker/FromWebhook.antt =====
-- The worker as the webhook starts it.
use text.Mathlib.TextLemmas.{append_assoc}
use vlanman.Prelude.{ℤ, pos, String, ◌≡◌, refl}
use vlanman.Prelude.Maps.{Dict}
use vlanman.Prelude.Text.{◌⧺◌, cut, address_of, cut-before-slash, cut-before, join}
use vlanman.Prelude.Decimal.{format_int, parse_int, parsed, InBits, parse_int-format_int}
use vlanman.Api.{VlanNetwork}
use vlanman.Controller.Manager.{create_desired_manager_set, service_for_manager_set}
use vlanman.Host.{Host, Environment, getenv, cidr_mask}
use vlanman.PodWebhook.Patch.{init_container}
use vlanman.Cmd.Worker.{own_net, url}

thirty_two : parse_int 64 "32" ≡ parsed (pos 32)
unfolding parse_int
thirty_two = refl

abbrev pub worker_env : VlanNetwork → String → String → String → Dict String → String → Environment
worker_env network image policy ip endpoints routes =
    getenv (init_container network image policy ip endpoints routes).env

-- In the init container that the webhook adds for the address `ip`, the worker asks for the network's
-- manager by the name of its service in the namespace vlanman-system, is given the marshalled routes
-- of the pod, and uses the address before the "/" of `ip` with the prefix length behind it, where that
-- is a 64-bit integer, or with 32 where there is none.
pub worker-init_container :
    (host : Host) (network : VlanNetwork) (image policy ip : String) (endpoints : Dict String)
    (routes : String) (n : ℤ)
    → InBits 64 n
    → (url (worker_env network image policy (address_of ip ⧺ ("/" ⧺ format_int n)) endpoints routes)
        ≡ "http://"
          ⧺ ((service_for_manager_set (create_desired_manager_set network) "vlanman-system").name
              ⧺ ".vlanman-system:61410/macvlan"))
      × (worker_env network image policy
            (address_of ip ⧺ ("/" ⧺ format_int n))
            endpoints
            routes
            "ROUTES"
          ≡ routes)
      × (own_net host (
            worker_env network image policy (address_of ip ⧺ ("/" ⧺ format_int n)) endpoints routes)
          ≡ record { ip = host.parse_ip (address_of ip); mask = cidr_mask n 32 })
      × (own_net host (worker_env network image policy (address_of ip) endpoints routes)
          ≡ record { ip = host.parse_ip (address_of ip); mask = cidr_mask (pos 32) 32 })
unfolding getenv init_container own_net address_of service_for_manager_set join
    create_desired_manager_set
worker-init_container host network image policy ip endpoints routes n b = (
  rw append_assoc refl,
  refl,
  rw (cut-before-slash ip (format_int n), parse_int-format_int 64 n b) refl,
  rw (cut-before ip) (rw (thirty_two, cut) refl),
)
