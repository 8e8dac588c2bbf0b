-- ===== src/Cmd/Manager/Main/Served.antt =====
-- What the other programs ask the daemon for is what it serves.
use text.Mathlib.TextLemmas.{append_assoc}
use vlanman.Prelude.{String, some, ◌≡◌, refl}
use vlanman.Prelude.Maps.{lookup}
use vlanman.Prelude.Text.{◌⧺◌}
use vlanman.Prelude.{All, pos}
use vlanman.Prelude.Decimal.{format_int}
use vlanman.Kube.{ServicePort}
use vlanman.Controller.Manager.{ManagerSet, service_for_manager_set}
use vlanman.Controller.Actions.{pid_url}
use vlanman.Controller.Actions.Create.{ready_url}
use vlanman.Host.{Environment}
use vlanman.Cmd.Worker.{url}
use vlanman.Cmd.Manager.Main.{Handler, pid, ready, macvlan, routes, server_addr}

-- A URL on a host at the address of the server, with a path that the handler has.
pub record Asks (url host : String) (handler : Handler) : Type 0 where
  pub path : String
  pub text : url ≡ "http://" ⧺ (host ⧺ (server_addr ⧺ path))
  pub route : lookup path routes ≡ some handler

-- Each request of the worker and of the operator is for a path that the daemon serves, at the port
-- that it listens at and that its service passes on: the worker asks for a macvlan, and the operator for
-- the process and, until it is there, for the state of the interface.
pub requests_served :
    (env : Environment) (ip namespace : String) (mgr : ManagerSet)
    → Asks (url env) (env "VLAN_NETWORK" ⧺ "-service.vlanman-system") macvlan
      × Asks (pid_url ip) ip pid
      × Asks (ready_url ip) ip ready
      × All
          (λ (p : ServicePort). ":" ⧺ format_int (pos p.target_port) ≡ server_addr)
          (service_for_manager_set mgr namespace).ports
unfolding routes service_for_manager_set format_int
requests_served env ip namespace mgr = (
  record { path = "/macvlan"; text = rw append_assoc refl; route = refl },
  record { path = "/pid"; text = refl; route = refl },
  record { path = "/ready"; text = refl; route = refl },
  (refl, tt),
)
