-- ===== src/Cmd/Interface/FromManager.antt =====
-- The interface job as the operator starts it.
use vlanman.Prelude.{ℤ, String, List, Option, Slice, elems, Bool, ◌≡◌, refl}
use vlanman.Prelude.Decimal.{format_int, InBits, parse_int-format_int}
use vlanman.Prelude.Run.{◌>>=◌}
use vlanman.Kube.{Pod, Job}
use vlanman.Api.{IpMapping}
use vlanman.Host.{Host, HostEvent, Environment, getenv, first_env}
use vlanman.Controller.Interface.{interface_from_daemon, interface_for}
use vlanman.Cmd.Interface.{interface_main, move_vlan}

-- The environment of the first container of a job.
abbrev pub job_env : Job → Environment
job_env job = first_env job.template.containers

-- The program in the job that interfaceFromDaemon makes does what it does for the process and the VLAN
-- that the job was made for, where they are 64-bit integers: the name of the interface has the VLAN's
-- number, and its parent is the one that the mappings name for the node, if they do.
pub interface_main-interface_from_daemon :
    (host : Host) (p : Pod) (pid id : ℤ) (ttl : Option ℤ) (image network_name pull_policy : String)
    (mappings : Slice IpMapping) (fixup : Bool) (h : List HostEvent)
    → InBits 64 pid
    → InBits 64 id
    → interface_main host
        (job_env (interface_from_daemon p pid id ttl image network_name pull_policy mappings fixup))
        h
      ≡ move_vlan host (format_int id) id pid (interface_for p.node_name (elems mappings)) h
unfolding interface_main interface_from_daemon getenv ◌>>=◌
interface_main-interface_from_daemon host p pid id ttl image network_name pull_policy mappings fixup
      h b1 b2 =
    rw (parse_int-format_int 64 pid b1, parse_int-format_int 64 id b2) refl
