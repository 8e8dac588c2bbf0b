-- ===== src/Cmd/Manager/Main.antt =====
-- main of cmd/manager/main.go, with createK8sClient and testProcFS, and the paths that the daemon
-- serves. The goroutine of interfaceSetup is an event: Watch and Leader have what it does.
pub mod Served
pub mod Started
use vlanman.Prelude.{
  ℕ, ℤ, String, List, [], ◌∷◌, Option, none, some, ◌⊎◌, inl, inr, Bool, true, false, if◌then◌else◌,
}
use vlanman.Prelude.Maps.{Dict}
use vlanman.Prelude.Text.{◌⧺◌}
use vlanman.Prelude.Run.{Run, Result, return, crash, call, ask, attempt, ◌>>=◌, ◌>>◌}
use vlanman.Errors.{GoError}
use vlanman.Host.{
  Host, HostAnswer, HostEvent, Program, Environment, exit, or_exit, proc_fs, net_dev,
  in_cluster_config, new_client, interface_setup_begun, register_collector, listen,
}
use vlanman.Cmd.Manager.{get_envs}
use vlanman.Cmd.Manager.Collector.{Monitor}

-- The handlers that the mux is given.
pub data Handler : Type 0 where
  pid ready macvlan metrics : Handler

pub routes : Dict Handler
routes = ("/pid", pid) ∷ ("/ready", ready) ∷ ("/macvlan", macvlan) ∷ ("/metrics", metrics) ∷ []

-- server.Addr
abbrev pub server_addr : String
server_addr = ":61410"

-- What the libraries answer as the daemon starts.
pub record Boot : Type 0 where
  pub in_cluster_config_answer : List HostEvent → HostAnswer (Unit {0})
  pub new_client_answer : List HostEvent → HostAnswer (Unit {0})
  -- MustRegister panics where this is an error.
  pub register_answer : List HostEvent → HostAnswer (Unit {0})
  -- ListenAndServe always returns an error.
  pub listen_answer : String → List HostEvent → GoError

module _ (boot : Boot) where
  -- createK8sClient
  pub create_k8s_client : Run HostEvent GoError (Unit {0})
  create_k8s_client = do
    call in_cluster_config boot.in_cluster_config_answer
    call new_client boot.new_client_answer

-- testProcFS
pub test_proc_fs : Monitor → Run HostEvent GoError (Unit {0})
test_proc_fs mon = do
  call proc_fs mon.proc_fs_answer
  _ ← call net_dev mon.net_dev_answer
  return tt

-- A run whose error is handled by the program.
abbrev pub handled : Run HostEvent GoError (Unit {0}) → Program (HostAnswer (Unit {0}))
handled m h = elim (m h).0 [
  | Result.ok a ↦ (Result.ok (inr a), (m h).1)
  | Result.err e ↦ (Result.ok (inl e), (m h).1)
  | Result.panic ↦ (Result.panic, (m h).1)
]

abbrev pub or_panic : HostAnswer (Unit {0}) → Program (Unit {0})
or_panic (inl _) = crash
or_panic (inr _) = return tt

-- main; the error of ListenAndServe is only logged.
pub manager_main : Host → Monitor → Boot → Environment → Program (Unit {0})
manager_main host mon boot env = do
  client ← handled (create_k8s_client boot)
  or_panic client
  envs ← get_envs host env
  ask interface_setup_begun (λ _. tt)
  tested ← handled (test_proc_fs mon)
  or_exit tested
  registered ← ask register_collector boot.register_answer
  or_panic registered
  _ ← ask (listen server_addr) (boot.listen_answer server_addr)
  return tt
