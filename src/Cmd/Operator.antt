-- ===== src/Cmd/Operator.antt =====
-- cmd/operator/main.go: the environment of the operator, from the manager of controller-runtime to the
-- controller. Operator/Main has the whole of main.
pub mod Main
use vlanman.Prelude.{ℤ, List, Option, none, some, false, ◌==◌, ◌≡◌, refl}
use vlanman.Prelude.Decimal.{ParsedInt, parsed, bad_syntax, out_of_range, parse_int}
use vlanman.Prelude.Run.{return, ◌>>=◌, ◌>>◌}
use vlanman.Prelude.Ends.{Ends}
use vlanman.Cluster.{Envs}
use vlanman.Host.{HostEvent, Program, Environment, exit, parsed_or_exit}
use vlanman.Host.Exits.{Ends-bind-parsed}

-- The time to live of the jobs: an error of the parse means that there is none.
abbrev ttl_of : ParsedInt → Option ℤ
ttl_of (parsed i) = some i
ttl_of bad_syntax = none
ttl_of (out_of_range _) = none

-- The test of `err` behind the making of the Envs, which that parse wrote last.
abbrev stale_error : ParsedInt → Program (Unit {0})
stale_error (parsed _) = return tt
stale_error bad_syntax = exit 1
stale_error (out_of_range _) = exit 1

abbrev envs_of : Environment → ℤ → Option ℤ → Envs
envs_of env pod_timeout ttl = record {
  namespace_name = env "NAMESPACE_NAME";
  vlan_manager_image = env "MANAGER_POD_IMAGE";
  vlan_manager_pull_policy = env "MANAGER_PULL_POLICY";
  is_test = false;
  wait_for_pod_timeout_seconds = pod_timeout;
  is_manager_ip_monitoring_enabled = env "MANAGER_IP_MONITORING_ENABLED" == "true";
  is_monitoring_enabled = env "MONITORING_ENABLED" == "true";
  monitoring_scrape_interval = env "MONITORING_SCRAPE_INTERVAL";
  monitoring_release_name = env "MONITORING_RELEASE_NAME";
  ttl = ttl;
  interface_pod_image = env "INTERFACE_POD_IMAGE";
  interface_pod_pull_policy = env "INTERFACE_PULL_POLICY";
  worker_init_image = env "WORKER_IMAGE";
  worker_init_pull_policy = env "WORKER_PULL_POLICY";
  service_account_name = env "SERVICE_ACCOUNT_NAME";
}

-- The part of main that makes the Envs.
pub operator_envs : Environment → Program Envs
operator_envs env = do
  pod_timeout ← parsed_or_exit (parse_int 64 (env "POD_WAIT_TIMEOUT"))
  let ttl = parse_int 32 (env "JOB_TTL")
  let e = envs_of env pod_timeout (ttl_of ttl)
  stale_error ttl
  return e

-- The operator goes on only with a time to live for its jobs: it starts with the two numbers of
-- POD_WAIT_TIMEOUT and JOB_TTL, and exits with code 1 where either cannot be parsed, though it has a
-- branch that starts it with no time to live.
pub operator_envs-ttl :
    (env : Environment) (h : List HostEvent)
    → Ends
        (λ e h'.
          ((i : ℤ) × (parse_int 32 (env "JOB_TTL") ≡ parsed i) × (e.ttl ≡ some i))
          × (parse_int 64 (env "POD_WAIT_TIMEOUT") ≡ parsed e.wait_for_pod_timeout_seconds)
          × (h' ≡ h))
        (λ code h'. (code ≡ 1) × (h' ≡ h))
        (λ _. ⊥)
        (operator_envs env h)
unfolding operator_envs ◌>>=◌
operator_envs-ttl env h =
    Ends-bind-parsed _
      (λ pod_timeout.
        stale_error (parse_int 32 (env "JOB_TTL"))
        >> return (envs_of env pod_timeout (ttl_of (parse_int 32 (env "JOB_TTL")))))
      h (refl, refl) (λ pod_timeout e. go pod_timeout e (parse_int 32 (env "JOB_TTL")) refl)
  where
    go :
        (pod_timeout : ℤ)
        → parse_int 64 (env "POD_WAIT_TIMEOUT") ≡ parsed pod_timeout
        → (ttl : ParsedInt) → parse_int 32 (env "JOB_TTL") ≡ ttl
        → Ends
            (λ (e : Envs) (h' : List HostEvent).
              ((i : ℤ) × (parse_int 32 (env "JOB_TTL") ≡ parsed i) × (e.ttl ≡ some i))
              × (parse_int 64 (env "POD_WAIT_TIMEOUT") ≡ parsed e.wait_for_pod_timeout_seconds)
              × (h' ≡ h))
            (λ code h'. (code ≡ 1) × (h' ≡ h))
            (λ _. ⊥)
            ((stale_error ttl >> return (envs_of env pod_timeout (ttl_of ttl))) h)
    go pod_timeout e (parsed i) p = record { holds = ((i, p, refl), e, refl) }
    go pod_timeout e bad_syntax p = record { holds = (refl, refl) }
    go pod_timeout e (out_of_range _) p = record { holds = (refl, refl) }
