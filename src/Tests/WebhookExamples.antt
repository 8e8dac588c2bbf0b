-- ===== src/Tests/WebhookExamples.antt =====
-- The pod webhook and the lease on the fixtures.
use vlanman.Prelude.{[], ◌≡◌}
use vlanman.Prelude.Ends.{Ends}
use vlanman.Cluster.{a_pod}
use vlanman.Locker.Attempts.{held}
use vlanman.PodWebhook.{allocate, default}
use vlanman.PodWebhook.Lock.{update_failed, default_lock}
use vlanman.PodWebhook.Success.{Reserves, Refuses, allocate_cases}
use vlanman.Tests.Fixtures.{annotated_pod, env, healthy, read_only}

-- After a refused write the lease is held.
default_lock_example :
    held (default read_only env (a_pod annotated_pod) []).1
    ≡ update_failed read_only (default read_only env (a_pod annotated_pod) []).1
default_lock_example = default_lock read_only env (a_pod annotated_pod)

allocate_cases_example :
    Ends
      (Reserves healthy "net" "office" "web@default" [])
      (Refuses healthy "net" "office" "web@default" [])
      (λ _. ⊥)
      (allocate healthy "net" "office" "web@default" [])
allocate_cases_example = allocate_cases healthy "net" "office" "web@default" []
