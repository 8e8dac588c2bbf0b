-- ===== src/Tests/ActionExamples.antt =====
-- The actions on the fixtures.
use vlanman.Prelude.{
  ◌+◌, ◌≤◌, List, ◌≡◌, ap, sym, inr_injective, [], ◌∷◌, length, pos, none, inl, inr, true,
}
use vlanman.Prelude.Ends.{Ends}
use vlanman.Errors.{external}
use vlanman.Kube.{Job}
use vlanman.Cluster.{Cluster, Event}
use vlanman.Controller.Interface.{interface_from_daemon}
use vlanman.Controller.Diff.{VlanNetworkState, zero_state}
use vlanman.Controller.Actions.{make_job, spawn_interface_on}
use vlanman.Controller.Actions.Jobs.{IsCreated, make_job-IsCreated}
use vlanman.Controller.Actions.Spawned.{IsSpawned, spawn_interface_on-IsSpawned}
use vlanman.Tests.Fixtures.{plain_pod, env, healthy}

abbrev job : Job
job = interface_from_daemon plain_pod (pos 1) (pos 7) none "interface" "net" "Always" none true

-- The job is there already, and goes away at once.
abbrev occupied : Cluster
occupied = record healthy {
  create_job_answer = λ job h. elim h [ [] ↦ inl (external "AlreadyExists") | _ ∷ _ ↦ inr job ];
  is_already_exists = λ _. true;
  get_job_answer = λ _ h. elim h [
    | [] ↦ inl (external "NotFound")
    | _ ∷ [] ↦ inr job
    | _ ∷ _ ∷ _ ↦ inl (external "NotFound")
  ];
}

make_job-IsCreated_example :
    Ends
      (λ _ h. IsCreated occupied job h × (length h ≤ 0 + 127))
      (λ _ h. length h ≤ 0 + 127)
      (λ _. ⊥)
      (make_job occupied job [])
make_job-IsCreated_example = make_job-IsCreated occupied job []

abbrev office_state : VlanNetworkState
office_state = record zero_state { name = "net" }

-- A new job has no active pods.
abbrev starting : Cluster
starting = record healthy { create_job_answer = λ job _. inr (record job { active = 0 }) }

starting-fresh :
    (job made : Job) (h : List Event)
    → starting.create_job_answer job h ≡ inr made
    → made.active ≡ 0
starting-fresh wanted made h e = ap (λ (j : Job). j.active) (sym (inr_injective e))

spawn_interface_on-IsSpawned_example :
    Ends
      (λ _. IsSpawned starting env office_state plain_pod [])
      (λ _ _. Unit)
      (λ _. ⊥)
      (spawn_interface_on starting env office_state plain_pod [])
spawn_interface_on-IsSpawned_example =
    spawn_interface_on-IsSpawned starting env office_state plain_pod [] starting-fresh
