-- ===== src/Controller/Actions/Spawned.antt =====
-- The job of a spawned interface, and the write after it, where a new job has no active pods yet.
use vlanman.Prelude.{
  ℕ, ℤ, String, List, [], ◌∷◌, Option, none, some, ◌⊎◌, inl, inr, ◌≡◌, refl, suc, true, Sum-cases,
}
use vlanman.Prelude.Ends.{
  Ends, Ends-return, Ends-lift, Ends-bind, Ends-bind-wrap-call, Ends-map_value, Ends-map_error,
}
use vlanman.Errors.{GoError}
use vlanman.Kube.{Pod, Job}
use vlanman.Api.{VlanNetwork}
use vlanman.Cluster.{Cluster, Event, Envs, Response, http_get, get_network, update_status}
use vlanman.Controller.Interface.{interface_from_daemon}
use vlanman.Controller.Diff.{VlanNetworkState}
use vlanman.Controller.Actions.{
  pid_url, body_of, parse_pid, request_manager_pid, await_finished, mark_up, with_up,
  spawn_interface_on,
}
use vlanman.Controller.Actions.Jobs.{IsMade, make_job-IsMade}

module _ (c : Cluster) where
  -- The number that a manager at the address replied with.
  abbrev pub IsReplied : String → List Event → ℤ → Type 0
  IsReplied ip h pid =
      (response : Response) × (body : String) × (c.http_get_answer (pid_url ip) h
        ≡ inr (some response))
      × (response.body ≡ some (inr body))
      × (c.unmarshal_pid body ≡ inr pid)

  parse_pid-inr :
      (text : String) (pid : ℤ)
      → parse_pid c (some (inr text)) ≡ inr pid
      → c.unmarshal_pid text ≡ inr pid
  parse_pid-inr text pid parsed = elim (Sum-cases (c.unmarshal_pid text)) [
    | inl (e, q) ↦ cc
    | inr (n, q) ↦ cc
  ]

  parse_pid-IsReplied :
      (ip : String) (h : List Event) (resp : Option Response) (pid : ℤ)
      → c.http_get_answer (pid_url ip) h ≡ inr resp
      → parse_pid c (body_of resp) ≡ inr pid
      → IsReplied ip h pid
  parse_pid-IsReplied ip h none pid answered parsed = cc
  parse_pid-IsReplied ip h (some response) pid answered parsed = go response.body refl parsed
    where
      go :
          (body : Option (GoError ⊎ String))
          → response.body ≡ body
          → parse_pid c body ≡ inr pid
          → IsReplied ip h pid
      go none e parsed = cc
      go (some (inl x)) e parsed = cc
      go (some (inr text)) e parsed = (response, text, answered, e, parse_pid-inr text pid parsed)

  request_manager_pid-IsReplied :
      (ip : String) (h : List Event)
      → Ends
          (λ pid h'. IsReplied ip h pid × (h' ≡ http_get (pid_url ip) ∷ h))
          (λ _ _. Unit)
          (λ _. ⊥)
          (request_manager_pid c ip h)
  unfolding request_manager_pid
  request_manager_pid-IsReplied ip h =
      Ends-bind-wrap-call _ _ _ _ h (λ _ _. tt)
        (λ resp answered.
          Ends-lift _ _ (λ _ _. tt)
            (λ pid parsed. (parse_pid-IsReplied ip h resp pid answered parsed, refl)))

  -- The job is not waited for.
  await_finished-fresh :
      (left : ℕ) (job : Job) (h : List Event)
      → job.active ≡ 0
      → Ends (λ _ h'. h' ≡ h) (λ _ _. Unit) (λ _. ⊥) (await_finished c (suc left) job h)
  unfolding await_finished
  await_finished-fresh left job h fresh = rw fresh (Ends-return _ h refl)

  -- The network was read and written with the connection of the pod up, and the server accepted that.
  abbrev pub IsUp : String → String → List Event → List Event → Type 0
  IsUp network pod h h' =
      (vlan written : VlanNetwork) × (c.get_network_answer network h ≡ inr vlan)
      × (c.update_status_answer (record vlan { status = with_up pod vlan.status })
            (get_network network ∷ h)
          ≡ inr written)
      × (h'
          ≡ update_status (record vlan { status = with_up pod vlan.status })
            ∷ get_network network
            ∷ h)

  mark_up-IsUp :
      (network pod : String) (h : List Event)
      → Ends (λ _. IsUp network pod h) (λ _ _. Unit) (λ _. ⊥) (mark_up c network pod h)
  unfolding mark_up
  mark_up-IsUp network pod h =
      Ends-bind-wrap-call _ _ _ _ h (λ _ _. tt)
        (λ vlan read.
          Ends-bind-wrap-call _ _ _ _ _ (λ _ _. tt)
            (λ written accepted. Ends-return _ _ (vlan, written, read, accepted, refl)))

  module _ (env : Envs) (network : VlanNetworkState) (pod : Pod) where
    abbrev pub job_with : ℤ → Job
    job_with pid =
        interface_from_daemon pod pid network.vlan_id env.ttl env.interface_pod_image network.name
          env.interface_pod_pull_policy network.mappings true

    abbrev pub IsSpawned : List Event → List Event → Type 0
    IsSpawned h h' =
        (pid : ℤ) × (made : Job) × (h1 : List Event) × IsReplied pod.pod_ip h pid
        × IsMade c (job_with pid) made h1
        × IsUp network.name pod.name h1 h'

    made_fresh :
        ((job made : Job) (h1 : List Event)
          → c.create_job_answer job h1 ≡ inr made
          → made.active ≡ 0)
        → (pid : ℤ) (made : Job) (h : List Event) → IsMade c (job_with pid) made h
        → made.active ≡ 0
    made_fresh fresh pid made [] never = absurd never
    made_fresh fresh pid made (_ ∷ h) (_, answered) = fresh (job_with pid) made h answered

    -- Where the server returns each new job with no active pods: where the interface of a pod is spawned, the
    -- manager replied with the number of a process, the server accepted the job for that process, and
    -- the two calls after that read the network and write it with the connection of the pod up: whether
    -- the job runs, or fails, is not looked at. The action never panics.
    pub spawn_interface_on-IsSpawned :
        (h : List Event)
        → ((job made : Job) (h1 : List Event)
            → c.create_job_answer job h1 ≡ inr made
            → made.active ≡ 0)
        → Ends (λ _. IsSpawned h) (λ _ _. Unit) (λ _. ⊥) (spawn_interface_on c env network pod h)
    unfolding spawn_interface_on
    spawn_interface_on-IsSpawned h fresh =
        Ends-bind _ _ _ h (request_manager_pid-IsReplied pod.pod_ip h) (λ pid h1 (replied, at).
          Ends-bind _ _ _ h1 (Ends-map_error (λ _ _ _. tt) (make_job-IsMade c (job_with pid) h1))
            (λ made h2 (is_made, _).
              Ends-bind _ _ _ h2
                (await_finished-fresh 30 made h2 (made_fresh fresh pid made h2 is_made))
                (λ _ h3 same. rw same (
                  Ends-map_value (λ _ h4 up. (pid, made, h2, replied, is_made, up))
                    (mark_up-IsUp network.name pod.name h2)))))
