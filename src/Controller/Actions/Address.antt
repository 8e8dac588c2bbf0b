-- ===== src/Controller/Actions/Address.antt =====
-- The wait of SpawnInterfaceAction.Do for the address of its pod, which has no bound.
use vlanman.Prelude.{
  ℕ, zero, suc, List, ◌∷◌, String, some, inr, false, ◌≡◌, ◌≤◌, refl, ◌∙◌, ◌==◌, true, arith,
}
use vlanman.Prelude.Text.{◌⧺◌}
use vlanman.Prelude.Run.{ok, ◌>>=◌}
use vlanman.Prelude.Ok.{wrap-call_ok}
use vlanman.Errors.{new_client_request_error}
use vlanman.Kube.{Pod, NamespacedName}
use vlanman.Cluster.{Cluster, Event, Envs, sleep, get_pod}
use vlanman.Controller.Diff.{VlanNetworkState}
use vlanman.Controller.Actions.{
  key_in, await_address, spawn_interface_do, spawn_interface_on, finished, when_some,
}

module _ (c : Cluster) (key : NamespacedName) where
  -- After that many more reads, each a pause after the one before, `ready` is read with an address.
  pub data Gets : Pod → List Event → ℕ → Pod → List Event → Type 0 where
    has : {pod : Pod} {h : List Event} → (pod.pod_ip == "") ≡ false → Gets pod h zero pod h
    waits :
        {pod again ready : Pod} {h h' : List Event} {n : ℕ}
        → (pod.pod_ip == "") ≡ true
        → c.get_pod_answer key (sleep ∷ h) ≡ inr again
        → Gets again (get_pod key ∷ sleep ∷ h) n ready h'
        → Gets pod h (suc n) ready h'

  await_address-Gets :
      {pod ready : Pod} {h h' : List Event} {n : ℕ} (fuel : ℕ)
      → Gets pod h n ready h'
      → n ≤ fuel
      → await_address c key fuel pod h ≡ (ok (some ready), h')
  unfolding await_address ◌>>=◌
  await_address-Gets zero (has p) b = rw p refl
  await_address-Gets (suc fuel) (has p) b = rw p refl
  await_address-Gets zero (waits p e g) b = absurd (omega arith)
  await_address-Gets {pod} {ready} {h} {h'} (suc fuel) (waits {again} {n} p e g) b = rw p (
      wrap-call_ok (get_pod key) (c.get_pod_answer key) (sleep ∷ h) _
        (λ again. await_address c key fuel again) e
      ∙ await_address-Gets {pod = again} fuel g (omega arith))

-- Where the pod can be read, and within `n` more reads, all of which succeed, has an address, then
-- with fuel for them the action ends its wait and does on the pod as it was read last all it does.
pub spawn_interface_do-Gets :
    (c : Cluster) (env : Envs) (fuel n : ℕ) (network : VlanNetworkState) (pod_name : String)
    (pod ready : Pod) (h h' : List Event)
    → c.get_pod_answer (key_in env pod_name) h ≡ inr pod
    → Gets c (key_in env pod_name) pod (get_pod (key_in env pod_name) ∷ h) n ready h'
    → n ≤ fuel
    → spawn_interface_do c env fuel network pod_name h
      ≡ finished (spawn_interface_on c env network ready) h'
unfolding spawn_interface_do ◌>>=◌
spawn_interface_do-Gets c env fuel n network pod_name pod ready h h' e g b =
    wrap-call_ok (get_pod (key_in env pod_name)) (c.get_pod_answer (key_in env pod_name)) h
      (new_client_request_error ("Get pod " ⧺ (pod_name ⧺ ("@" ⧺ env.namespace_name))))
      (λ pod.
        await_address c (key_in env pod_name) fuel pod
        >>= (λ ready. when_some ready (λ pod. finished (spawn_interface_on c env network pod))))
      e
    ∙ cc (await_address-Gets c _ fuel g b)
