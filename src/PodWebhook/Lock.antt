-- ===== src/PodWebhook/Lock.antt =====
-- The lease during Default.
use vlanman.Prelude.{
  String, List, [], ◌∷◌, Bool, true, false, ◌≡◌, refl, sym, ◌∙◌, ◌⊎◌, inl, inr, Option, none, some,
}
use vlanman.Prelude.Run.{Out, ok, err, panic, return, fail}
use vlanman.Prelude.Ends.{
  Ends, Ends-return, Ends-fail, Ends-crash, Ends-call, Ends-weaken, Ends-catch, Ends-bind,
  Ends-bind-ask, Ends-bind-wrap-call, Ends-bind-lift, Ends-bind-wrap-lift,
}
use vlanman.Ipam.{pick_address}
use vlanman.Kube.{Pod}
use vlanman.Prelude.Maps.{lookup}
use vlanman.Errors.{GoError}
use vlanman.Api.{
  VlanNetwork, VlanNetworkStatus, lease_name, pod_vlanman_network_annotation,
  pod_vlanman_ip_pool_annotation,
}
use vlanman.Cluster.{
  Cluster, Event, Object, a_pod, a_network, another, Envs, update_status, lock, new_clientset,
}
use vlanman.Locker.{new_lease_locker}
use vlanman.Locker.Attempts.{held, try_locker-keeps}
use vlanman.PodWebhook.{
  take_address, allocate, resource, some_pods, manager_pods, default_annotated, default_with,
  default,
}

abbrev is_error {ℓ} : {E A : Type ℓ} → E ⊎ A → Bool
is_error (inl _) = true
is_error (inr _) = false

-- Whether the newest event is a write of the status that the server refused.
pub update_failed : Cluster → List Event → Bool
update_failed c (update_status network ∷ h) = is_error (c.update_status_answer network h)
update_failed c _ = false

-- An error leaves the lease held exactly if it is the refusal of a write.
abbrev ErrorLock : Cluster → GoError → List Event → Type 0
ErrorLock c e h = held h ≡ update_failed c h

abbrev IsFreed : Cluster → {A : Type 0} → A → List Event → Type 0
IsFreed c a h = (held h ≡ false) × (update_failed c h ≡ false)

abbrev PanicLock : Cluster → List Event → Type 0
PanicLock c h = IsFreed c tt h

allocate-Ends :
    (c : Cluster) (network pool who : String) (h : List Event)
    → held h ≡ true
    → Ends (IsFreed c) (ErrorLock c) (λ _. ⊥) (allocate c network pool who h)
unfolding allocate take_address held update_failed
allocate-Ends c network pool who h locked =
    Ends-bind (λ _ h'. held h' ≡ true) _ _ h
      (Ends-catch (λ _ _. Unit) _ _ h (Ends-call _ _ h (λ _ _. tt) (λ _ _. locked))
        (λ e h' _. Ends-bind-ask _ _ _ h' (Ends-fail _ _ refl)))
      (λ found h' here. take_address_ends found _ h' here (pick_address _ _))
  where
    take_address_ends :
        (found : VlanNetwork) (status : VlanNetworkStatus) (h' : List Event)
        → held h' ≡ true
        → (o : Option String)
        → Ends (IsFreed c) (ErrorLock c) (λ _. ⊥) (take_address c pool who found status o h')
    take_address_ends found status h' here none = Ends-bind-ask _ _ _ h' (Ends-fail _ _ refl)
    take_address_ends found status h' here (some ip) = Ends-bind-ask _ _ _ h' (
        Ends-bind-wrap-call _ _ _ _ _ (λ _ refused. rw refused here)
          (λ _ _. Ends-bind-ask _ _ _ _ (Ends-return _ _ (refl, refl))))

manager_pods-Ends :
    (c : Cluster) (network : VlanNetwork) (who : String) (h : List Event)
    → IsFreed c tt h
    → Ends (IsFreed c) (ErrorLock c) (λ _. ⊥) (manager_pods c network who h)
unfolding manager_pods held update_failed
manager_pods-Ends c network who h free =
    Ends-bind-wrap-lift _ _ _ h (λ _ _. free.0 ∙ sym free.1)
      (λ _ _.
        Ends-bind-wrap-call _ _ _ _ h (λ _ _. free.0)
          (λ pods _. some_pods_ends pods _ (free.0, refl)))
  where
    some_pods_ends :
        (pods : List Pod) (h' : List Event)
        → IsFreed c tt h'
        → Ends (IsFreed c) (ErrorLock c) (λ _. ⊥) (some_pods network who pods h')
    some_pods_ends [] h' freed = Ends-fail _ _ (freed.0 ∙ sym freed.1)
    some_pods_ends (p ∷ ps) h' freed = Ends-return _ _ freed

try_locker-Ends :
    (c : Cluster) (namespace : String)
    → Ends
        (IsFreed c)
        (IsFreed c)
        (PanicLock c)
        (new_lease_locker c lease_name namespace (new_clientset ∷ []))
unfolding new_lease_locker held update_failed
try_locker-Ends c namespace =
    Ends-weaken (λ _. absurd)
      (try_locker-keeps c lease_name namespace (λ h. IsFreed c tt h) (λ h f. (f.0, refl))
        (λ h f. (f.0, refl)) 3 _ _ (refl, refl))

default_annotated-Ends :
    (c : Cluster) (env : Envs) (pod : Pod) (network pool : String)
    → Ends (IsFreed c) (ErrorLock c) (PanicLock c) (default_annotated c env pod network pool [])
unfolding default_annotated new_lease_locker held update_failed
default_annotated-Ends c env pod network pool =
    Ends-bind-wrap-call _ _ _ _ [] (λ _ _. refl)
      (λ _ _.
        Ends-bind (IsFreed c) _ _ (new_clientset ∷ [])
          (Ends-catch (IsFreed c) _ _ (new_clientset ∷ []) (try_locker-Ends c env.namespace_name)
            (λ _ h free. Ends-crash h free))
          (λ _ h free. Ends-bind-ask _ _ _ h (
            Ends-bind (IsFreed c) _ _ (lock ∷ h)
              (Ends-weaken (λ _. absurd)
                (allocate-Ends c network pool (resource pod) (lock ∷ h) refl))
              (λ allocated h' freed.
                Ends-bind (IsFreed c) _ _ h'
                  (Ends-weaken (λ _. absurd)
                    (manager_pods-Ends c allocated.1 (resource pod) h' freed))
                  (λ managers h'' done.
                    Ends-bind-lift _ _ h'' (λ _ _. done.0 ∙ sym done.1)
                      (λ endpoints _.
                        Ends-bind-wrap-lift _ _ _ h'' (λ _ _. done.0 ∙ sym done.1)
                          (λ routes _. Ends-return _ h'' done)))))))

abbrev LockOutcome : Cluster → Out Event GoError Pod → Type 0
LockOutcome c out = held out.1 ≡ update_failed c out.1

Ends-LockOutcome :
    (c : Cluster) (out : Out Event GoError Pod)
    → Ends (IsFreed c) (ErrorLock c) (PanicLock c) out
    → LockOutcome c out
Ends-LockOutcome c (ok _, h) s = s.holds.0 ∙ sym s.holds.1
Ends-LockOutcome c (err _, h) s = s.holds
Ends-LockOutcome c (panic, h) s = s.holds.0 ∙ sym s.holds.1

-- Whatever the pod and the answers of the cluster, when Default ends, by a value, an error or a
-- panic, the lease is held exactly if the last call was a write of the status that was refused.
pub default_lock :
    (c : Cluster) (env : Envs) (object : Object)
    → held (default c env object []).1 ≡ update_failed c (default c env object []).1
unfolding default held update_failed return fail
default_lock c env (a_network _) = refl
default_lock c env (another _) = refl
default_lock c env (a_pod pod) =
    by_annotations (lookup pod_vlanman_network_annotation pod.annotations)
      (lookup pod_vlanman_ip_pool_annotation pod.annotations)
  where
    by_annotations : (n p : Option String) → LockOutcome c (default_with c env pod n p [])
    by_annotations none none = refl
    by_annotations none (some _) = refl
    by_annotations (some _) none = refl
    by_annotations (some n) (some p) = Ends-LockOutcome c _ (default_annotated-Ends c env pod n p)
