-- ===== src/Controller/Actions/Create/Steps.antt =====
-- The steps of CreateManagerAction take nothing away, but for a DaemonSet that does not become
-- available.
use vlanman.Prelude.{ℕ, zero, suc, String, List, ◌∷◌, Option, none, some, inl, inr, ◌≡◌, refl}
use vlanman.Prelude.Run.{◌>>=◌, ◌>>=◌}
use vlanman.Prelude.Ends.{
  Ends-bind-ask, Ends, Ends-fail, Ends-crash, Ends-call, Ends-bind-wrap-call,
  Ends-bind-attempt-keeps,
}
use vlanman.Errors.{GoError}
use vlanman.Kube.{Pod, Job, DaemonSet, NamespacedName}
use vlanman.Cluster.{Event, sleep, Envs, Answer, Cluster, Operator, Response, http_get}
use vlanman.Controller.Actions.{
  key_of, request_manager_pid, make_job, await_inactive, if_there, await_deleted, recreate_job,
}
use vlanman.Controller.Actions.Create.{
  Read, set_key, read_set, await_status, seen_status, keep_or_fail, await_available, seen_available,
  await_pods, await_pod_ip, pod_or_timeout, or_crash, await_ready, note_up,
}
use vlanman.Controller.Actions.Create.Later.{Later, same, then_event, Failed, then_deleted}
use vlanman.Controller.Actions.Create.Safe.{
  Ends-Later, IsNil, IsSafe, IsSafe-return, IsSafe-fail, IsSafe-call, IsSafe-lift, IsSafe-wrap,
  IsSafe-catch, IsSafe-if, IsSafe-ask, IsSafe-bind, IsSafe-attempt, IsCareful, IsSafe-IsCareful,
}

module _ (c : Cluster) where
  pub read_set-IsSafe : (key : NamespacedName) (old : DaemonSet) → IsSafe c (read_set c key old)
  unfolding read_set
  read_set-IsSafe key old = IsSafe-attempt c (IsSafe-call c _ _ tt) (λ found. IsSafe-return c _)

  pub await_status-IsSafe : (left : ℕ) (r : Read) → IsSafe c (await_status c left r)
  unfolding await_status
  await_status-IsSafe zero r = IsSafe-return c _
  await_status-IsSafe (suc left) r =
      IsSafe-if c _
        (IsSafe-ask c _ tt (
          IsSafe-bind c (read_set-IsSafe (set_key r.set) r.set)
            (λ again. await_status-IsSafe left again)))
        (IsSafe-return c _)

  pub seen_status-IsSafe : (name : String) (r : Read × ℕ) → IsSafe c (seen_status c name r)
  seen_status-IsSafe name (r, left) = go r.fault left
    where
      go :
          (fault : Option GoError) (left : ℕ)
          → IsSafe c (seen_status c name (record r { fault = fault }, left))
      go (some e) left = IsSafe-fail c _
      go none zero = IsSafe-fail c _
      go none (suc left) = IsSafe-return c _

  keep_or_fail-IsSafe : (old : DaemonSet) (a : Answer DaemonSet) → IsSafe c (keep_or_fail c old a)
  keep_or_fail-IsSafe old (inl e) = IsSafe-if c _ (IsSafe-fail c _) (IsSafe-return c _)
  keep_or_fail-IsSafe old (inr set) = IsSafe-return c _

  pub await_available-IsSafe :
      (env : Envs) (left : ℕ) (set : DaemonSet) → IsSafe c (await_available c env left set)
  unfolding await_available
  await_available-IsSafe env zero set = IsSafe-return c _
  await_available-IsSafe env (suc left) set =
      IsSafe-if c _
        (IsSafe-attempt c (IsSafe-call c _ _ tt) (λ found.
          IsSafe-bind c (keep_or_fail-IsSafe set found)
            (λ next. IsSafe-ask c _ tt (await_available-IsSafe env left next))))
        (IsSafe-return c _)

  pub seen_available-IsCareful :
      (name : String) (r : DaemonSet × ℕ) → IsCareful c (seen_available c name r)
  seen_available-IsCareful name (set, zero) h =
      Ends-bind-attempt-keeps (Failed h) _ _ h
        (Ends-call _ _ h (λ _ _. then_deleted set same) (λ _ _. then_deleted set same))
        (λ _ h1 gone. Ends-fail _ h1 gone)
  seen_available-IsCareful name (set, suc left) h = IsSafe-IsCareful c (IsSafe-return c _) h

  pub await_pods-IsSafe :
      (set : DaemonSet) (name : String) (fuel : ℕ) (pods : List Pod)
      → IsSafe c (await_pods c set name fuel pods)
  unfolding await_pods
  await_pods-IsSafe set name zero pods = IsSafe-return c _
  await_pods-IsSafe set name (suc fuel) pods =
      IsSafe-if c _
        (IsSafe-bind c (IsSafe-wrap c _ (IsSafe-call c _ _ tt))
          (λ found. await_pods-IsSafe set name fuel found))
        (IsSafe-return c _)

  pub await_pod_ip-IsSafe : (left : ℕ) (pod : Pod) → IsSafe c (await_pod_ip c left pod)
  unfolding await_pod_ip
  await_pod_ip-IsSafe zero pod = IsSafe-return c _
  await_pod_ip-IsSafe (suc left) pod =
      IsSafe-if c _
        (IsSafe-bind c (IsSafe-wrap c _ (IsSafe-call c _ _ tt))
          (λ again. await_pod_ip-IsSafe left again))
        (IsSafe-return c _)

  pub pod_or_timeout-IsSafe : (r : Pod × ℕ) → IsSafe c (pod_or_timeout c r)
  pod_or_timeout-IsSafe (pod, zero) = IsSafe-fail c _
  pod_or_timeout-IsSafe (pod, suc left) = IsSafe-return c _

  -- A nil response of a poll is read.
  or_crash-IsSafe :
      {B : Type 0} (url : String) (h : List Event) (answer : Option Response)
      (k : Response → Operator B)
      → c.http_get_answer url h ≡ inr answer
      → ((next : Response) → IsSafe c (k next))
      → Ends
          (λ _. Later h)
          (λ _. Later h)
          (IsNil c)
          ((or_crash c answer >>= k) (sleep ∷ http_get url ∷ h))
  unfolding ◌>>=◌
  or_crash-IsSafe url h none k e later = Ends-crash _ (url, h, refl, e)
  or_crash-IsSafe url h (some response) k e later =
      Ends-Later c (then_event _ tt (then_event _ tt same)) (later response _)

  pub await_ready-IsSafe :
      (url : String) (left : ℕ) (r : Response) → IsSafe c (await_ready c url left r)
  unfolding await_ready
  await_ready-IsSafe url zero r = IsSafe-return c _
  await_ready-IsSafe url (suc left) r =
      IsSafe-if c _
        (λ h.
          Ends-bind-wrap-call _ _ _ _ h (λ _ _. then_event _ tt same)
            (λ answer e. Ends-bind-ask _ _ _ _ (
              or_crash-IsSafe url h answer (λ next. await_ready c url left next) e
                (λ next. await_ready-IsSafe url left next))))
        (IsSafe-return c _)

  pub note_up-IsSafe : (network pod : String) → IsSafe c (note_up c network pod)
  unfolding note_up
  note_up-IsSafe network pod =
      IsSafe-attempt c (IsSafe-call c _ _ tt)
        (λ found. IsSafe-attempt c (IsSafe-call c _ _ tt) (λ written. IsSafe-return c _))

  await_inactive-IsSafe :
      (key : NamespacedName) (left : ℕ) (job : Job) → IsSafe c (await_inactive c key left job)
  unfolding await_inactive
  await_inactive-IsSafe key zero job = IsSafe-return c _
  await_inactive-IsSafe key (suc left) job = IsSafe-if c _ (IsSafe-return c _) (
      IsSafe-ask c _ tt (
        IsSafe-bind c (IsSafe-wrap c _ (IsSafe-call c _ _ tt))
          (λ again. await_inactive-IsSafe key left again)))

  if_there-IsSafe :
      (key : NamespacedName) (action : String) (next : Operator (Unit {0})) (found : Answer Job)
      → IsSafe c next
      → IsSafe c (if_there c key action next found)
  if_there-IsSafe key action next (inl e) s = IsSafe-if c _ (IsSafe-return c _) (IsSafe-fail c _)
  if_there-IsSafe key action next (inr _) s = s

  await_deleted-IsSafe : (key : NamespacedName) (left : ℕ) → IsSafe c (await_deleted c key left)
  unfolding await_deleted
  await_deleted-IsSafe key zero = IsSafe-return c _
  await_deleted-IsSafe key (suc left) = IsSafe-ask c _ tt (
      IsSafe-attempt c (IsSafe-call c _ _ tt)
        (λ found. if_there-IsSafe key _ _ found (await_deleted-IsSafe key left)))

  pub make_job-IsSafe : (job : Job) → IsSafe c (make_job c job)
  unfolding make_job recreate_job
  make_job-IsSafe job = IsSafe-catch c (IsSafe-call c _ _ tt) (λ e.
      IsSafe-if c _
        (IsSafe-bind c (IsSafe-wrap c _ (IsSafe-call c _ _ tt)) (λ existing.
          IsSafe-bind c (await_inactive-IsSafe _ 30 existing) (λ _.
            IsSafe-bind c (IsSafe-wrap c _ (IsSafe-call c _ _ tt)) (λ _.
              IsSafe-attempt c (IsSafe-call c _ _ tt) (λ found.
                IsSafe-bind c
                  (if_there-IsSafe (key_of job) _ _ found (await_deleted-IsSafe (key_of job) 31))
                  (λ _. IsSafe-wrap c _ (IsSafe-call c _ _ tt)))))))
        (IsSafe-fail c _))

  pub request_manager_pid-IsSafe : (ip : String) → IsSafe c (request_manager_pid c ip)
  unfolding request_manager_pid
  request_manager_pid-IsSafe ip =
      IsSafe-bind c (IsSafe-wrap c _ (IsSafe-call c _ _ tt)) (λ resp. IsSafe-lift c _)
