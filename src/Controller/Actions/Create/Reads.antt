-- ===== src/Controller/Actions/Create/Reads.antt =====
-- Which DaemonSet and which pods CreateManagerAction goes on with: what it has read and listed.
use vlanman.Prelude.{
  ℕ, zero, suc, String, List, [], ◌∷◌, Option, none, some, ◌⊎◌, inl, inr, ◌≡◌, refl, eqb, length,
  Bool-cases, Bool, not, ◌||◌, true, false, if◌then◌else◌,
}
use vlanman.Prelude.Ends.{
  Ends, Ends-return, Ends-fail, Ends-bind, Ends-bind-ask, Ends-bind-wrap-call,
  Ends-bind-attempt-call,
}
use vlanman.Prelude.Equality.{deep_equal}
use vlanman.Kube.Equal.{DaemonSetStatus-discrete}
use vlanman.Controller.Manager.{no_status}
use vlanman.Errors.{GoError, client_request}
use vlanman.Kube.{Pod, DaemonSet, NamespacedName}
use vlanman.Api.{manager_set_label_key}
use vlanman.Cluster.{
  Cluster, Event, Envs, Answer, Operator, label_equals, get_daemon_set, list_pods, sleep,
}
use vlanman.Controller.Actions.Create.{
  Read, is_missing, set_key, after_get, read_set, await_status, seen_status, keep_or_fail,
  await_available, await_pods,
}
use vlanman.Controller.Actions.Create.Later.{Later, same, then_event, Later-trans}

module _ (c : Cluster) (start : List Event) where
  -- Since `start` the server answered a Get with the DaemonSet.
  abbrev pub WasRead : DaemonSet → List Event → Type 0
  WasRead set h' =
      (key : NamespacedName) × (h : List Event) × Later start h
      × (c.get_daemon_set_answer key h ≡ inr set)
      × Later (get_daemon_set key ∷ h) h'

  pub WasRead-Later :
      {set : DaemonSet} {h h' : List Event} → Later h h' → WasRead set h → WasRead set h'
  WasRead-Later l (key, h0, before, read, after) = (key, h0, before, read, Later-trans after l)

  -- Where the last Get had no error.
  abbrev IfRead : Read → List Event → Type 0
  IfRead r h = elim r.fault [ none ↦ WasRead r.set h | some _ ↦ Unit {0} ]

  -- The value has the property, and the events are later.
  abbrev pub Gives : {A : Type 0} → (A → List Event → Type 0) → A → List Event → Type 0
  Gives P a h = P a h × Later start h

  -- From events that have the one property a run gives a value with the other, if any.
  abbrev pub Keeps :
      {A : Type 0} → (List Event → Type 0) → (A → List Event → Type 0) → Operator A → Type 0
  Keeps K P m = (h : List Event) → K h → Ends (Gives P) (λ _ _. Unit {0}) (λ _. Unit {0}) (m h)

  Keeps-if :
      {A : Type 0} {K : List Event → Type 0} {P : A → List Event → Type 0} (b : Bool)
      {m k : Operator A}
      → Keeps K P m
      → Keeps K P k
      → Keeps K P (if b then m else k)
  Keeps-if true s t = s
  Keeps-if false s t = t

  pub read_set-IfRead :
      (key : NamespacedName) (old : DaemonSet) → Keeps (Later start) IfRead (read_set c key old)
  unfolding read_set
  read_set-IfRead key old h l =
      Ends-bind-attempt-call _ _ _ h
        (λ answer e. Ends-return _ _ (seen answer e, then_event _ tt l))
    where
      seen :
          (answer : Answer DaemonSet)
          → c.get_daemon_set_answer key h ≡ answer
          → IfRead (after_get old answer) (get_daemon_set key ∷ h)
      seen (inl _) e = tt
      seen (inr set) e = (key, h, l, e, same)

  pub await_status-IfRead :
      (left : ℕ) (r : Read)
      → Keeps (Gives IfRead r) (λ (w : Read × ℕ). IfRead w.0) (await_status c left r)
  unfolding await_status
  await_status-IfRead zero r = λ h given. Ends-return _ h given
  await_status-IfRead (suc left) r =
      Keeps-if (is_missing c r.fault || deep_equal DaemonSetStatus-discrete r.set.status no_status)
        (λ h given. Ends-bind-ask _ _ _ h (
          Ends-bind (Gives IfRead) _ _ _
            (read_set-IfRead (set_key r.set) r.set (sleep ∷ h) (then_event _ tt given.1))
            (λ again h1 later. await_status-IfRead left again h1 later)))
        (λ h given. Ends-return _ h given)

  pub seen_status-WasRead :
      (name : String) (w : Read × ℕ)
      → Keeps (Gives IfRead w.0) (λ (seen : DaemonSet × ℕ). WasRead seen.0) (seen_status c name w)
  seen_status-WasRead name (r, left) = go r.fault left
    where
      go :
          (fault : Option GoError) (left : ℕ)
          → Keeps
              (Gives IfRead (record r { fault = fault }))
              (λ (seen : DaemonSet × ℕ). WasRead seen.0)
              (seen_status c name (record r { fault = fault }, left))
      go (some e) left h _ = Ends-fail _ h tt
      go none zero h _ = Ends-fail _ h tt
      go none (suc left) h given = Ends-return _ h given

  keep_or_fail-WasRead :
      (old : DaemonSet) (e : GoError)
      → Keeps (Gives WasRead old) WasRead (keep_or_fail c old (inl e))
  keep_or_fail-WasRead old e =
      Keeps-if (not (c.is_not_found e)) (λ h _. Ends-fail (client_request "Get Daemonset" e) h tt)
        (λ h given. Ends-return old h given)

  pub await_available-WasRead :
      (env : Envs) (left : ℕ) (set : DaemonSet)
      → Keeps
          (Gives WasRead set)
          (λ (polled : DaemonSet × ℕ). WasRead polled.0)
          (await_available c env left set)
  unfolding await_available
  await_available-WasRead env zero set = λ h given. Ends-return _ h given
  await_available-WasRead env (suc left) set =
      Keeps-if (not (eqb set.status.number_unavailable 0))
        (λ h given. Ends-bind-attempt-call _ _ _ h (λ found e.
          Ends-bind (Gives WasRead) _ _ _ (kept h given found e) (λ next h1 (again, l1).
            Ends-bind-ask _ _ _ h1 (
              await_available-WasRead env left next (sleep ∷ h1)
                (WasRead-Later (then_event _ tt same) again, then_event _ tt l1)))))
        (λ h given. Ends-return _ h given)
    where
      kept :
          {key : NamespacedName} (h : List Event) (given : Gives WasRead set h)
          (found : Answer DaemonSet)
          → c.get_daemon_set_answer key h ≡ found
          → Ends
              (Gives WasRead)
              (λ _ _. Unit {0})
              (λ _. Unit {0})
              (keep_or_fail c set found (get_daemon_set key ∷ h))
      kept h (read, l) (inl e) _ =
          keep_or_fail-WasRead set e _
            (WasRead-Later (then_event _ tt same) read, then_event _ tt l)
      kept {key} h (read, l) (inr next) e =
          Ends-return _ _ ((key, h, l, e, same), then_event _ tt l)

  -- Since `start` the server listed the pods by the label of the manager; none needs no list.
  abbrev pub WasListed : String → List Pod → List Event → Type 0
  WasListed name pods h' =
      (pods ≡ [])
      ⊎ ((h : List Event) × Later start h
          × (c.list_pods_answer (label_equals manager_set_label_key name) h ≡ inr pods)
          × (h' ≡ list_pods (label_equals manager_set_label_key name) ∷ h))

  -- As many pods as the DaemonSet wants, which were listed.
  abbrev pub AreAll : String → DaemonSet → List Pod → List Event → Type 0
  AreAll name set pods h =
      (eqb (length pods) set.status.desired_number_scheduled ≡ true) × WasListed name pods h

  abbrev pub AreAllIfSome : String → DaemonSet → Option (List Pod) → List Event → Type 0
  AreAllIfSome name set none h = Unit
  AreAllIfSome name set (some pods) h = AreAll name set pods h

  pub await_pods-AreAll :
      (set : DaemonSet) (name : String) (fuel : ℕ) (pods : List Pod)
      → Keeps
          (Gives (WasListed name) pods)
          (AreAllIfSome name set)
          (await_pods c set name fuel pods)
  unfolding await_pods
  await_pods-AreAll set name zero pods h (listed, l) =
      elim (Bool-cases (eqb (length pods) set.status.desired_number_scheduled)) [
        | inl full ↦ rw full (Ends-return _ h ((full, listed), l))
        | inr short ↦ rw short (Ends-return _ h (tt, l))
      ]
  await_pods-AreAll set name (suc fuel) pods h (listed, l) =
      elim (Bool-cases (eqb (length pods) set.status.desired_number_scheduled)) [
        | inl full ↦ rw full (Ends-return _ h ((full, listed), l))
        | inr short ↦ rw short (
            Ends-bind-wrap-call _ _ _ _ h (λ _ _. tt)
              (λ found e.
                await_pods-AreAll set name fuel found _ (inr (h, l, e, refl), then_event _ tt l)))
      ]
