-- ===== src/Controller/Actions/Jobs.antt =====
-- How many calls the creation of a job makes, and what it leaves.
use vlanman.Prelude.{
  ℕ, zero, suc, ◌+◌, ◌*◌, ◌≤◌, String, List, [], ◌∷◌, length, ◌⊎◌, inl, inr, ◌≡◌, refl, arith, eqb,
  Bool-cases,
}
use vlanman.Prelude.Ends.{
  Ends, Ends-return, Ends-fail, Ends-call, Ends-wrap, Ends-catch, Ends-bind, Ends-bind-ask,
  Ends-bind-attempt-keeps, Ends-bind-wrap-call, Ends-map_value,
}
use vlanman.Errors.{GoError}
use vlanman.Kube.{Job, NamespacedName}
use vlanman.Cluster.{Cluster, Operator, Event, create_job}
use vlanman.Controller.Actions.{
  key_of, await_inactive, if_there, await_deleted, recreate_job, make_job,
}

-- However the run ends, there are at most `n` events, and where it ends in a value `rest` more fit.
abbrev Within : {A : Type 0} → ℕ → ℕ → Operator A → List Event → Type 0
Within rest n m h = Ends (λ _ h'. length h' + rest ≤ n) (λ _ h'. length h' ≤ n) (λ _. ⊥) (m h)

module _ (c : Cluster) (key : NamespacedName) where
  await_inactive-Within :
      (left rest n : ℕ) (job : Job) (h : List Event)
      → length h + 2 * left + rest ≤ n
      → Within rest n (await_inactive c key left job) h
  unfolding await_inactive
  await_inactive-Within zero rest n job h p = Ends-return _ h (omega arith)
  await_inactive-Within (suc left) rest n job h p = elim (Bool-cases (eqb job.active 0)) [
    | inl idle ↦ rw idle (Ends-return _ h (omega arith))
    | inr busy ↦ rw busy (
        Ends-bind-ask _ _ _ h (
          Ends-bind-wrap-call _ _ _ _ _ (λ _ _. omega arith)
            (λ again _. await_inactive-Within left rest n again _ (omega arith))))
  ]

  if_there-Within :
      (rest n : ℕ) (action : String) (next : Operator (Unit {0})) (found : GoError ⊎ Job)
      (h : List Event)
      → length h + rest ≤ n
      → Within rest n next h
      → Within rest n (if_there c key action next found) h
  if_there-Within rest n action next (inr _) h p s = s
  if_there-Within rest n action next (inl e) h p s = elim (Bool-cases (c.is_not_found e)) [
    | inl gone ↦ rw gone (Ends-return _ h p)
    | inr other ↦ rw other (Ends-fail _ h (omega arith))
  ]

  await_deleted-Within :
      (left rest n : ℕ) (h : List Event)
      → length h + 2 * left + rest ≤ n
      → Within rest n (await_deleted c key left) h
  unfolding await_deleted
  await_deleted-Within zero rest n h p = Ends-return _ h (omega arith)
  await_deleted-Within (suc left) rest n h p = Ends-bind-ask _ _ _ h (
      Ends-bind-attempt-keeps (λ h'. length h' + 2 * left + rest ≤ n) _ _ _
        (Ends-call _ _ _ (λ _ _. omega arith) (λ _ _. omega arith))
        (λ found h' q.
          if_there-Within rest n _ _ found h' (omega arith)
            (await_deleted-Within left rest n h' q)))

-- The newest event is a creation of the job that the server accepted, and answered with `made`.
abbrev pub IsMade : Cluster → Job → Job → List Event → Type 0
IsMade c job made [] = ⊥
IsMade c job made (e ∷ h) = (e ≡ create_job job) × (c.create_job_answer job h ≡ inr made)

-- The newest event is a creation of the job that the server accepted.
abbrev pub IsCreated : Cluster → Job → List Event → Type 0
IsCreated c job [] = ⊥
IsCreated c job (e ∷ h) =
    (e ≡ create_job job) × ((made : Job) × (c.create_job_answer job h ≡ inr made))

module _ (c : Cluster) (job : Job) where
  recreate_job-Ends :
      (n : ℕ) (h : List Event)
      → length h + 126 ≤ n
      → Ends
          (λ made h'. IsMade c job made h' × (length h' ≤ n))
          (λ _ h'. length h' ≤ n)
          (λ _. ⊥)
          (recreate_job c (key_of job) job h)
  unfolding recreate_job
  recreate_job-Ends n h p =
      Ends-bind-wrap-call _ _ _ _ h (λ _ _. omega arith)
        (λ existing _.
          Ends-bind (λ _ h'. length h' + 65 ≤ n) _ _ _
            (await_inactive-Within c (key_of job) 30 65 n existing _ (omega arith))
            (λ _ h1 q1.
              Ends-bind-wrap-call _ _ _ _ h1 (λ _ _. omega arith)
                (λ _ _.
                  Ends-bind-attempt-keeps (λ h'. length h' + 63 ≤ n) _ _ _
                    (Ends-call _ _ _ (λ _ _. omega arith) (λ _ _. omega arith))
                    (λ found h2 q2.
                      Ends-bind (λ _ h'. length h' + 1 ≤ n) _ _ h2
                        (if_there-Within c (key_of job) 1 n _ _ found h2 (omega arith)
                          (await_deleted-Within c (key_of job) 31 1 n h2 (omega arith)))
                        (λ _ h3 q3. Ends-wrap _ _ h3 (
                          Ends-call _ _ h3 (λ _ _. omega arith)
                            (λ made e. ((refl, e), omega arith))))))))

  pub make_job-IsMade :
      (h : List Event)
      → Ends
          (λ made h'. IsMade c job made h' × (length h' ≤ length h + 127))
          (λ _ h'. length h' ≤ length h + 127)
          (λ _. ⊥)
          (make_job c job h)
  unfolding make_job
  make_job-IsMade h =
      Ends-catch (λ _ h'. length h' ≤ suc (length h)) _ _ h
        (Ends-call _ _ h (λ _ _. omega arith) (λ made e. ((refl, e), omega arith)))
        (λ e h' q. elim (Bool-cases (c.is_already_exists e)) [
          | inl exists ↦ rw exists (recreate_job-Ends (length h + 127) h' (omega arith))
          | inr other ↦ rw other (Ends-fail _ h' (omega arith))
        ])

  IsMade-IsCreated : (made : Job) (h : List Event) → IsMade c job made h → IsCreated c job h
  IsMade-IsCreated made [] never = never
  IsMade-IsCreated made (e ∷ h) (asked, answered) = (asked, (made, answered))

  -- The creation of a job ends after at most 127 calls. Where it succeeds, its last call is a
  -- creation of that job that the server accepted, also where a job of that name was there.
  pub make_job-IsCreated :
      (h : List Event)
      → Ends
          (λ _ h'. IsCreated c job h' × (length h' ≤ length h + 127))
          (λ _ h'. length h' ≤ length h + 127)
          (λ _. ⊥)
          (make_job c job h)
  make_job-IsCreated h =
      Ends-map_value (λ made h' (is_made, few). (IsMade-IsCreated made h' is_made, few))
        (make_job-IsMade h)
