-- ===== src/Locker/Attempts.antt =====
-- How often a lease locker is tried, and what the tries leave.
use vlanman.Prelude.{
  ℕ, zero, suc, ◌+◌, ◌≤◌, String, List, [], ◌∷◌, Bool, true, false, ◌≡◌, ap, arith,
}
use vlanman.Prelude.Ends.{Ends, Ends-fail, Ends-catch, Ends-call, Ends-bind-ask}
use vlanman.Errors.{GoError}
use vlanman.Cluster.{Cluster, Event, new_locker, lock, unlock, sleep}
use vlanman.Locker.{try_locker}

-- Whether the lease is held, by the newest Lock or Unlock among the events.
unfoldable pub held : List Event → Bool
held [] = false
held (lock ∷ h) = true
held (unlock ∷ h) = false
held (_ ∷ h) = held h

-- The tries of the locker among the events.
unfoldable pub tries_in : List Event → ℕ
tries_in [] = 0
tries_in (new_locker _ _ ∷ h) = suc (tries_in h)
tries_in (_ ∷ h) = tries_in h

module _ (c : Cluster) (lease namespace : String) where
  -- What no try and no sleep changes is kept.
  pub try_locker-keeps :
      (K : List Event → Type 0)
      → ((h : List Event) → K h → K (new_locker lease namespace ∷ h))
      → ((h : List Event) → K h → K (sleep ∷ h))
      → (n : ℕ) (last : GoError) (h : List Event) → K h
      → Ends (λ _ h'. K h') (λ _ h'. K h') (λ _. ⊥) (try_locker c lease namespace n last h)
  unfolding try_locker
  try_locker-keeps K try nap zero last h p = Ends-fail _ _ p
  try_locker-keeps K try nap (suc n) last h p =
      Ends-catch (λ _ h'. K h') _ _ h (Ends-call _ _ h (λ _ _. try h p) (λ _ _. try h p))
        (λ e h' q. Ends-bind-ask _ _ _ h' (try_locker-keeps K try nap n e (sleep ∷ h') (nap h' q)))

  -- The loop tries once for each round, and gives up only when no round is left.
  tries_in-try_locker :
      (k n : ℕ) (last : GoError) (h : List Event)
      → tries_in h ≡ k
      → Ends
          (λ _ h'. tries_in h' ≤ k + n)
          (λ _ h'. tries_in h' ≡ k + n)
          (λ _. ⊥)
          (try_locker c lease namespace n last h)
  unfolding try_locker tries_in
  tries_in-try_locker k zero last h p = Ends-fail _ _ (omega arith)
  tries_in-try_locker k (suc n) last h p = rw (← add_suc k n) (
      Ends-catch (λ _ h'. tries_in h' ≡ suc k) _ _ h
        (Ends-call _ _ h (λ _ _. ap suc p) (λ _ _. omega arith))
        (λ e h' q. Ends-bind-ask _ _ _ h' (tries_in-try_locker (suc k) n e (sleep ∷ h') q)))
    where
      add_suc : (k n : ℕ) → suc k + n ≡ k + suc n
      add_suc k n = omega arith
