-- ===== src/Cmd/Manager/Collector/Changes.antt =====
-- logNewLeader in several goroutines at once, and what getValues reads then.
use vlanman.Prelude.{
  ℕ, suc, ◌+◌, ◌<◌, ◌≤◌, ◌≡◌, ◌↔◌, ◌≢◌, refl, none, arith, Option-cases, inl, inr,
}
use vlanman.Cmd.Manager.Collector.{LeaderStats, add_change, store_last, get_values}

-- `begun` calls of logNewLeader are between their two writes.
pub record Callbacks : Type 0 where
  pub stats : LeaderStats
  pub begun : ℕ

pub data Step (s : Callbacks) : Callbacks → Type 0 where
  counts : Step s (record { stats = add_change s.stats; begun = s.begun + 1 })
  stores :
      (now n : ℕ) → s.begun ≡ suc n → Step s (record { stats = store_last now s.stats; begun = n })

abbrev pub start : Callbacks
start = record { stats = record { changes = 0; last = none }; begun = 0 }

pub data Reach : Callbacks → Type 0 where
  begin : Reach start
  next : {s t : Callbacks} → Reach s → Step s t → Reach t

record Inv (s : Callbacks) : Type 0 where
  pub counted : s.begun ≤ s.stats.changes
  pub unstored : s.stats.last ≡ none → s.stats.changes ≡ s.begun
  pub stored : s.stats.last ≢ none → s.begun < s.stats.changes

Step-Inv : {s t : Callbacks} → Step s t → Inv s → Inv t
Step-Inv {s} counts v = record {
  counted = omega (arith, v.counted);
  unstored = λ h. omega (arith, v.unstored h);
  stored = λ h. omega (arith, v.stored h);
}
Step-Inv {s} (stores now n e) v = record {
  counted = omega (arith, v.counted);
  unstored = λ h. cc;
  stored = λ h. omega (arith, v.counted);
}

Reach-Inv : {s : Callbacks} → Reach s → Inv s
Reach-Inv begin = record {
  counted = omega arith;
  unstored = λ h. refl;
  stored = λ h. absurd (h refl);
}
Reach-Inv (next r st) = Step-Inv st (Reach-Inv r)

-- However calls of logNewLeader overlap, getValues has no time exactly while the count is that of
-- the calls that are between their two writes: once one call is through, there is a time.
pub get_values_iff :
    {s : Callbacks} → Reach s → ((get_values s.stats).1 ≡ none) ↔ ((get_values s.stats).0 ≡ s.begun)
unfolding get_values
get_values_iff {s} r = (
  (Reach-Inv r).unstored,
  λ same. elim (Option-cases s.stats.last) [
    | inl e ↦ e
    | inr (now, e) ↦ absurd (omega (arith, same, (Reach-Inv r).stored (λ no. cc)))
  ],
)
