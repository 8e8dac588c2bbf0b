-- ===== src/Cmd/Manager/Watch/Stores.antt =====
-- What another goroutine can see of the watcher between two of its writes.
use vlanman.Prelude.{
  ℕ, zero, suc, ℤ, String, List, [], ◌∷◌, ◌++◌, inl, inr, Bool, true, false, ◌==◌, ◌≡◌, refl, arith,
  Bool-cases,
}
use vlanman.Prelude.Order.{is_some}
use vlanman.Prelude.Ends.{
  Ends, Ends-return, Ends-call, Ends-bind, Ends-bind-ask, Ends-map_value, Ends-map_error,
}
use vlanman.Host.{Host, HostAnswer, HostEvent, Link}
use vlanman.Cmd.Manager.Watch.{
  VlanWatcher, Store, store_exists, store_up, store_link, apply, apply_all, Seen, after_set_up,
  after_found, scan_entries, after_scan, watch_round, watch,
}

-- A watcher that is up has a link.
abbrev pub IsReady : VlanWatcher → Type 0
IsReady w = w.up ≡ true → is_some w.link ≡ true

-- Each state between the writes is ready, but for one whose next write is the link.
pub data Guarded : VlanWatcher → List Store → Type 0 where
  done : {w : VlanWatcher} → IsReady w → Guarded w []
  then_store :
      {w : VlanWatcher} {s : Store} {stores : List Store}
      → IsReady w
      → Guarded (apply w s) stores
      → Guarded w (s ∷ stores)
  then_link :
      {w : VlanWatcher} {l : Link} {stores : List Store}
      → Guarded (apply w (store_link l)) stores
      → Guarded w (store_link l ∷ stores)

Guarded-apply_all :
    {w : VlanWatcher} {stores : List Store} → Guarded w stores → IsReady (apply_all w stores)
unfolding apply_all
Guarded-apply_all (done r) = r
Guarded-apply_all (then_store r g) = Guarded-apply_all g
Guarded-apply_all (then_link g) = Guarded-apply_all g

-- Writes that keep a ready watcher guarded.
abbrev Keeps : List Store → Type 0
Keeps stores = (w : VlanWatcher) → IsReady w → Guarded w stores

Keeps-nil : Keeps []
Keeps-nil w r = done r

Keeps-exists : (b : Bool) (stores : List Store) → Keeps stores → Keeps (store_exists b ∷ stores)
unfolding apply
Keeps-exists b stores k w r = then_store r (k _ r)

Keeps-link :
    (l : Link) (stores : List Store) → Keeps stores → Keeps (store_up true ∷ store_link l ∷ stores)
unfolding apply
Keeps-link l stores k w r = then_store r (then_link (k _ (λ _. refl)))

Keeps-down : (stores : List Store) → Keeps stores → Keeps (store_up false ∷ stores)
unfolding apply
Keeps-down stores k w r = then_store r (k _ (λ e. absurd (ground arith)))

Keeps-append : (ss stores : List Store) → Keeps ss → Keeps stores → Keeps (ss ++ stores)
unfolding apply
Keeps-append ss stores k k2 w r = go (k w r)
  where
    go : {w : VlanWatcher} {ss : List Store} → Guarded w ss → Guarded w (ss ++ stores)
    go (done r) = k2 _ r
    go (then_store r g) = then_store r (go g)
    go (then_link g) = then_link (go g)

module _ (host : Host) where
  scan_entries-Keeps :
      (name : String) (ents : List String) (h : List HostEvent)
      → Ends (λ seen _. Keeps seen.1) (λ _ _. ⊥) (λ _. ⊥) (scan_entries host name ents h)
  unfolding scan_entries
  scan_entries-Keeps name [] h = Ends-return _ h Keeps-nil
  scan_entries-Keeps name (ent ∷ ents) h = elim (Bool-cases (ent == name)) [
    | inl here ↦ rw here (Ends-bind-ask _ _ _ h (found (scan_entries-Keeps name ents) _ _))
    | inr other ↦ rw other (scan_entries-Keeps name ents h)
  ]
    where
      set_up :
          ((h : List HostEvent)
            → Ends (λ seen _. Keeps seen.1) (λ _ _. ⊥) (λ _. ⊥) (scan_entries host name ents h))
          → (link : Link) (up : HostAnswer (Unit {0})) (h : List HostEvent)
          → Ends
              (λ seen _. Keeps seen.1)
              (λ _ _. ⊥)
              (λ _. ⊥)
              (after_set_up host link (scan_entries host name ents) up h)
      set_up keeps link (inl _) h = Ends-return _ h (Keeps-exists true _ Keeps-nil)
      set_up keeps link (inr _) h =
          Ends-bind _ _ _ h (keeps h)
            (λ seen h1 k. Ends-return _ h1 (Keeps-exists true _ (Keeps-link link _ k)))

      found :
          ((h : List HostEvent)
            → Ends (λ seen _. Keeps seen.1) (λ _ _. ⊥) (λ _. ⊥) (scan_entries host name ents h))
          → (link : HostAnswer Link) (h : List HostEvent)
          → Ends
              (λ seen _. Keeps seen.1)
              (λ _ _. ⊥)
              (λ _. ⊥)
              (after_found host (scan_entries host name ents) link h)
      found keeps (inl _) h = Ends-return _ h (Keeps-exists true _ Keeps-nil)
      found keeps (inr link) h = Ends-bind-ask _ _ _ h (set_up keeps link _ _)

  after_scan-Keeps :
      (seen : Seen) (h : List HostEvent)
      → Keeps seen.1
      → Ends (λ stores _. Keeps stores) (λ _ _. Unit {0}) (λ _. ⊥) (after_scan host seen h)
  after_scan-Keeps (true, stores) h k = Ends-return _ h k
  after_scan-Keeps (false, stores) h k =
      Ends-bind-ask _ _ _ h
        (Ends-return _ _ (Keeps-append stores _ k (Keeps-exists false _ (Keeps-down _ Keeps-nil))))

  -- From any ready watcher, whatever the node answers, each state that another goroutine can see while
  -- the writes of a round are made is one whose link is there if it is up, but for the state between
  -- the write that it is up and the next, which is that of the link. A round ends with such a state, or
  -- with an error, and never panics.
  pub watch_round-Guarded :
      (id : ℤ) (w : VlanWatcher) (h : List HostEvent)
      → IsReady w
      → Ends
          (λ stores _. Guarded w stores × IsReady (apply_all w stores))
          (λ _ _. Unit {0})
          (λ _. ⊥)
          (watch_round host id h)
  unfolding watch_round
  watch_round-Guarded id w h r = Ends-bind-ask _ _ _ h (
      Ends-bind (λ _ _. Unit) _ _ _ (Ends-call _ _ _ (λ _ _. tt) (λ _ _. tt))
        (λ ents h1 _.
          Ends-bind _ _ _ h1 (Ends-map_error (λ _ _ _. tt) (scan_entries-Keeps _ ents h1))
            (λ seen h2 k.
              Ends-map_value (λ stores h3 k2. (k2 w r, Guarded-apply_all (k2 w r)))
                (after_scan-Keeps seen h2 k))))

  -- After any number of rounds a watcher that is up has a link, if that was so before them.
  watch-IsReady :
      (id : ℤ) (rounds : ℕ) (w : VlanWatcher) (h : List HostEvent)
      → IsReady w
      → Ends (λ w' _. IsReady w') (λ _ _. Unit {0}) (λ _. ⊥) (watch host id rounds w h)
  unfolding watch
  watch-IsReady id zero w h r = Ends-return _ h r
  watch-IsReady id (suc rounds) w h r =
      Ends-bind _ _ _ h (watch_round-Guarded id w h r)
        (λ stores h1 (_, ready). watch-IsReady id rounds (apply_all w stores) h1 ready)
