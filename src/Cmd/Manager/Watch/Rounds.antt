-- ===== src/Cmd/Manager/Watch/Rounds.antt =====
-- What one round of the watch leaves.
use vlanman.Prelude.{
  ℤ, String, List, [], ◌∷◌, ◌++◌, inl, inr, true, false, ◌==◌, ◌≡◌, refl, ◌∙◌, Bool-cases, contains,
  arith,
}
use vlanman.Prelude.Ends.{
  Ends, Ends-return, Ends-call, Ends-bind, Ends-bind-ask, Ends-map_value, Ends-no_error,
}
use vlanman.Host.{Host, HostAnswer, HostEvent, Link, pause, read_dir, downgrade}
use vlanman.Cmd.Manager.Watch.{
  VlanWatcher, Store, store_exists, store_up, store_link, apply, apply_all, Seen, Watching,
  after_set_up, after_found, scan_entries, after_scan, watch_round, watched_name,
}

-- The writes leave an interface that exists so.
abbrev Stays : List Store → Type 0
Stays stores = (w : VlanWatcher) → w.exists ≡ true → (apply_all w stores).exists ≡ true

-- The writes, and whether the interface is among the entries: where it is not, nothing is done.
pub record Scan (name : String) (ents : List String) (h : List HostEvent) (seen : Seen)
    (h' : List HostEvent) : Type 0 where
  pub told : seen.0 ≡ contains ents name
  pub marks : seen.0 ≡ true → (w : VlanWatcher) → (apply_all w seen.1).exists ≡ true
  pub stays : Stays seen.1
  pub silent : seen.0 ≡ false → (seen.1 ≡ []) × (h' ≡ h)

apply_all-append :
    (w : VlanWatcher) (ss stores : List Store)
    → apply_all w (ss ++ stores) ≡ apply_all (apply_all w ss) stores
unfolding apply_all
apply_all-append w [] stores = refl
apply_all-append w (s ∷ ss) stores = apply_all-append (apply w s) ss stores

module _ (host : Host) (name : String) where
  abbrev Scans : List String → List HostEvent → Watching Seen → List HostEvent → Type 0
  Scans ents h m h1 = Ends (Scan name ents h) (λ _ _. ⊥) (λ _. ⊥) (m h1)

  -- An entry of that name: the first write is that the interface exists.
  found-Scan :
      (ent : String) (ents : List String) (stores : List Store) (h h' : List HostEvent)
      → (ent == name) ≡ true
      → Stays stores
      → Scan name (ent ∷ ents) h (true, store_exists true ∷ stores) h'
  unfolding apply_all
  found-Scan ent ents stores h h' here s = record {
    told = ground arith;
    marks = λ _ w. s (apply w (store_exists true)) refl;
    stays = λ w _. s (apply w (store_exists true)) refl;
    silent = λ e. absurd (ground arith);
  }

  other-Scan :
      (ent : String) (ents : List String) (seen : Seen) (h h' : List HostEvent)
      → (ent == name) ≡ false
      → Scan name ents h seen h'
      → Scan name (ent ∷ ents) h seen h'
  other-Scan ent ents seen h h' other s = record {
    told = rw other s.told;
    marks = s.marks;
    stays = s.stays;
    silent = s.silent;
  }

  nil-Stays : Stays []
  unfolding apply_all
  nil-Stays w e = e

  link-Stays :
      (l : Link) (stores : List Store)
      → Stays stores
      → Stays (store_up true ∷ store_link l ∷ stores)
  unfolding apply_all
  link-Stays l stores s w e = s _ e

  scan_entries-Scan :
      (ents : List String) (h : List HostEvent) → Scans ents h (scan_entries host name ents) h
  unfolding scan_entries apply_all
  scan_entries-Scan [] h = Ends-return _ h (record {
    told = refl;
    marks = λ e. absurd (ground arith);
    stays = nil-Stays;
    silent = λ _. (refl, refl);
  })
  scan_entries-Scan (ent ∷ ents) h = elim (Bool-cases (ent == name)) [
    | inl here ↦ rw here (Ends-bind-ask _ _ _ h (found here (scan_entries-Scan ents) _ _))
    | inr other ↦ rw other (
        Ends-map_value (λ seen h' s. other-Scan ent ents seen h h' other s)
          (scan_entries-Scan ents h))
  ]
    where
      set_up :
          (ent == name) ≡ true
          → ((h : List HostEvent) → Scans ents h (scan_entries host name ents) h)
          → (link : Link) (up : HostAnswer (Unit {0})) (h1 : List HostEvent)
          → Scans (ent ∷ ents) h (after_set_up host link (scan_entries host name ents) up) h1
      set_up here rest link (inl _) h1 =
          Ends-return _ h1 (found-Scan ent ents [] h h1 here nil-Stays)
      set_up here rest link (inr _) h1 =
          Ends-bind (Scan name ents h1) _ _ h1 (rest h1) (λ seen h2 s.
            Ends-return _ h2 (found-Scan ent ents _ h h2 here (link-Stays link seen.1 s.stays)))

      found :
          (ent == name) ≡ true
          → ((h : List HostEvent) → Scans ents h (scan_entries host name ents) h)
          → (link : HostAnswer Link) (h1 : List HostEvent)
          → Scans (ent ∷ ents) h (after_found host (scan_entries host name ents) link) h1
      found here rest (inl _) h1 = Ends-return _ h1 (found-Scan ent ents [] h h1 here nil-Stays)
      found here rest (inr link) h1 = Ends-bind-ask _ _ _ h1 (set_up here rest link _ _)

  -- After the writes the watcher tells whether the interface is there; where it is not, the watcher is
  -- not up, and the connection was downgraded.
  abbrev pub IsCurrent :
      VlanWatcher → List HostEvent → List String → List Store → List HostEvent → Type 0
  IsCurrent w h ents stores h' =
      ((apply_all w stores).exists ≡ contains ents name)
      × (contains ents name ≡ false → ((apply_all w stores).up ≡ false) × (h' ≡ downgrade ∷ h))

  after_scan-IsCurrent :
      (w : VlanWatcher) (ents : List String) (seen : Seen) (h h1 : List HostEvent)
      → Scan name ents h seen h1
      → Ends (IsCurrent w h ents) (λ _ _. ⊥) (λ _. ⊥) (after_scan host seen h1)
  unfolding apply_all
  after_scan-IsCurrent w ents (true, stores) h h1 s =
      Ends-return _ h1 (s.marks refl w ∙ s.told, λ e. absurd (ground (arith, s.told)))
  after_scan-IsCurrent w ents (false, stores) h h1 s =
      rw ((s.silent refl).0, (s.silent refl).1)
        (Ends-bind-ask _ _ _ h (Ends-return _ _ (s.told, λ _. (refl, refl))))

module _ (host : Host) (id : ℤ) where
  -- A round of the watch that ends without an error has read the network devices; after its writes the
  -- watcher tells whether the interface is among them. Where it is not, the watcher is not up, and the
  -- downgrade was called, once and after nothing but that reading. A round fails only where the
  -- directory cannot be read, and never panics.
  pub watch_round-IsCurrent :
      (w : VlanWatcher) (h : List HostEvent)
      → Ends
          (λ stores h'.
            (ents : List String) × (host.read_dir_answer "/sys/class/net" (pause ∷ h) ≡ inr ents)
            × IsCurrent host
                (watched_name host id)
                w
                (read_dir "/sys/class/net" ∷ pause ∷ h)
                ents
                stores
                h')
          (λ e h'.
            (host.read_dir_answer "/sys/class/net" (pause ∷ h) ≡ inl e)
            × (h' ≡ read_dir "/sys/class/net" ∷ pause ∷ h))
          (λ _. ⊥)
          (watch_round host id h)
  unfolding watch_round
  watch_round-IsCurrent w h = Ends-bind-ask _ _ _ h (
      Ends-bind
        (λ ents h1.
          (host.read_dir_answer "/sys/class/net" (pause ∷ h) ≡ inr ents)
          × (h1 ≡ read_dir "/sys/class/net" ∷ pause ∷ h))
        _ _ _ (Ends-call _ _ _ (λ e q. (q, refl)) (λ ents q. (q, refl)))
        (λ ents h1 (read, at). rw at (
          Ends-bind _ _ _ _ (Ends-no_error (scan_entries-Scan host (watched_name host id) ents _))
            (λ seen h2 s.
              Ends-map_value (λ stores h3 c. (ents, read, c))
                (Ends-no_error
                  (after_scan-IsCurrent host (watched_name host id) w ents seen _ h2 s))))))
