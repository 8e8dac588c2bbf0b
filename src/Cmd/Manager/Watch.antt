-- ===== src/Cmd/Manager/Watch.antt =====
-- VlanWatcher.Watch of cmd/manager/watch.go, and the handler `ready` of cmd/manager/main.go, which reads
-- what Watch stores from another goroutine.
pub mod Stores
pub mod Rounds
use vlanman.Prelude.{
  ℕ, zero, suc, ℤ, String, List, [], ◌∷◌, ◌++◌, Option, none, some, ◌⊎◌, inl, inr, Bool, true,
  false, not, ◌==◌, if◌then◌else◌,
}
use vlanman.Prelude.Text.{◌⧺◌}
use vlanman.Prelude.Decimal.{format_int}
use vlanman.Prelude.Run.{Run, return, call, ask, ◌>>=◌, ◌>>◌}
use vlanman.Errors.{GoError}
use vlanman.Host.{
  Host, HostAnswer, HostEvent, Link, pause, read_dir, link_by_name, link_set_up, downgrade,
}

-- VlanWatcher without its number; a nil Link is `none`.
pub record VlanWatcher : Type 0 where
  pub exists : Bool
  pub up : Bool
  pub link : Option Link

-- NewWatcher
abbrev pub new_watcher : VlanWatcher
new_watcher = record { exists = false; up = false; link = none }

-- One write to the watcher: another goroutine sees the state before it or after it.
pub data Store : Type 0 where
  store_exists store_up : Bool → Store
  store_link : Link → Store

pub apply : VlanWatcher → Store → VlanWatcher
apply w (store_exists b) = record w { exists = b }
apply w (store_up b) = record w { up = b }
apply w (store_link l) = record w { link = some l }

pub apply_all : VlanWatcher → List Store → VlanWatcher
unfolding apply
apply_all w [] = w
apply_all w (s ∷ stores) = apply_all (apply w s) stores

-- The writes of a round, and whether the interface was seen.
abbrev pub Seen : Type 0
Seen = Bool × List Store

abbrev pub Watching : Type 0 → Type 0
Watching = Run HostEvent GoError

module _ (host : Host) where
  -- The body of the `if`: an error ends the loop over the entries.
  abbrev pub after_set_up : Link → Watching Seen → HostAnswer (Unit {0}) → Watching Seen
  after_set_up link rest (inl _) = return (true, store_exists true ∷ [])
  after_set_up link rest (inr _) = do
    seen ← rest
    return (true, store_exists true ∷ store_up true ∷ store_link link ∷ seen.1)

  abbrev pub after_found : Watching Seen → HostAnswer Link → Watching Seen
  after_found rest (inl _) = return (true, store_exists true ∷ [])
  after_found rest (inr link) = do
    up ← ask (link_set_up link) (host.link_set_up_answer link)
    after_set_up link rest up

  -- The loop over the entries.
  pub scan_entries : String → List String → Watching Seen
  scan_entries name [] = return (false, [])
  scan_entries name (ent ∷ ents) =
      let rest = scan_entries name ents in
      let seen = (do
        found ← ask (link_by_name name) (host.link_by_name_answer name)
        after_found rest found) in
      if ent == name then seen else rest

  -- Where the interface was not seen.
  abbrev pub after_scan : Seen → Watching (List Store)
  after_scan (true, stores) = return stores
  after_scan (false, stores) = do
    ask downgrade (λ _. tt)
    return (stores ++ (store_exists false ∷ store_up false ∷ []))

  abbrev pub watched_name : ℤ → String
  watched_name id = "vlan" ⧺ format_int id

  -- One round of Watch: its writes, in their order. Watch goes from round to round, and returns where
  -- the directory cannot be read.
  pub watch_round : ℤ → Watching (List Store)
  watch_round id = do
    ask pause (λ _. tt)
    ents ← call (read_dir "/sys/class/net") (host.read_dir_answer "/sys/class/net")
    seen ← scan_entries (watched_name id) ents
    after_scan seen

  -- That many rounds.
  pub watch : ℤ → ℕ → VlanWatcher → Watching VlanWatcher
  unfolding apply_all
  watch id zero w = return w
  watch id (suc rounds) w = do stores ← watch_round id; watch id rounds (apply_all w stores)

-- ready: the status of the response; no watcher is `none`.
unfoldable pub ready_status : Option VlanWatcher → ℕ
ready_status none = 500
ready_status (some w) = if w.up then 200 else 500
