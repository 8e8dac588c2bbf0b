-- ===== src/Controller/Actions/Create/Later.antt =====
-- The calls of CreateManagerAction after a moment, and which of them take something away.
use vlanman.Prelude.{List, ◌∷◌}
use vlanman.Kube.{DaemonSet}
use vlanman.Cluster.{Event, delete_service, delete_daemon_set}

-- It takes no DaemonSet and no service away.
abbrev pub Spares : Event → Type 0
Spares (delete_daemon_set set) = ⊥
Spares (delete_service service) = ⊥
Spares _ = Unit

-- The events later on: those of `h`, and newer ones that take nothing away.
pub data Later (h : List Event) : List Event → Type 0 where
  same : Later h h
  then_event : {h' : List Event} (e : Event) → Spares e → Later h h' → Later h (e ∷ h')

pub Later-trans : {h h1 h2 : List Event} → Later h h1 → Later h1 h2 → Later h h2
Later-trans l same = l
Later-trans l (then_event e spares r) = then_event e spares (Later-trans l r)

-- Nothing was taken away, or it is the last event that takes a DaemonSet away.
pub data Failed (h : List Event) : List Event → Type 0 where
  left_alone : {h' : List Event} → Later h h' → Failed h h'
  then_deleted :
      {h' : List Event} (set : DaemonSet) → Later h h' → Failed h (delete_daemon_set set ∷ h')

pub Later-trans_Failed : {h h1 h2 : List Event} → Later h h1 → Failed h1 h2 → Failed h h2
Later-trans_Failed l (left_alone r) = left_alone (Later-trans l r)
Later-trans_Failed l (then_deleted set r) = then_deleted set (Later-trans l r)
