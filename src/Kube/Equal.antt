-- ===== src/Kube/Equal.antt =====
-- Decisions of equality for the records of Kubernetes, for reflect.DeepEqual.
use native.Mathlib.Decide.{ℕ_discrete}
use vlanman.Prelude.Equality.{String-discrete}
use vlanman.Kube.{DaemonSetStatus}

pub DaemonSetStatus-discrete : Discrete DaemonSetStatus
DaemonSetStatus-discrete = hlevel (String-discrete, ℕ_discrete)
