-- ===== src/Locker.antt =====
-- pkg/locker/locker.go: the lease that serves as a lock.
pub mod Attempts
use vlanman.Prelude.{ℕ, zero, suc, String, Bool, if◌then◌else◌}
use vlanman.Prelude.Run.{return, fail, call, ask, catch, ◌>>=◌, ◌>>◌}
use vlanman.Errors.{GoError, external, new_client_request_error}
use vlanman.Cluster.{Cluster, Operator, new_locker, lock, unlock, sleep}

-- The loop of NewLeaseLocker, over the tries that are left; `last` is the last error.
pub try_locker : Cluster → String → String → ℕ → GoError → Operator (Unit {0})
try_locker c lease namespace zero last =
    fail (new_client_request_error "creating a lease locker" last)
try_locker c lease namespace (suc tries) last =
    catch (call (new_locker lease namespace) (c.new_locker_answer lease namespace))
      λ e. do ask sleep (λ _. tt); try_locker c lease namespace tries e

-- NewLeaseLocker: three tries.
unfoldable pub new_lease_locker : Cluster → String → String → Operator (Unit {0})
new_lease_locker c lease namespace = try_locker c lease namespace 3 (external "")

-- Lock and Unlock of a leaseLocker.
abbrev pub lock_lease : Bool → Operator (Unit {0})
lock_lease dry_run = if dry_run then return tt else ask lock (λ _. tt)

abbrev pub unlock_lease : Bool → Operator (Unit {0})
unlock_lease dry_run = if dry_run then return tt else ask unlock (λ _. tt)
