-- ===== src/Controller/Actions/Pid.antt =====
-- The number of the process that the operator asks a manager for.
use vlanman.Prelude.{ℤ, String, List, ◌∷◌, some, inr, ◌≡◌}
use vlanman.Prelude.Run.{ok, ◌>>=◌}
use vlanman.Cluster.{Cluster, Event, Response, http_get}
use vlanman.Controller.Actions.{pid_url, request_manager_pid}
use vlanman.Cmd.Manager.Pid.{pid_reply}

-- Where the manager's handler answers, and its message is read back, the operator has the number of the
-- process of the manager after that one call, whatever the status.
request_manager_pid-pid_reply :
    (c : Cluster) (encode : ℤ → String) (ip : String) (own : ℤ) (response : Response)
    (h : List Event)
    → c.http_get_answer (pid_url ip) h ≡ inr (some response)
    → response.body ≡ some (inr (encode (pid_reply own).pid))
    → c.unmarshal_pid (encode own) ≡ inr own
    → request_manager_pid c ip h ≡ (ok own, http_get (pid_url ip) ∷ h)
unfolding request_manager_pid ◌>>=◌
request_manager_pid-pid_reply c encode ip own response h answered body back = cc
