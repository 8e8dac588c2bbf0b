-- ===== src/Errors/Texts.antt =====
-- The Error methods of pkg/errors, internal/controller and internal/webhook/v1, and caller_info.go,
-- whose answer is part of some texts.
use vlanman.Prelude.{
  ℕ, zero, suc, String, List, [], ◌∷◌, Option, none, some, eqb, length, if◌then◌else◌,
}
use vlanman.Prelude.Decimal.{decimal}
use vlanman.Prelude.Text.{◌⧺◌, join}
use vlanman.Api.{wait_for_daemon_timeout}
use vlanman.Errors.{
  GoError, Errors, Sentinel, external, sentinel, wrapped, joined, client_request, request,
  unrecoverable_error, internal_error, parsing_error, try_again_error, unimplemented_error,
  type_mismatch_error, missing_annotation_error, no_ip_in_pool_error, no_manager_pods_error,
  manager_not_ready_error, net_in_use_error, reconcile_error, reconcile_error_list,
  daemon_set_timeout_error, daemon_set_cleanup_error, daemon_pod_timeout_error, nil, cons,
  k8s_client, unrecoverable, nil_unrecoverable, internal, parsing, try_again, unimplemented,
  type_mismatch, missing_annotation, no_ip_in_pool, no_manager_pods, manager_not_ready, net_in_use,
  daemon_set_timeout, daemon_pod_timeout,
}

infixl 20 ◌>>=◌
-- A text that needs other texts.
abbrev pub ◌>>=◌ : {A B : Type 0} → Option A → (A → Option B) → Option B
none >>= f = none
some a >>= f = f a

-- runtime.Frame: the fields that are read.
pub record Frame : Type 0 where
  pub function : String
  pub file : String
  pub line : ℕ

-- What the runtime knows of a caller: how many program counters runtime.Callers wrote, and the frame
-- that CallersFrames has first, which may be a nil pointer.
pub record Stack : Type 0 where
  pub written : ℕ
  pub frames : Option Frame

pub record CallerInfo : Type 0 where
  pub function_name : String
  pub file : String
  pub line : ℕ
  pub err : Option GoError

abbrev pub no_caller : String → CallerInfo
no_caller context = record {
  function_name = "";
  file = "";
  line = 0;
  err = some (unrecoverable_error context (sentinel nil_unrecoverable));
}

abbrev pub of_frames : Option Frame → CallerInfo
of_frames none = no_caller "Frames pointer returned from CallersFrames is nil"
of_frames (some frame) = record {
  function_name = frame.function;
  file = frame.file;
  line = frame.line;
  err = none;
}

-- GetCallerInfo
abbrev pub get_caller_info : Stack → CallerInfo
get_caller_info stack =
    if eqb stack.written 1
    then of_frames stack.frames
    else no_caller "Couldn't get runtime.callers for logging, returned 0"

-- CallerInfo.String, where `text` is the Error method.
abbrev pub caller_string : (GoError → Option String) → CallerInfo → Option String
caller_string text info = elim info.err [
  | some e ↦ do s ← text e; some ("|Error extracting location information: " ⧺ s ⧺ "|")
  | none ↦
      some
        ("|" ⧺ info.function_name ⧺ " in file " ⧺ info.file ⧺ " at line " ⧺ decimal info.line ⧺ "|")
]

-- The texts of the package variables.
abbrev pub sentinel_text : Sentinel → String
sentinel_text k8s_client = "K8s client request error"
sentinel_text unrecoverable = "Fatal unrecoverable error"
sentinel_text nil_unrecoverable = "value required to progress is nil"
sentinel_text internal = "Internal error"
sentinel_text parsing = "Error parsing"
sentinel_text try_again = "Recoverable error"
sentinel_text unimplemented = "Unimplemented"
sentinel_text type_mismatch = "Unexpected type"
sentinel_text missing_annotation = "At least one of the annotations are missing"
sentinel_text no_ip_in_pool = "This pod's pool doesn't have a free IP address"
sentinel_text no_manager_pods = "This network doesn't have any manager pods"
sentinel_text manager_not_ready = "Manager for this pod is not ready yet"
sentinel_text net_in_use = "Network is still used by pods"
sentinel_text daemon_set_timeout = "Daemonset timeout error"
sentinel_text daemon_pod_timeout = "Daemon pod timeout error"

-- The text of a DaemonSetTimeoutError, whose last part tells of the cleanup.
abbrev pub daemon_set_timeout_text : String → ℕ → ℕ → String → String
daemon_set_timeout_text name ready total cleanup =
    "Timeout waiting for '"
    ⧺ name
    ⧺ "' daemonset to become available after "
    ⧺ decimal wait_for_daemon_timeout
    ⧺ " tries ("
    ⧺ decimal ready
    ⧺ " Ready, "
    ⧺ decimal total
    ⧺ " Total). "
    ⧺ cleanup

-- RequestError
abbrev request_text : String → String → String → String
request_text action at t = "Error requesting " ⧺ action ⧺ " in " ⧺ at ⧺ " via http client: " ⧺ t

-- UnrecoverableError
abbrev unrecoverable_text : String → String → String → String
unrecoverable_text context at t =
    "Fatal unrecoverable error occured in " ⧺ at ⧺ ". Context: " ⧺ context ⧺ ", error: " ⧺ t

-- InternalError
abbrev internal_text : String → String
internal_text context =
    "Internal error, please open an issue on github with this error message and related information."
    ⧺ (" Context: " ⧺ context)

-- ParsingError
abbrev parsing_text : String → String → String
parsing_text source t = "Error parsing " ⧺ source ⧺ ": " ⧺ t

-- TryAgainError
abbrev try_again_text : String → String
try_again_text t = sentinel_text try_again ⧺ ": " ⧺ t

-- UnimplementedError
abbrev unimplemented_text : String → String
unimplemented_text feature = "unimplemented: " ⧺ feature

-- NetInUseError
abbrev net_in_use_text : List String → String → String
net_in_use_text pods name =
    "Network " ⧺ name ⧺ " is still used by " ⧺ decimal (length pods) ⧺ " pods: " ⧺ join pods ", "

-- ReconcileError
abbrev reconcile_text : String → String → String
reconcile_text action t = "Error doing " ⧺ action ⧺ ": " ⧺ t

-- ReconcileErrorList
abbrev reconcile_list_text : List String → String
reconcile_list_text ts =
    decimal (length ts) ⧺ " Unrecoverable errors encountered: " ⧺ join ts " |+| "

-- A DaemonPodTimeoutError, whose cleanup has failed.
abbrev daemon_pod_timeout_text : String → String → String
daemon_pod_timeout_text name t =
    "Timeout waiting for daemon '"
    ⧺ name
    ⧺ "' to get assigned IP after "
    ⧺ decimal wait_for_daemon_timeout
    ⧺ " tries. Cleanup failed: "
    ⧺ t

-- How a method is reached: from the Error method of another error, as fmt.Errorf makes its text, or
-- from the String method of a CallerInfo.
pub data Via : Type 0 where
  by_error by_errorf by_caller : Via

-- The Error methods. `caller` is the text of GetCallerInfo, from a method that was reached so.
module _ (caller : List Via → Option String) where
  unfoldable mutual
    pub text_with : List Via → GoError → Option String
    text_with via (external s) = some s
    text_with via (sentinel s) = some (sentinel_text s)
    text_with via (wrapped s e) = do t ← text_with (by_errorf ∷ via) e; some (s ⧺ ": " ⧺ t)
    text_with via (joined a b) = do
      s ← text_with (by_errorf ∷ via) a
      t ← text_with (by_errorf ∷ via) b
      some (s ⧺ ": " ⧺ t)
    text_with via (client_request action e) = do
      at ← caller via
      t ← text_with (by_error ∷ via) e
      some ("Error requesting " ⧺ action ⧺ " in " ⧺ at ⧺ " via k8s client: " ⧺ t)
    text_with via (request action e) = do
      at ← caller via
      t ← text_with (by_error ∷ via) e
      some (request_text action at t)
    text_with via (unrecoverable_error context e) = do
      at ← caller via
      t ← text_with (by_error ∷ via) e
      some (unrecoverable_text context at t)
    text_with via (internal_error context) = some (internal_text context)
    text_with via (parsing_error source e) = do
      t ← text_with (by_error ∷ via) e
      some (parsing_text source t)
    text_with via (try_again_error e) = do t ← text_with (by_error ∷ via) e; some (try_again_text t)
    text_with via (unimplemented_error feature) = some (unimplemented_text feature)
    text_with via (type_mismatch_error place got) =
        some ("Type mismatch error in " ⧺ place ⧺ ", expected VlanNetwork but got: " ⧺ got)
    text_with via (missing_annotation_error resource) =
        some ("At least one of the required annotations is missing on resource: " ⧺ resource)
    text_with via (no_ip_in_pool_error resource pool) =
        some ("Pod " ⧺ resource ⧺ " belongs to a pool (" ⧺ pool ⧺ ") with no free IP addresses")
    text_with via (no_manager_pods_error resource network) = some (
        "Pod " ⧺ resource ⧺ " belongs to a network (" ⧺ network
        ⧺ ") with no existing manager pods (check logs of controller)")
    text_with via (manager_not_ready_error resource manager) =
        some ("This pod's (" ⧺ resource ⧺ ") manager (" ⧺ manager ⧺ ") is not ready yet, try again")
    text_with via (net_in_use_error pods name) = some (net_in_use_text pods name)
    text_with via (reconcile_error action e) = do
      t ← text_with (by_error ∷ via) e
      some (reconcile_text action t)
    text_with via (reconcile_error_list es) = do
      ts ← texts_with (by_error ∷ via) es
      some (reconcile_list_text ts)
    text_with via (daemon_set_timeout_error name ready total) =
        some (daemon_set_timeout_text name ready total "Cleaned up successfully.")
    text_with via (daemon_set_cleanup_error name ready total e) = do
      t ← text_with (by_error ∷ via) e
      some (daemon_set_timeout_text name ready total ("Cleanup failed: " ⧺ t))
    text_with via (daemon_pod_timeout_error name e) = do
      t ← text_with (by_error ∷ via) e
      some (daemon_pod_timeout_text name t)

    pub texts_with : List Via → Errors → Option (List String)
    texts_with via nil = some []
    texts_with via (cons e es) = do t ← text_with via e; ts ← texts_with via es; some (t ∷ ts)

-- The methods call each other for as long as no caller is found. `stack` is what the runtime knows in
-- a method that was reached so.
module _ (stack : List Via → Stack) where
  unfoldable pub caller_text : ℕ → List Via → Option String
  caller_text zero via = none
  caller_text (suc fuel) via =
      caller_string (text_with (λ deeper. caller_text fuel deeper) (by_caller ∷ via))
        (get_caller_info (stack via))

  -- Error
  unfoldable pub error_text : ℕ → GoError → Option String
  error_text fuel e = text_with (caller_text fuel) [] e
