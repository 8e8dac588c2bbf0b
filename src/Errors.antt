-- ===== src/Errors.antt =====
-- pkg/errors: the error values of the program, and the errors that the controller adds to them in
-- internal/controller. An error is a tree, by what `Unwrap` returns.
pub mod Texts
pub mod Told
use vlanman.Prelude.{String, List, ℕ, [], ◌∷◌}

-- The package variables made by errors.New.
pub data Sentinel : Type 0 where
  k8s_client unrecoverable nil_unrecoverable internal parsing try_again unimplemented : Sentinel
  type_mismatch missing_annotation no_ip_in_pool no_manager_pods manager_not_ready : Sentinel
  net_in_use daemon_set_timeout daemon_pod_timeout : Sentinel

mutual
  pub data GoError : Type 0 where
    -- An error made by a library or by fmt.Errorf with no `%w`.
    external : String → GoError
    sentinel : Sentinel → GoError
    -- fmt.Errorf("…%w", err)
    wrapped : String → GoError → GoError
    -- fmt.Errorf("%w: %w", a, b)
    joined : GoError → GoError → GoError
    client_request : String → GoError → GoError
    request : String → GoError → GoError
    unrecoverable_error : String → GoError → GoError
    internal_error : String → GoError
    parsing_error : String → GoError → GoError
    try_again_error : GoError → GoError
    unimplemented_error : String → GoError
    type_mismatch_error : String → String → GoError
    missing_annotation_error : String → GoError
    no_ip_in_pool_error : String → String → GoError
    no_manager_pods_error : String → String → GoError
    manager_not_ready_error : String → String → GoError
    net_in_use_error : List String → String → GoError
    reconcile_error : String → GoError → GoError
    reconcile_error_list : Errors → GoError
    -- A cleanup that succeeded has no error.
    daemon_set_timeout_error : String → ℕ → ℕ → GoError
    daemon_set_cleanup_error : String → ℕ → ℕ → GoError → GoError
    daemon_pod_timeout_error : String → GoError → GoError

  pub data Errors : Type 0 where
    nil : Errors
    cons : GoError → Errors → Errors

-- NewClientRequestError
pub new_client_request_error : String → GoError → GoError
new_client_request_error action e = joined (sentinel k8s_client) (client_request action e)

-- NewParsingError
unfoldable pub new_parsing_error : String → GoError → GoError
new_parsing_error source e = joined (sentinel parsing) (parsing_error source e)

-- What the Unwrap methods return: no error, one, or the two of a joined error.
unfoldable pub unwrap : GoError → List GoError
unwrap (external _) = []
unwrap (sentinel _) = []
unwrap (wrapped _ e) = e ∷ []
unwrap (joined a b) = a ∷ b ∷ []
unwrap (client_request _ e) = e ∷ []
unwrap (request _ e) = e ∷ []
unwrap (unrecoverable_error _ e) = e ∷ []
unwrap (internal_error _) = sentinel internal ∷ []
unwrap (parsing_error _ e) = e ∷ []
unwrap (try_again_error _) = sentinel try_again ∷ []
unwrap (unimplemented_error _) = sentinel unimplemented ∷ []
unwrap (type_mismatch_error _ _) = sentinel type_mismatch ∷ []
unwrap (missing_annotation_error _) = sentinel missing_annotation ∷ []
unwrap (no_ip_in_pool_error _ _) = sentinel no_ip_in_pool ∷ []
unwrap (no_manager_pods_error _ _) = sentinel no_manager_pods ∷ []
unwrap (manager_not_ready_error _ _) = sentinel manager_not_ready ∷ []
unwrap (net_in_use_error _ _) = sentinel net_in_use ∷ []
unwrap (reconcile_error _ e) = e ∷ []
unwrap (reconcile_error_list _) = []
unwrap (daemon_set_timeout_error _ _ _) = sentinel daemon_set_timeout ∷ []
unwrap (daemon_set_cleanup_error _ _ _ _) = sentinel daemon_set_timeout ∷ []
unwrap (daemon_pod_timeout_error _ _) = sentinel daemon_pod_timeout ∷ []
