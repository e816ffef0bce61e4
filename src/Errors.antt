-- ===== src/Errors.antt =====
-- The package of structured errors (internal/errors/errors.go), over the chains of errors that the
-- operator builds. `nil_error` is Go's nil.
pub mod Laws
use text.Mathlib.Text.{find?}
use k8s_postgresql_operator.Prelude.{
  ℕ, String, ◌<>◌, Bool, true, false, not, ◌||◌, ◌&&◌, Option, none, some, ◌==◌, if◌then◌else◌,
}

-- An error value: the text of a library's error, the sentinel of the Vault client, a response of
-- Vault's API with its status code, `fmt.Errorf("prefix: %w", err)`, or a structured error, by its
-- code, message, operation and underlying error.
pub data Error : Type 0 where
  nil_error : Error
  plain : String → Error
  secret_not_found : Error
  response : ℕ → String → Error
  wrapped : String → Error → Error
  structured : String → String → String → Error → Error

-- `type Error struct`
pub record Structured : Type 0 where
  pub code : String
  pub message : String
  pub op : String
  pub err : Error

abbrev pub as_error : Structured → Error
as_error e = structured e.code e.message e.op e.err

-- What the code passes to `errors.Is` as its target: a structured sentinel, or Vault's.
pub data Target : Type 0 where
  sentinel : Structured → Target
  vault_sentinel : Target

unfoldable pub new : String → Structured
new message = record { code = "UNKNOWN"; message = message; op = ""; err = nil_error }

unfoldable pub with_op : String → Structured → Structured
with_op op e = record e { op = op }

unfoldable pub with_code : String → Structured → Structured
with_code code e = record e { code = code }

abbrev pub is_nil : Error → Bool
is_nil nil_error = true
is_nil _ = false

-- `(e *Error) Error()` and the texts of the other errors. `%w` of nil prints `%!w(<nil>)`.
unfoldable pub error_text : Error → String
error_text nil_error = "<nil>"
error_text (plain s) = s
error_text secret_not_found = "secret not found in Vault"
error_text (response status s) = s
error_text (wrapped s nil_error) = s <> ": %!w(<nil>)"
error_text (wrapped s e) = s <> ": " <> error_text e
error_text (structured code message op nil_error) =
    if op == "" then message else op <> ": " <> message
error_text (structured code message op e) =
    let text = error_text e in
    if op == "" then message <> ": " <> text else op <> ": " <> message <> ": " <> text

-- `Wrap`, with nil for `none`.
unfoldable pub wrap : Option Structured → Error → Option Structured
unfolding error_text
wrap none nil_error = none
wrap none e = some (record { code = "UNKNOWN"; message = error_text e; op = ""; err = e })
wrap (some base) nil_error = some base
wrap (some base) e = some (record base { err = e })

-- `Wrapf`, with its message already formatted.
unfoldable pub wrapf : Option Structured → Error → String → Option Structured
wrapf none nil_error message = none
wrapf none e message = some (record { code = "UNKNOWN"; message = message; op = ""; err = e })
wrapf (some base) nil_error message = some base
wrapf (some base) e message = some (record base { message = message; err = e })

-- The comparison of two structured errors in the method `Is`.
abbrev pub same_kind : String → String → Structured → Bool
same_kind code message t = code == t.code && message == t.message

-- `errors.Is`: the error itself, its method `Is`, and then what it unwraps to.
unfoldable pub errors_is : Error → Target → Bool
errors_is nil_error t = false
errors_is (plain s) t = false
errors_is (response status s) t = false
errors_is secret_not_found (sentinel t) = false
errors_is secret_not_found vault_sentinel = true
errors_is (wrapped s e) t = errors_is e t
errors_is (structured code message op e) (sentinel t) =
    same_kind code message t || errors_is e (sentinel t)
errors_is (structured code message op e) vault_sentinel = errors_is e vault_sentinel

-- The method `(e *Error) Is(target)`.
unfoldable pub error_is : Structured → Target → Bool
unfolding errors_is
error_is e (sentinel t) = same_kind e.code e.message t
error_is e vault_sentinel = errors_is e.err vault_sentinel

abbrev pub coded : String → String → Structured
coded message code = record { code = code; message = message; op = ""; err = nil_error }

abbrev pub err_not_found : Structured
err_not_found = coded "resource not found" "UNKNOWN"

abbrev pub err_connection_failed : Structured
err_connection_failed = coded "connection failed" "UNKNOWN"

abbrev pub err_timeout : Structured
err_timeout = coded "operation timed out" "UNKNOWN"

abbrev pub err_postgresql_not_found : Structured
err_postgresql_not_found = coded "postgresql instance not found" "POSTGRESQL_NOT_FOUND"

abbrev pub err_postgresql_connection_failed : Structured
err_postgresql_connection_failed =
    coded "postgresql connection failed" "POSTGRESQL_CONNECTION_FAILED"

abbrev pub err_postgresql_operation_failed : Structured
err_postgresql_operation_failed = coded "postgresql operation failed" "POSTGRESQL_OPERATION_FAILED"

abbrev pub err_vault_unavailable : Structured
err_vault_unavailable = coded "vault unavailable" "VAULT_UNAVAILABLE"

abbrev pub err_vault_secret_not_found : Structured
err_vault_secret_not_found = coded "vault secret not found" "VAULT_SECRET_NOT_FOUND"

abbrev pub err_kubernetes_resource_not_found : Structured
err_kubernetes_resource_not_found = coded "kubernetes resource not found" "K8S_RESOURCE_NOT_FOUND"

-- `PostgreSQLError`; `VaultError` and `KubernetesError` are the same with other defaults.
layer_error : String → String → String → Option Structured → Structured
layer_error message code op none = record {
  code = code;
  message = message;
  op = op;
  err = nil_error;
}
layer_error message code op (some base) = record {
  code = base.code;
  message = base.message;
  op = op;
  err = as_error base;
}

unfoldable pub postgresql_error : String → Option Structured → Structured
unfolding layer_error
postgresql_error op base = layer_error "postgresql error" "POSTGRESQL_ERROR" op base

unfoldable pub vault_error : String → Option Structured → Structured
unfolding layer_error
vault_error op base = layer_error "vault error" "VAULT_ERROR" op base

unfoldable pub kubernetes_error : String → Option Structured → Structured
unfolding layer_error
kubernetes_error op base = layer_error "kubernetes error" "K8S_ERROR" op base

-- `ValidationError`
unfoldable pub validation_error : String → Structured
unfolding new with_code
validation_error message = with_code "VALIDATION_ERROR" (new message)

-- `AsError`: the first structured error of the chain.
unfoldable pub find_structured : Error → Option Structured
find_structured (wrapped s e) = find_structured e
find_structured (structured code message op e) =
    some (record { code = code; message = message; op = op; err = e })
find_structured _ = none

unfoldable pub is_not_found : Error → Bool
is_not_found e =
    errors_is e (sentinel err_not_found)
    || errors_is e (sentinel err_postgresql_not_found)
    || errors_is e (sentinel err_vault_secret_not_found)
    || errors_is e (sentinel err_kubernetes_resource_not_found)

unfoldable pub is_connection_error : Error → Bool
is_connection_error e =
    errors_is e (sentinel err_connection_failed)
    || errors_is e (sentinel err_postgresql_connection_failed)
    || errors_is e (sentinel err_vault_unavailable)

unfoldable pub is_retryable : Error → Bool
unfolding is_connection_error
is_retryable e =
    is_connection_error e
    || errors_is e (sentinel err_timeout)
    || errors_is e (sentinel err_vault_unavailable)

-- `vault.IsSecretNotFound`
unfoldable pub is_secret_not_found : Error → Bool
is_secret_not_found e = errors_is e vault_sentinel

-- The status code of the first response in the chain, by `errors.As`.
unfoldable pub status_code : Error → Option ℕ
status_code nil_error = none
status_code (plain s) = none
status_code secret_not_found = none
status_code (response status s) = some status
status_code (wrapped s e) = status_code e
status_code (structured code message op e) = status_code e

-- `strings.Contains`
unfoldable pub contains_text : String → String → Bool
contains_text s t = elim (find? s t) [ none ↦ false | some _ ↦ true ]
