-- ===== src/Types/Errors.antt =====
-- pkg/goxidized/errors.go: failure categories, their way through a chain of wrapped errors, and the
-- status that a failed job is given.
use go_xidized.Prelude.{Text, ◌≡◌, refl}
use go_xidized.Types.{
  JobStatus, failed_connect, failed_auth, failed_privilege, failed_command, failed_timeout,
  failed_normalization, failed_redaction, failed_storage, failed_credential_provider,
}

-- The string constants of `FailureCategory`.
pub data FailureCategory : Type 0 where
  connect auth privilege command timeout normalization redaction storage : FailureCategory
  credential_provider : FailureCategory

-- An `error`: one of no interest with its text, a `BackupError` with its operation and the error
-- that it wraps, or another error that wraps one.
pub data GoError : Type 0 where
  plain : Text → GoError
  backup : FailureCategory → Text → GoError → GoError
  wrapping : Text → GoError → GoError

-- A result with an error that may be nil: the value counts only where it is.
pub data Result {ℓ} (A : Type ℓ) : Type ℓ where
  ok : A → Result A
  err : GoError → Result A

-- `errors.As` finds the first `BackupError` of the chain.
unfoldable pub classify_error : GoError → FailureCategory
classify_error (plain t) = command
classify_error (backup cat op e) = cat
classify_error (wrapping t e) = classify_error e

unfoldable pub status_for_failure : FailureCategory → JobStatus
status_for_failure connect = failed_connect
status_for_failure auth = failed_auth
status_for_failure privilege = failed_privilege
status_for_failure command = failed_command
status_for_failure timeout = failed_timeout
status_for_failure normalization = failed_normalization
status_for_failure redaction = failed_redaction
status_for_failure storage = failed_storage
status_for_failure credential_provider = failed_credential_provider

-- The category that a failed job's status stands for.
abbrev pub category_of : JobStatus → FailureCategory
category_of failed_connect = connect
category_of failed_auth = auth
category_of failed_privilege = privilege
category_of failed_timeout = timeout
category_of failed_normalization = normalization
category_of failed_redaction = redaction
category_of failed_storage = storage
category_of failed_credential_provider = credential_provider
category_of _ = command

-- The status of a failed job tells the category of its error: no two categories share one.
pub category_of-status_for_failure : (c : FailureCategory) → category_of (status_for_failure c) ≡ c
unfolding status_for_failure
category_of-status_for_failure connect = refl
category_of-status_for_failure _ = refl
