-- ===== src/Service/Idempotency.antt =====
-- src/n8n_operator/core/idempotency.py: the size limit and the resolution of a key. The exception of
-- `check_argument_size` is a value here, with its details, since its caller catches it.
use n8n_operator.Base.{ℕ, Option, none, some, Text, codes, text_eq, length, ltb, if◌then◌else◌}
use n8n_operator.Json.{Fields, field, end, num}
use n8n_operator.Service.Outcome.{
  Session, pure, raise, OperatorError, arguments_too_large, idempotency_conflict,
}
use n8n_operator.Service.Handles.{decimal}

unfoldable pub check_argument_size : Text → ℕ → Option (OperatorError × Fields)
check_argument_size canonical_bytes effective_limit =
    if ltb effective_limit (length canonical_bytes)
    then some (
      arguments_too_large,
      field (codes "size") (num (decimal (length canonical_bytes)))
          (field (codes "limit") (num (decimal effective_limit)) end),
    )
    else none

pub data IdempotencyResolution : Type 0 where
  new replay : IdempotencyResolution

unfoldable pub resolve_idempotency :
    {D : Type 0} → Option Text → Text → Session D IdempotencyResolution
resolve_idempotency none new_fingerprint = pure new
resolve_idempotency (some existing_fingerprint) new_fingerprint =
    if text_eq existing_fingerprint new_fingerprint then pure replay else raise idempotency_conflict
