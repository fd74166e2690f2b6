-- ===== src/Service/Outcome.antt =====
-- How a use case ends: src/n8n_operator/errors.py, the exceptions that the modelled use cases
-- raise, and `session_scope` of src/n8n_operator/storage/session.py.
pub mod Steps
use n8n_operator.Base.{Bool, true, false, ◌≡◌, refl, Option, none, some}

-- `assertion` is a failed `assert`, `multiple_results` the failure of `one_or_none`,
-- `integrity_error` a violated unique constraint.
pub data OperatorError : Type 0 where
  workflow_not_found workflow_disabled environment_not_found environment_required : OperatorError
  environment_archived approver_not_in_policy idempotency_conflict : OperatorError
  arguments_too_large operation_not_found retry_not_applicable operation_expired : OperatorError
  operation_canceled invalid_state_transition argument_mismatch rate_limited : OperatorError
  concurrency_limit_reached approval_required handle_invalid handle_already_used : OperatorError
  approval_token_invalid approval_token_already_used approval_not_pending : OperatorError
  approval_already_decided reconciliation_not_applicable definition_drift : OperatorError
  workflow_inactive workflow_missing_on_instance instance_unreachable : OperatorError
  registry_unavailable optimistic_lock assertion multiple_results integrity_error : OperatorError
  result_not_available invalid_arguments insufficient_role : OperatorError

-- A session on a database `D`: a value and the pending database, or an exception with the database
-- that the session committed before it was raised, if it committed any.
pub data Result (D A : Type 0) : Type 0 where
  ok : A → D → Result D A
  err : OperatorError → Option D → Result D A

abbrev pub Session : Type 0 → Type 0 → Type 0
Session D A = D → Result D A

module _ {D : Type 0} where
  infixl 5 ◌>>=◌ ◌>>◌
  unfoldable pub ◌>>=◌ : {A B : Type 0} → Session D A → (A → Session D B) → Session D B
  ◌>>=◌ m f d = elim (m d) [ ok a d' ↦ f a d' | err e kept ↦ err e kept ]

  abbrev pub ◌>>◌ : {A B : Type 0} → Session D A → Session D B → Session D B
  m >> k = m >>= λ _. k

  unfoldable pub pure : {A : Type 0} → A → Session D A
  pure a d = ok a d

  unfoldable pub raise : {A : Type 0} → OperatorError → Session D A
  raise e d = err e none

  unfoldable pub raise_if : Bool → OperatorError → Session D (Unit {0})
  raise_if true e d = err e none
  raise_if false e d = ok tt d

  -- `session.commit()` and then `raise`
  unfoldable pub commit_and_raise : {A : Type 0} → OperatorError → Session D A
  commit_and_raise e d = err e (some d)

  unfoldable pub gets : {A : Type 0} → (D → A) → Session D A
  gets f d = ok (f d) d

  -- A value that is there, or the exception.
  unfoldable pub or_raise : {A : Type 0} → Option A → OperatorError → Session D A
  or_raise none e d = err e none
  or_raise (some a) e d = ok a d

  -- The database after `session_scope`: what was committed, by its exit or before the exception.
  unfoldable pub session_scope : {A : Type 0} → Session D A → D → D
  session_scope m d = elim (m d) [ ok a d' ↦ d' | err e kept ↦ elim kept [ none ↦ d | some c ↦ c ] ]
