-- ===== src/Service/Prepare/Refusals.antt =====
-- The calls that `_prepare_or_retry` refuses before it looks for a key.
use n8n_operator.Json.Nfc.{canonicalize_arguments}
use n8n_operator.Service.Handles.{decimal}
use n8n_operator.Service.Store.Operations.{count_recent}
use n8n_operator.Service.Store.Logs.{write_audit}
use n8n_operator.Service.Idempotency.{check_argument_size}
use n8n_operator.Audit.Writer.{write}
use n8n_operator.Json.{end, num, str, field, obj, Fields}
use n8n_operator.Service.Outcome.{
  rate_limited, arguments_too_large, err, ◌>>=◌, commit_and_raise, gets, OperatorError,
}
use n8n_operator.Service.Prepare.{
  canonicalize_arguments, decimal, count_recent, error_code, effective_limit, write_audit,
  check_rate, check_argument_size, deny, refusal, prepare_or_retry, Fields, Db, OperatorError,
  Ports, Request,
}
use n8n_operator.Service.Store.Rows.{Db, Context}
use n8n_operator.Base.{
  leb, false, arith, true, ltb, ◌-◌, ◌≤◌, some, ◌≡◌, ◌<◌, codes, length, ℕ, refl,
}

-- The database with the entry of a denied preparation, and nothing else changed.
abbrev pub denied_db : Context → Request → OperatorError → Fields → Db → Db
denied_db ctx r e details d = record d {
  audit_log =
      write ctx.digest
        (record {
          occurred_at = ctx.now;
          actor = r.principal_id;
          action = codes "operation.prepare_denied";
          subject_type = codes "workflow";
          subject_id = r.workflow_id;
          outcome = codes "denied";
          detail = obj (field (codes "code") (str (error_code e)) details);
        })
        d.audit_log;
}

abbrev pub argument_size : Context → Request → ℕ
argument_size ctx r = length (canonicalize_arguments ctx.digest.nfc r.arguments)

abbrev pub size_details : Context → Request → Fields
size_details ctx r =
    field (codes "size") (num (decimal (argument_size ctx r)))
      (field (codes "limit") (num (decimal (effective_limit r))) end)

abbrev pub rate_details : Context → Request → ℕ → Db → Fields
rate_details ctx r limit d =
    field (codes "limit_per_minute") (num (decimal limit)) (
      field (codes "recent_count") (num (decimal (count_recent r.workflow_id (ctx.now - 60) d)))
        end)

-- The calls that are refused: with what error and what details.
pub data IsRefused (ctx : Context) (r : Request) (d : Db) : OperatorError → Fields → Type 0 where
  too_large :
      effective_limit r < argument_size ctx r
      → IsRefused ctx r d arguments_too_large (size_details ctx r)
  too_many :
      (limit : ℕ)
      → argument_size ctx r ≤ effective_limit r
      → r.entry.limits.rate_limit_per_minute ≡ some limit
      → limit ≤ count_recent r.workflow_id (ctx.now - 60) d
      → IsRefused ctx r d rate_limited (rate_details ctx r limit d)

module _ (ctx : Context) (ports : Ports) (meanwhile : Db → Db) (start : Db) (r : Request)
    (d : Db) where
  refused-runs :
      (e : OperatorError) (details : Fields)
      → refusal ctx r d ≡ some (e, details)
      → prepare_or_retry ctx ports meanwhile start r d ≡ err e (some (denied_db ctx r e details d))
  unfolding prepare_or_retry deny gets write_audit commit_and_raise ◌>>=◌
  refused-runs e details h = rw (prepare_or_retry, h) refl

  refusal-IsRefused :
      (e : OperatorError) (details : Fields)
      → IsRefused ctx r d e details
      → refusal ctx r d ≡ some (e, details)
  unfolding refusal check_argument_size check_rate n8n_operator.Json.Nfc.canonicalize_arguments
      decimal
  refusal-IsRefused _ _ (too_large large) =
      let too_long : ltb (effective_limit r) (argument_size ctx r) ≡ true = ground arith in
      rw (refusal, check_argument_size, too_long) refl
  refusal-IsRefused _ _ (too_many limit small rated reached) =
      let fits : ltb (effective_limit r) (argument_size ctx r) ≡ false = ground arith in
      let is_reached : leb limit (count_recent r.workflow_id (ctx.now - 60) d) ≡ true =
        ground arith in
      rw (refusal, check_argument_size, fits, check_rate, rated, is_reached) refl

  -- A call whose arguments are larger than its limit ends in `ARGUMENTS_TOO_LARGE`; one whose arguments are
  -- not, but whose workflow has had as many operations in the last 60 seconds as its rate allows, ends in
  -- `RATE_LIMITED`. In both cases what is committed is one audit entry that says so, and nothing else.
  pub prepare_or_retry_refused :
      (e : OperatorError) (details : Fields)
      → IsRefused ctx r d e details
      → prepare_or_retry ctx ports meanwhile start r d ≡ err e (some (denied_db ctx r e details d))
  prepare_or_retry_refused e details refused =
      refused-runs e details (refusal-IsRefused e details refused)
