-- ===== src/Service/Sessions.antt =====
-- The calls that users and timers make, each in a `session_scope` of its own as
-- src/n8n_operator/mcp/server.py, src/n8n_operator/approval/app.py and the command line run them.
-- The two sessions of a dispatch are a read and a report.
use n8n_operator.Service.History.Redeliver.{retry_failed_notifications-SafeAt}
use n8n_operator.Service.Redeliver.{retry_failed_notifications}
use n8n_operator.Registry.Overlays.{WorkflowOverlayEntry}
use n8n_operator.Registry.{RegistryDocument}
use n8n_operator.Service.History.Reload.{reload_overlay-SafeAt, reload_registry-SafeAt}
use n8n_operator.Service.Reload.{reload_overlay, reload_registry}
use n8n_operator.Registry.Rules.{Parsers}
use n8n_operator.Service.Reconcile.{reconcile_operation}
use n8n_operator.Service.Routing.{request_approval}
use n8n_operator.Service.Sweep.{check_and_deliver_alerts, expire_overdue_operations}
use n8n_operator.Service.History.Report.{
  reconcile_operation-SafeAt, request_approval-SafeAt, check_and_deliver_alerts-SafeAt,
  expire_overdue_operations-SafeAt, record_execution_outcome-SafeAt,
}
use n8n_operator.Service.Report.{record_execution_outcome, Outcome}
use n8n_operator.Json.{Json}
use n8n_operator.Service.History.Retry.{retry_operation-SafeAt, prepare_operation-SafeAt}
use n8n_operator.Service.Retry.{retry_operation, prepare_operation}
use n8n_operator.Service.History.Votes.{reject_operation-SafeAt, approve_operation-SafeAt}
use n8n_operator.Service.History.UseCases.{
  execute_operation-SafeAt, cancel_operation-SafeAt, get_owned_operation_row-SafeAt,
}
use n8n_operator.Service.History.Held.{Held}
use n8n_operator.Service.Approve.{reject_operation, approve_operation}
use n8n_operator.Service.Execute.{execute_operation, cancel_operation}
use n8n_operator.Service.Prepare.{Ports}
use n8n_operator.Service.History.Prepare.{HeldPrepared}
use n8n_operator.Service.History.Safe.{SafeAt-pure, SafeAt-bind, Anything, SafeAt, Evolves-refl}
use n8n_operator.Service.Access.{get_owned_operation_row}
use n8n_operator.Service.History.Rows.{IsKeyed}
use n8n_operator.Service.Outcome.{pure, ◌>>=◌, Session}
use n8n_operator.Service.Store.Rows.{Db, Context}
use n8n_operator.Service.Ports.{ReconciliationPort, NotificationSink, PreflightPort}
use n8n_operator.Base.{ℕ, Bool, Option, List, Text}

pub data Call : Type 0 where
  status : Bool → Text → Text → Text → Call
  cancel : Bool → Text → Text → Option Text → Call
  execute : PreflightPort → Bool → Text → Text → Text → Text → Call
  approve reject : Bool → Text → Text → Option Text → Call
  prepare : Ports → Bool → Text → Option Text → Text → Json → ℕ → Option Text → Option Text → Call
  retry : Ports → Bool → Text → Text → ℕ → Option Text → Option Text → Call
  report : (Text → Json → Json) → List Text → Text → Outcome → Call
  expire_overdue : Call
  alert : NotificationSink → ℕ → Call
  route : NotificationSink → Bool → Text → Text → Option (List Text) → Option Text → Call
  reconcile : ReconciliationPort → Bool → Text → Text → Text → Text → Call
  reload : Parsers → ℕ → (RegistryDocument → Json) → Text → RegistryDocument → Call
  overlay : Text → Text → Text → List WorkflowOverlayEntry → Call
  redeliver : NotificationSink → ℕ → Call

-- A call without its result.
abbrev forget : {A : Type 0} → Session Db A → Session Db (Unit {0})
forget m = m >>= λ _. pure tt

abbrev pub session : Context → Call → Session Db (Unit {0})
session ctx (status v2 i p tool) = forget (get_owned_operation_row ctx v2 i p tool)
session ctx (cancel v2 i p reason) = forget (cancel_operation ctx v2 i p reason)
session ctx (execute preflight v2 e i h p) = forget (execute_operation ctx preflight v2 e i h p)
session ctx (approve v2 i p f) = forget (approve_operation ctx v2 i p f)
session ctx (reject v2 i p f) = forget (reject_operation ctx v2 i p f)
session ctx (prepare ports v2 p e w arguments limit key reason) =
    forget (prepare_operation ctx ports (λ d. d) v2 p e w arguments limit key reason)
session ctx (retry ports v2 i p limit key reason) =
    forget (retry_operation ctx ports (λ d. d) v2 i p limit key reason)
session ctx (report update secrets i o) = forget (record_execution_outcome ctx update secrets i o)
session ctx expire_overdue = forget (expire_overdue_operations ctx)
session ctx (alert sink threshold) = forget (check_and_deliver_alerts ctx sink threshold)
session ctx (route sink v2 i p approvers message) =
    forget (request_approval ctx sink v2 i p approvers message)
session ctx (reconcile port v2 i p execution note) =
    forget (reconcile_operation ctx port v2 i p execution note)
session ctx (reload parsers ceiling dump actor document) =
    forget (reload_registry ctx parsers ceiling dump actor document)
session ctx (overlay actor source_path environment_id overlays) =
    forget (reload_overlay ctx actor source_path environment_id overlays)
session ctx (redeliver sink max_attempts) =
    forget (retry_failed_notifications ctx sink max_attempts)

forget-SafeAt :
    {A : Type 0} (ctx : Context) (d : Db) (Q : A → Db → Type 0) (m : Session Db A)
    → SafeAt ctx d Q m
    → SafeAt ctx d Anything (forget m)
forget-SafeAt ctx d Q m safe =
    SafeAt-bind ctx Q Anything d m _ safe λ _ d' e _. SafeAt-pure ctx d' Anything tt e.keyed tt

module _ (ctx : Context) (d : Db) (k : IsKeyed d.operations) where
  pub session-SafeAt : (c : Call) → SafeAt ctx d Anything (session ctx c)
  session-SafeAt (status v2 i p tool) =
      forget-SafeAt ctx d Held _ (get_owned_operation_row-SafeAt ctx d v2 i p tool k)
  session-SafeAt (cancel v2 i p reason) =
      forget-SafeAt ctx d Held _ (cancel_operation-SafeAt ctx d v2 i p reason k)
  session-SafeAt (execute preflight v2 e i h p) =
      forget-SafeAt ctx d Held _ (execute_operation-SafeAt ctx d preflight v2 e i h p k)
  session-SafeAt (approve v2 i p f) =
      forget-SafeAt ctx d Held _ (approve_operation-SafeAt ctx d v2 i p f k)
  session-SafeAt (reject v2 i p f) =
      forget-SafeAt ctx d Held _ (reject_operation-SafeAt ctx d v2 i p f k)
  session-SafeAt (prepare ports v2 p e w arguments limit key reason) =
      forget-SafeAt ctx d HeldPrepared _ (
        prepare_operation-SafeAt ctx ports (λ x. x) v2 p d e w arguments limit key reason
          (Evolves-refl ctx) k)
  session-SafeAt (retry ports v2 i p limit key reason) =
      forget-SafeAt ctx d HeldPrepared _
        (retry_operation-SafeAt ctx ports (λ x. x) v2 p d i limit key reason (Evolves-refl ctx) k)
  session-SafeAt (report update secrets i o) =
      forget-SafeAt ctx d Held _ (record_execution_outcome-SafeAt ctx d update secrets i o k)
  session-SafeAt expire_overdue =
      forget-SafeAt ctx d Anything _ (expire_overdue_operations-SafeAt ctx d k)
  session-SafeAt (alert sink threshold) =
      forget-SafeAt ctx d Anything _ (check_and_deliver_alerts-SafeAt ctx d sink threshold k)
  session-SafeAt (route sink v2 i p approvers message) =
      forget-SafeAt ctx d Anything _ (request_approval-SafeAt ctx d sink v2 i p approvers message k)
  session-SafeAt (reconcile port v2 i p execution note) =
      forget-SafeAt ctx d Anything _ (reconcile_operation-SafeAt ctx d port v2 i p execution note k)
  session-SafeAt (reload parsers ceiling dump actor document) =
      forget-SafeAt ctx d Anything _
        (reload_registry-SafeAt ctx d parsers ceiling dump actor document k)
  session-SafeAt (overlay actor source_path environment_id overlays) =
      forget-SafeAt ctx d Anything _
        (reload_overlay-SafeAt ctx d actor source_path environment_id overlays k)
  session-SafeAt (redeliver sink max_attempts) =
      forget-SafeAt ctx d Anything _ (retry_failed_notifications-SafeAt ctx d sink max_attempts k)
