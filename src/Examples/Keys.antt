-- ===== src/Examples/Keys.antt =====
-- Calls with a key that is taken, calls that are refused, and the texts that are read back.
use n8n_operator.Json.Nfc.{canonicalize_arguments}
use n8n_operator.Service.Notify.Dedup.{deliver_with_dedup_once, known_receipt}
use n8n_operator.Service.Notify.{
  update_delivery, attempted, record_attempt, create_delivery, try_delivery, delivery_key,
  get_by_idempotency_key, DeliveryReceipt, deliver_with_dedup,
}
use n8n_operator.Service.Ports.{NotificationEvent, NotificationSink}
use n8n_operator.Service.Notify.Kept.{after_deliveries}
use n8n_operator.Service.Prepare.Refusals.{
  too_large, prepare_or_retry_refused, size_details, denied_db,
}
use n8n_operator.Service.Eligible.Members.{compute_eligible_approvers_lem, approves_with}
use n8n_operator.StateMachine.{Transition}
use n8n_operator.Service.Calls.{after}
use n8n_operator.Service.Eligible.{compute_eligible_approvers}
use n8n_operator.Service.Validation.{json_pointer}
use n8n_operator.Service.Handles.{binding_preimage}
use n8n_operator.Service.Outcome.{
  ◌>>=◌, gets, idempotency_conflict, arguments_too_large, ok, err, pure,
}
use n8n_operator.Service.Prepare.Replay.{
  prepare_or_retry_conflict, prepare_or_retry_replay, replay_of, NotOverdue, expired_row,
  expired_db,
}
use n8n_operator.Service.Idempotency.{check_argument_size}
use n8n_operator.Service.Validation.Pointer.{json_pointer_roundtrip, read_pointer}
use n8n_operator.Service.Handles.Binding.{binding_preimage_roundtrip, read_parts}
use n8n_operator.StateMachine.{overdue_expiry_transition}
use n8n_operator.Service.Execute.{fingerprint_arguments}
use n8n_operator.Service.Store.Operations.{find_by_idempotency}
use n8n_operator.Service.Store.Rows.{Context, DeliveryStatus, Db}
use n8n_operator.Json.{null, end, field, utf8, obj}
use n8n_operator.Base.{
  List, ℕ, arith, none, [], any, some, ◌∷◌, ◌≡◌, text_eq, codes, text_in, refl, true, false,
}
use n8n_operator.Examples.Preparing.{unattended_entry, empty_db, ports, prepared_op, calls}
use n8n_operator.Examples.Operations.{ctx, db}
use n8n_operator.Service.Prepare.{
  check_rate, request_fingerprint, find_existing, refusal, prepare_or_retry, Request,
}
use n8n_operator.Service.Lifecycle.{◌↝*◌, phase, after_refines}

abbrev request : Request
request = record {
  principal_id = codes "ana";
  workflow_id = codes "close";
  arguments = obj end;
  environment_value = codes "default";
  resolved_environment_id = none;
  entry = unattended_entry;
  snapshot_id = codes "s";
  server_max_argument_bytes = 1000;
  idempotency_key = some (codes "k");
  reason = none;
  enable_v2 = false;
  parent_operation_id = none;
}

-- The same key for other arguments.
abbrev other_request : Request
other_request = record request { arguments = obj (field (codes "a") null end) }

abbrev small_request : Request
small_request = record request { server_max_argument_bytes = 1 }

abbrev taken_db : Db
taken_db = record empty_db { operations = prepared_op ∷ [] }

prepare_or_retry_refused_example :
    prepare_or_retry ctx ports (λ d. d) empty_db small_request empty_db
    ≡ err arguments_too_large (
        some (
          denied_db ctx small_request arguments_too_large
            (size_details ctx small_request)
            empty_db))
unfolding canonicalize_arguments utf8
prepare_or_retry_refused_example =
    prepare_or_retry_refused ctx ports (λ d. d) empty_db small_request empty_db arguments_too_large
      (size_details ctx small_request) (too_large (omega arith))

accepts : refusal ctx request taken_db ≡ none
unfolding refusal check_argument_size check_rate canonicalize_arguments utf8
accepts = refl

accepts_other : refusal ctx other_request taken_db ≡ none
unfolding refusal check_argument_size check_rate canonicalize_arguments utf8
accepts_other = refl

is_taken : find_existing request (codes "k") taken_db ≡ some prepared_op
unfolding find_by_idempotency text_eq
is_taken = refl

same_arguments : text_eq prepared_op.argument_fingerprint (request_fingerprint ctx request) ≡ true
unfolding fingerprint_arguments canonicalize_arguments utf8 text_eq
same_arguments = refl

other_arguments :
    text_eq prepared_op.argument_fingerprint (request_fingerprint ctx other_request) ≡ false
unfolding fingerprint_arguments canonicalize_arguments utf8 text_eq
other_arguments = refl

prepare_or_retry_replay_example :
    (NotOverdue ctx prepared_op
      → prepare_or_retry ctx ports (λ d. d) taken_db request taken_db
        ≡ ok (replay_of prepared_op) taken_db)
    × ((t : Transition)
        → overdue_expiry_transition prepared_op.state ctx.now prepared_op.approval_expires_at
            prepared_op.execution_deadline
          ≡ some t
        → prepare_or_retry ctx ports (λ d. d) taken_db request taken_db
          ≡ ok (replay_of (expired_row ctx prepared_op)) (expired_db ctx prepared_op t taken_db))
prepare_or_retry_replay_example =
    prepare_or_retry_replay ctx ports (λ d. d) taken_db request taken_db accepts (codes "k")
      prepared_op refl is_taken (refl, tt) same_arguments

prepare_or_retry_conflict_example :
    prepare_or_retry ctx ports (λ d. d) taken_db other_request taken_db
    ≡ err idempotency_conflict none
prepare_or_retry_conflict_example =
    prepare_or_retry_conflict ctx ports (λ d. d) taken_db other_request taken_db accepts_other
      (codes "k") prepared_op refl is_taken other_arguments

after_refines_example : phase (codes "op") empty_db ↝* phase (codes "op") (after ctx calls empty_db)
after_refines_example = after_refines ctx calls empty_db (codes "op") tt

binding_preimage_roundtrip_example :
    read_parts 5
      (binding_preimage (codes "op|1:a") (codes "ana") (codes "") (codes "s") (codes "h"))
    ≡ some (codes "op|1:a" ∷ codes "ana" ∷ codes "" ∷ codes "s" ∷ codes "h" ∷ [])
binding_preimage_roundtrip_example =
    binding_preimage_roundtrip (codes "op|1:a") (codes "ana") (codes "") (codes "s") (codes "h")

json_pointer_roundtrip_example :
    read_pointer (json_pointer (codes "a/b" ∷ codes "~1" ∷ [])) ≡ codes "a/b" ∷ codes "~1" ∷ []
json_pointer_roundtrip_example = json_pointer_roundtrip (codes "a/b" ∷ codes "~1" ∷ [])

compute_eligible_approvers_lem_example :
    (text_in
        (codes "bea")
        (compute_eligible_approvers (codes "acme") (codes "close") (codes "prod") (codes "ana") db)
      ≡ any
          (approves_with (codes "acme") (codes "close") (codes "prod") (codes "ana") (codes "bea"))
          db.memberships)
    × (text_in (codes "ana") (
          compute_eligible_approvers (codes "acme") (codes "close") (codes "prod") (codes "ana") db)
        ≡ false)
compute_eligible_approvers_lem_example =
    compute_eligible_approvers_lem (codes "acme") (codes "close") (codes "prod") (codes "ana")
      (codes "bea") db

abbrev event : NotificationEvent
event = record {
  event_type = codes "approval.requested";
  subject_type = codes "operation";
  subject_id = codes "op";
  principal_id = some (codes "bea");
  occurred_at = 10;
  fetch_reference = codes "r";
}

abbrev delivered_db : Db
delivered_db = record db {
  deliveries =
      record {
        id = 0 ∷ [];
        idempotency_key = codes "op:bea:approval.requested";
        subject_type = codes "operation";
        subject_id = codes "op";
        principal_id = some (codes "bea");
        event_type = codes "approval.requested";
        attempts = 1;
        status = DeliveryStatus.delivered;
        last_attempted_at = some 10;
        delivered_at = some 10;
      }
      ∷ [];
}

abbrev receipt : DeliveryReceipt
receipt = record {
  idempotency_key = codes "op:bea:approval.requested";
  delivered = true;
  attempts = 1;
  status = DeliveryStatus.delivered;
  deduplicated = false;
}

delivers : deliver_with_dedup ctx (λ e. some true) event db ≡ ok receipt delivered_db
unfolding deliver_with_dedup get_by_idempotency_key try_delivery create_delivery record_attempt
    attempted update_delivery delivery_key gets ◌>>=◌ pure text_eq
delivers = refl

-- A failed delivery of another event, and one more of the same.
abbrev between : List (Context × NotificationSink × NotificationEvent)
between =
    (ctx, (λ e. none), record event { subject_id = codes "other" })
    ∷ ((ctx, (λ e. some true), event) ∷ [])

deliver_with_dedup_once_example :
    (n : ℕ) × (deliver_with_dedup ctx (λ e. none) event (after_deliveries between delivered_db)
      ≡ ok (known_receipt (delivery_key event) n) (after_deliveries between delivered_db))
deliver_with_dedup_once_example =
    deliver_with_dedup_once ctx (λ e. some true) event db delivered_db receipt tt refl delivers refl
      between ctx (λ e. none) event refl
