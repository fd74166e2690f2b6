-- ===== src/Service/Approve/Quorum.antt =====
-- What `approve_operation` of src/n8n_operator/core/service.py does with a frozen approval policy.
use n8n_operator.Service.Approve.{pure, Session, Operation, PolicySnapshot, DecisionKind}
use n8n_operator.Service.Outcome.{pure, Session}
use n8n_operator.Service.Store.Rows.{Operation, PolicySnapshot, DecisionKind, Context, Db, Approval}
use n8n_operator.Base.{◌≡◌, some, Text, text_eq, first}

-- The operations, the events and the audit log are the same.
abbrev pub SameHistory : Db → Db → Type 0
SameHistory d c =
    (c.operations ≡ d.operations) × (c.events ≡ d.events) × (c.audit_log ≡ d.audit_log)

-- An approval row of the operation that was the voter's own has, under its id, an approved decision of
-- the voter's, taken now.
abbrev pub HasApproved : Context → Operation → Text → Db → Type 0
HasApproved ctx row p d =
    (own : Approval) × (own.operation_id ≡ row.id)
    × ((vote : Approval) × (first (λ a. text_eq a.id own.id) d.approvals ≡ some vote)
        × (vote.decision ≡ some DecisionKind.approved)
        × (vote.decided_by ≡ some p)
        × (vote.decided_at ≡ some ctx.now))
