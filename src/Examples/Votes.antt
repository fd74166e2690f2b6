-- ===== src/Examples/Votes.antt =====
-- A vote short of the quorum.
use n8n_operator.StateMachine.{pending_approval}
use n8n_operator.Examples.Operations.{ctx, approved_op, db}
use n8n_operator.Service.Store.Rows.{Db, PolicySnapshot, Operation}
use n8n_operator.Service.Approve.{approve_quorum}
use n8n_operator.Service.Outcome.{Session, session_scope}
use n8n_operator.Base.{none, some, codes, [], ◌∷◌}

abbrev policy : PolicySnapshot
policy = record { quorum_count = 2; eligible_approvers = codes "bea" ∷ codes "cyd" ∷ [] }

abbrev waiting_op : Operation
waiting_op = record approved_op { state = pending_approval; approval_policy_snapshot = some policy }

abbrev waiting_db : Db
waiting_db = record db { operations = waiting_op ∷ [] }

abbrev vote : Session Db Operation
vote = approve_quorum ctx policy waiting_op (codes "op") (codes "bea") none

abbrev voted_db : Db
voted_db = session_scope vote waiting_db
