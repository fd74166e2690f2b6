-- ===== src/Service/Listing.antt =====
-- Lists within the caller's scope: `list_operations`, `list_audit_events` and `_resolve_scope` of
-- src/n8n_operator/core/service.py, with the queries of src/n8n_operator/storage/repository.py that they
-- run. SQL's LIKE, of a pattern and a text, is a parameter. The cursor of the audit log is the number
-- that it encodes.
use n8n_operator.Service.Access.{list_active_for_principal, resolve_environment, authorize}
use n8n_operator.Authorization.Evaluate.{Membership}
use n8n_operator.Audit.Chain.{Content}
use n8n_operator.StateMachine.{state_eq, State}
use n8n_operator.Authorization.Like.{workflow_scope_to_sql_like}
use n8n_operator.Service.Transition.{apply_lazy_expiry}
use n8n_operator.Service.Sweep.{limited}
use n8n_operator.Service.Store.Rows.{Db, Environment, Context, Operation}
use n8n_operator.Json.{text_lt}
use n8n_operator.Authorization.Roles.{capabilities_for_role}
pub mod Events
use n8n_operator.Service.Outcome.{invalid_arguments, pure, gets, raise_if, Session, ◌>>=◌, ◌>>◌}
use n8n_operator.Base.{
  not, codes, keep, ◌||◌, text_in, false, text_eq, true, ◌&&◌, any, leb, if◌then◌else◌, List,
  Option, Text, Bool, ℕ, none, some, [], ◌∷◌, suc, zero,
}

abbrev pub Like : Type 0
Like = Text → Text → Bool

-- `or_(*(column.like(pattern) for pattern in patterns))`; no pattern matches nothing.
unfoldable pub like_any : Like → List Text → Text → Bool
like_any like [] s = false
like_any like (p ∷ ps) s = like p s || like_any like ps s

abbrev is_everywhere : List Text → Bool
is_everywhere (e ∷ []) = text_eq e (codes "*")
is_everywhere _ = false

abbrev grants : Text → List Text → Bool
grants tool roles = any (λ r. text_in tool (capabilities_for_role r)) roles

-- The patterns of the memberships that grant the tool in every environment.
unfoldable pub scope_patterns : Text → List Membership → List Text
unfolding capabilities_for_role workflow_scope_to_sql_like
scope_patterns tool [] = []
scope_patterns tool (m ∷ ms) =
    let rest = scope_patterns tool ms in
    if grants tool m.roles && is_everywhere m.environment_scope
    then workflow_scope_to_sql_like m.workflow_scope ∷ rest
    else rest

-- `_resolve_scope`
unfoldable pub resolve_scope :
    Bool → Text → Option Text → Text → Session Db (Option Text × Option (List Text))
unfolding scope_patterns
resolve_scope false principal environment tool = pure (environment, none)
resolve_scope true principal environment tool = do
  resolved ← resolve_environment principal environment
  memberships ← gets (list_active_for_principal principal)
  pure (some resolved.id, some (scope_patterns tool memberships))

abbrev equals_or_any : Option Text → Text → Bool
equals_or_any none s = true
equals_or_any (some wanted) s = text_eq s wanted

abbrev within_patterns : Like → Option (List Text) → Text → Bool
within_patterns like none s = true
within_patterns like (some patterns) s = like_any like patterns s

-- `if states: ... in_(states)`
abbrev in_states : List State → State → Bool
in_states [] s = true
in_states (t ∷ ts) s = any (state_eq s) (t ∷ ts)

abbrev since_or_any : Option ℕ → ℕ → Bool
since_or_any none t = true
since_or_any (some since) t = leb since t

abbrev id_before : Option Text → Text → Bool
id_before none i = true
id_before (some cursor) i = text_lt i cursor

-- The filters of `OperationRepository.list`.
pub record Filters : Type 0 where
  pub principal_id : Option Text
  pub environment : Option Text
  pub workflow_id : Option Text
  pub patterns : Option (List Text)
  pub states : List State
  pub since : Option ℕ
  pub before_id : Option Text

unfoldable pub is_listed : Like → Filters → Operation → Bool
unfolding like_any text_lt
is_listed like f o =
    equals_or_any f.principal_id o.principal_id
    && (equals_or_any f.environment o.environment
        && (equals_or_any f.workflow_id o.workflow_id
            && (within_patterns like f.patterns o.workflow_id
                && (in_states f.states o.state
                    && (since_or_any f.since o.created_at && id_before f.before_id o.id)))))

insert_latest : Operation → List Operation → List Operation
insert_latest o [] = o ∷ []
insert_latest o (p ∷ ps) =
    let later = insert_latest o ps in
    if leb p.created_at o.created_at then o ∷ (p ∷ ps) else p ∷ later

-- `ORDER BY created_at DESC`
unfoldable pub latest_first : List Operation → List Operation
unfolding insert_latest
latest_first [] = []
latest_first (o ∷ os) = insert_latest o (latest_first os)

-- `OperationRepository.list`: the filters come before the limit.
unfoldable pub list_matching : Like → Filters → ℕ → Db → List Operation
unfolding is_listed latest_first limited
list_matching like f limit db = limited limit (latest_first (keep (is_listed like f) db.operations))

unfoldable pub expire_each : Context → List Operation → Session Db (List Operation)
unfolding apply_lazy_expiry
expire_each ctx [] = pure []
expire_each ctx (row ∷ rows) = do
  current ← apply_lazy_expiry ctx row
  rest ← expire_each ctx rows
  pure (current ∷ rest)

-- What a call of `list_operations` asks for; `states` are states that exist.
pub record Listing : Type 0 where
  pub principal_id : Text
  pub environment : Option Text
  pub workflow_id : Option Text
  pub states : List State
  pub since : Option ℕ
  pub limit : ℕ
  pub cursor : Option Text

abbrev filters_of : Listing → Option Text → Option Text → Option (List Text) → Filters
filters_of l principal environment patterns = record {
  principal_id = principal;
  environment = environment;
  workflow_id = l.workflow_id;
  patterns = patterns;
  states = l.states;
  since = l.since;
  before_id = l.cursor;
}

unfoldable pub list_and_expire : Context → Like → ℕ → Filters → Session Db (List Operation)
unfolding list_matching expire_each
list_and_expire ctx like limit f = do rows ← gets (list_matching like f limit); expire_each ctx rows

-- `list_operations` in v2: one workflow if the caller may list it, else those of the caller's scope.
unfoldable pub list_in_scope :
    Context → Like → Listing → Environment → Option Text → Session Db (List Operation)
unfolding list_and_expire scope_patterns
list_in_scope ctx like l resolved (some workflow_id) = do
  decision ← gets (
      authorize true l.principal_id (codes "list_operations") (some workflow_id) none none none
        none)
  if decision.is_allowed
      then list_and_expire ctx like l.limit (filters_of l none (some resolved.id) none)
      else pure []
list_in_scope ctx like l resolved none = do
  memberships ← gets (list_active_for_principal l.principal_id)
  list_and_expire ctx like l.limit (
      filters_of l none (some resolved.id)
        (some (scope_patterns (codes "list_operations") memberships)))

abbrev pub is_limit : ℕ → Bool
is_limit n = leb 1 n && leb n 100

unfoldable pub list_operations : Context → Like → Bool → Listing → Session Db (List Operation)
unfolding list_in_scope list_and_expire
list_operations ctx like false l = do
  raise_if (not (is_limit l.limit)) invalid_arguments
  list_and_expire ctx like l.limit (filters_of l (some l.principal_id) l.environment none)
list_operations ctx like true l = do
  raise_if (not (is_limit l.limit)) invalid_arguments
  resolved ← resolve_environment l.principal_id l.environment
  list_in_scope ctx like l resolved l.workflow_id

-- What a call of `list_audit_events` asks for.
pub record AuditQuery : Type 0 where
  pub principal_id : Text
  pub environment : Option Text
  pub workflow_id : Option Text
  pub since : Option ℕ
  pub limit : ℕ
  pub before_seq : Option ℕ

-- Whether some operation has the id and the test.
abbrev names_operation : (Operation → Bool) → Text → Db → Bool
names_operation p i db = any (λ o. text_eq o.id i && p o) db.operations

-- `environment_id if environment_id else false()`
abbrev is_environment : Option Text → Option Text → Bool
is_environment (some (c ∷ cs)) (some e) = text_eq e (c ∷ cs)
is_environment _ _ = false

-- The scope of `list_page`: what an entry is about, against the patterns and the environment.
unfoldable pub in_scope : Like → Option (List Text) → Option Text → Bool → Content → Db → Bool
unfolding like_any
in_scope like none environment_id with_registry c db = true
in_scope like (some patterns) environment_id with_registry c db =
    (text_eq c.subject_type (codes "workflow") && like_any like patterns c.subject_id)
    || ((text_eq c.subject_type (codes "operation")
          && names_operation
              (λ o.
                like_any like patterns o.workflow_id
                && is_environment environment_id o.environment_id)
              c.subject_id db)
        || ((text_eq c.subject_type (codes "environment")
              && is_environment environment_id (some c.subject_id))
            || (text_eq c.subject_type (codes "registry_snapshot") && with_registry)))

unfoldable pub about_workflow : Option Text → Content → Db → Bool
about_workflow none c db = true
about_workflow (some w) c db =
    (text_eq c.subject_type (codes "workflow") && text_eq c.subject_id w)
    || (text_eq c.subject_type (codes "operation")
        && names_operation (λ o. text_eq o.workflow_id w) c.subject_id db)
