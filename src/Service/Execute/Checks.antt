-- ===== src/Service/Execute/Checks.antt =====
-- What the steps of `execute_operation` of src/n8n_operator/core/service.py have checked when they
-- succeed, and what burning a handle leaves.
use n8n_operator.Json.Nfc.{canonicalize_arguments}
use n8n_operator.Service.Store.Operations.{burn_handle, is_unburned, update_where}
use n8n_operator.Service.Registry.{find_entry, last_snapshot, require_active_snapshot}
use n8n_operator.StateMachine.{
  t10, Transition, validate_transition, state_eq, executing, State, approved,
}
use n8n_operator.Service.Execute.{
  canonicalize_arguments, Session, t10, ◌>>=◌, burn_handle, pure, executing, find_entry,
  fingerprint_arguments, WorkflowEntry, State, raise, approved, require_active_snapshot,
  check_executable, require_approved,
}
use n8n_operator.Service.Outcome.Steps.{
  ok-or_raise_last, ok-gets, ok->>=, ok-or_raise, ok-raise_if, ok-pure,
}
use n8n_operator.Service.Outcome.{Session, ◌>>=◌, pure, raise, assertion, ok}
use n8n_operator.Authorization.Evaluate.{evaluate}
use n8n_operator.Service.Access.{
  get_environment, check_not_owner, organization_of, authorize, list_active_for_principal,
}
use n8n_operator.Service.History.Rows.{has_id}
use n8n_operator.Service.Store.Rows.{
  Environment, RegistrySnapshot, WorkflowEntry, Operation, Db, Context,
}
use n8n_operator.StateMachine.{pending_approval, expired, canceled}
use n8n_operator.Base.{
  ◌⊎◌, ◌≢◌, ◌==◌, Bool-cases, arith, ◌&&◌, first, if◌then◌else◌, text_eq_iff, subst, count, List,
  [], ◌∷◌, text_eq_iff, subst, ◌≡◌, refl, Option, Text, inl, inr, none, some, Bool, true, false,
  sym, ap, ◌∙◌, not, text_eq, is_some,
}

-- The organization that an environment belongs to, if there is one.
abbrev pub IsOrganizationOf : Db → Option Text → Option Text → Type 0
IsOrganizationOf d none o = o ≡ none
IsOrganizationOf d (some e) o =
    (env : Environment) × (get_environment e d ≡ some env) × (o ≡ some env.organization_id)

-- The principal is the one who requested the operation, or, in v2, an active membership grants them
-- the tool for its workflow, environment and organization.
abbrev pub MayActOn : Db → Bool → Text → Text → Operation → Type 0
MayActOn d v2 p tool row =
    (row.principal_id ≡ p)
    ⊎ ((v2 ≡ true)
        × ((o : Option Text) × IsOrganizationOf d row.environment_id o
            × ((evaluate (list_active_for_principal p d) tool (some row.workflow_id)
                  row.environment_id o none none).is_allowed
                ≡ true)))

organization_of-ok :
    (d : Db) (e : Option Text) (o : Option Text) (c : Db)
    → organization_of e d ≡ ok o c
    → IsOrganizationOf d e o × (d ≡ c)
unfolding organization_of
organization_of-ok d none o c h = let (same, at) = ok-pure none d h in (sym same, at)
organization_of-ok d (some e) o c h =
    let (env, found, h') =
      ok-or_raise (get_environment e d) assertion _ d (ok-gets (get_environment e) _ d h) in
    let (same, at) = ok-pure (some env.organization_id) d h' in ((env, found, sym same), at)

pub not-false : {b : Bool} → not b ≡ false → b ≡ true
not-false {b} h = go b h
  where
    go : (b : Bool) → not b ≡ false → b ≡ true
    go true h = refl
    go false h = cc

authorize_in_v2 :
    (v2 : Bool) (p tool : Text) (w e o : Option Text) (d : Db)
    → v2 ≡ true
    → authorize v2 p tool w e o none none d
      ≡ evaluate (list_active_for_principal p d) tool w e o none none
unfolding authorize
authorize_in_v2 v2 p tool w e o d new = rw (authorize, new) refl

check_not_owner-ok :
    (d : Db) (v2 : Bool) (p tool : Text) (row o : Operation) (c : Db)
    → check_not_owner v2 p tool row d ≡ ok o c
    → MayActOn d v2 p tool row × (row ≡ o) × (d ≡ c)
unfolding check_not_owner
check_not_owner-ok d v2 p tool row o c h =
    let (old, h1) = ok-raise_if _ _ _ d h in
    let new = not-false old in
    let (org, d1, ran, h2) = ok->>= _ _ d h1 in
    let (organization, unchanged) = organization_of-ok d row.environment_id org d1 ran in
    let (granted, h3) = ok-raise_if _ _ _ d1 (ok-gets _ _ d1 h2) in
    let (same, at) = ok-pure row d1 h3 in
    let decision = authorize_in_v2 v2 p tool (some row.workflow_id) row.environment_id org d1 new in
    let is_granted = ap (λ x. x.is_allowed) (sym decision) ∙ not-false granted in
    (
      inr (
        new,
        (
          org,
          organization,
          subst
              (λ x.
                (evaluate (list_active_for_principal p x) tool (some row.workflow_id)
                  row.environment_id org none none).is_allowed
                ≡ true)
              (sym unchanged) is_granted,
        ),
      ),
      same,
      unchanged ∙ at,
    )

pub same_or_not_owner :
    (d : Db) (b v2 : Bool) (p tool : Text) (row o : Operation) (c : Db)
    → (b ≡ true → row.principal_id ≡ p)
    → (if b then pure row else check_not_owner v2 p tool row) d ≡ ok o c
    → MayActOn d v2 p tool row × (row ≡ o) × (d ≡ c)
same_or_not_owner d true v2 p tool row o c own h =
    let (same, at) = ok-pure row d h in (inl (own refl), same, at)
same_or_not_owner d false v2 p tool row o c own h = check_not_owner-ok d v2 p tool row o c h

require_approved-ok :
    (d : Db) (s : State) (c : Db) → require_approved s d ≡ ok tt c → (s ≡ approved) × (d ≡ c)
unfolding require_approved raise
require_approved-ok d approved c h = (refl, (ok-pure tt d h).1)
require_approved-ok d pending_approval c h = cc
require_approved-ok d expired c h = cc
require_approved-ok d canceled c h = cc
require_approved-ok d _ c h = cc

pub check_executable-ok :
    (ctx : Context) (d : Db) (row : Operation) (entry : WorkflowEntry) (c : Db)
    → check_executable ctx row d ≡ ok entry c
    → (d ≡ c)
      × (is_some row.handle_burned_at ≡ false)
      × (row.state ≡ approved)
      × (fingerprint_arguments ctx.digest (canonicalize_arguments ctx.digest.nfc row.arguments)
          ≡ row.argument_fingerprint)
      × ((s : RegistrySnapshot) × (last_snapshot d.snapshots ≡ some s)
          × (find_entry s.workflows row.workflow_id ≡ some entry))
      × (entry.definition_hash ≡ row.definition_hash)
unfolding check_executable require_active_snapshot
check_executable-ok ctx d row entry c h =
    let (unburned, h1) = ok-raise_if _ _ _ d h in
    let (_, d1, ran, h2) = ok->>= _ _ d h1 in
    let (is_approved, at) = require_approved-ok d row.state d1 ran in
    let (unaltered, h3) = ok-raise_if _ _ _ d1 h2 in
    let (s, d2, ran', h4) = ok->>= _ _ d1 h3 in
    let (active, at') = ok-or_raise_last _ _ d1 (ok-gets _ _ d1 ran') in
    let (e, registered, h5) = ok-or_raise _ _ _ d2 h4 in
    let (undrifted, h6) = ok-raise_if _ _ _ d2 h5 in
    let (same, at'') = ok-pure e d2 h6 in
    (
      at ∙ at' ∙ at'',
      unburned,
      is_approved,
      (text_eq_iff
            (fingerprint_arguments ctx.digest (canonicalize_arguments ctx.digest.nfc row.arguments))
            row.argument_fingerprint).0
          (not-false unaltered),
      (
        s,
        subst (λ x. last_snapshot x.snapshots ≡ some s) (sym at) active,
        registered ∙ ap some same,
      ),
      subst (λ x. x.definition_hash ≡ row.definition_hash) same
          ((text_eq_iff e.definition_hash row.definition_hash).0 (not-false undrifted)),
    )

pub expired_is_not_approved : expired ≢ approved
expired_is_not_approved e = cc

-- The row with its handle burned, which the execution then moves.
abbrev pub burned_row : Context → Operation → Operation
burned_row ctx row = record row { handle_burned_at = some ctx.now }

pub count_burned :
    (ctx : Context) (i w : Text) (s : State) (xs : List Operation)
    → count
        (λ o. text_eq o.workflow_id w && state_eq o.state s)
        (update_where (is_unburned i) (burned_row ctx) xs)
      ≡ count (λ o. text_eq o.workflow_id w && state_eq o.state s) xs
unfolding update_where
count_burned ctx i w s [] = refl
count_burned ctx i w s (x ∷ xs) = ground (arith, count_burned ctx i w s xs)

pub first_burned :
    (ctx : Context) (i : Text) (xs : List Operation) {o : Operation}
    → first (has_id i) xs ≡ some o
    → is_some o.handle_burned_at ≡ false
    → first (has_id i) (update_where (is_unburned i) (burned_row ctx) xs) ≡ some (burned_row ctx o)
unfolding update_where
first_burned ctx i [] h u = cc
first_burned ctx i (x ∷ xs) {o} h u = elim (Bool-cases (text_eq x.id i)) [
  | inl here_it_is ↦
      let found : x ≡ o = ground arith in
      let fresh : is_some x.handle_burned_at ≡ false = rw found u in
      rw (here_it_is, fresh, here_it_is, found) refl
  | inr other ↦ rw (other, other) (first_burned ctx i xs {o = o} (rw other at h) u)
]

-- The database with the handle burned.
abbrev pub burned_db : Context → Text → Db → Db
burned_db ctx i d = record d {
  operations = update_where (is_unburned i) (burned_row ctx) d.operations;
}

pub after_burning :
    {A : Type 0} (ctx : Context) (i : Text) (d : Db) (f : Bool → Session Db A) {a : A} {c : Db}
    → (burn_handle ctx i >>= f) d ≡ ok a c
    → (b : Bool) × (f b (burned_db ctx i d) ≡ ok a c)
unfolding burn_handle ◌>>=◌
after_burning ctx i d f h = (count (is_unburned i) d.operations == 1, h)

-- The transition T10, from the row as it was read to the row with its handle burned.
abbrev pub started : Transition
started = record { id = t10; from_state = some approved; to_state = executing }

pub starts : (s : State) → s ≡ approved → validate_transition t10 (some s) ≡ some started
unfolding validate_transition
starts s h = rw h refl
