-- ===== src/Service/Calls.antt =====
-- What any sequence of calls leaves behind, each in a session of its own.
use n8n_operator.Service.Sessions.{Call, session, session-SafeAt}
use n8n_operator.Service.Execute.Contract.{execute_operation_lem}
use n8n_operator.Service.History.UseCases.{execute_operation-SafeAt}
use n8n_operator.Service.History.Held.{Held}
use n8n_operator.Service.Execute.{execute_operation}
use n8n_operator.Audit.Chain.{verify_chain}
use n8n_operator.StateMachine.{approved, preparing, is_terminal}
use n8n_operator.StateMachine.Legal.{passed_approval, is_executed, is_terminal_stays, ◌⟶*◌}
use n8n_operator.Service.History.Safe.{
  Ends-of-SafeAt, Ends, Evolves-trans, session_scope-Evolves, Evolves-refl, Evolves,
}
use n8n_operator.Service.History.Rows.{Follows, has_id, Born, first-Follows, IsKeyed}
use n8n_operator.Service.Outcome.{ok, session_scope}
use n8n_operator.Service.Store.Operations.{moved, get_operation}
use n8n_operator.Service.Store.Rows.{approved, Operation, Db, Context}
use n8n_operator.Service.Ports.{PreflightPort}
use n8n_operator.Base.{
  inr, inl, Bool-cases, first, All, refl, arith, ◌∙◌, subst, false, sym, is_some, ℕ, ◌≡◌, Bool,
  true, Option, none, some, List, [], ◌∷◌, Text,
}

-- The database after calls at the given times, whatever each of them ends with.
unfoldable pub after : Context → List (ℕ × Call) → Db → Db
after ctx [] d = d
after ctx ((t, c) ∷ calls) d =
    after ctx calls (session_scope (session (record ctx { now = t }) c) d)

pub after-Evolves :
    (ctx : Context) (calls : List (ℕ × Call)) (d : Db)
    → IsKeyed d.operations
    → Evolves ctx d (after ctx calls d)
unfolding after
after-Evolves ctx [] d k = Evolves-refl ctx d k
after-Evolves ctx ((t, c) ∷ calls) d k =
    let at_t : Context = record ctx { now = t } in
    let d' : Db = session_scope (session at_t c) d in
    let e = session_scope-Evolves at_t d (session at_t c) k (session-SafeAt at_t d k c) in
    let e' : Evolves ctx d d' = record { keyed = e.keyed; rows = e.rows; log = e.log } in
    Evolves-trans ctx d d' (after ctx calls d') e' (after-Evolves ctx calls d' e.keyed)

-- Whatever reads, preparations, retries, executions, reports of outcomes, decisions, cancellations,
-- sweeps, routings of approvals, reconciliations, reloads of the registry or of overlays and
-- redeliveries are called for, and however each ends, every operation is still found by its id, with
-- the same identity columns (arguments, fingerprint, definition hash, owner); its state was reached by
-- documented transitions only; and a handle that was burned is burned as it was. The ids of the
-- operations are assumed to be distinct.
pub after_lem :
    (ctx : Context) (calls : List (ℕ × Call)) (d : Db) (i : Text) (o : Operation)
    → IsKeyed d.operations
    → get_operation i d ≡ some o
    → (o' : Operation) × (get_operation i (after ctx calls d) ≡ some o')
      × (o'.identity ≡ o.identity)
      × (o.state ⟶* o'.state)
      × (is_some o.handle_burned_at ≡ true → o'.handle_burned_at ≡ o.handle_burned_at)
unfolding get_operation
after_lem ctx calls d i o k found =
    let e = after-Evolves ctx calls d k in
    let (o', found', ev) =
      first-Follows i d.operations (after ctx calls d).operations e.rows found in
    (o', found', sym ev.same_identity, ev.life, ev.burned)

-- An operation in a terminal state is in that state after any such calls. The ids of the operations are
-- assumed to be distinct.
pub after_terminal :
    (ctx : Context) (calls : List (ℕ × Call)) (d : Db) (i : Text) (o : Operation)
    → IsKeyed d.operations
    → get_operation i d ≡ some o
    → is_terminal o.state ≡ true
    → (o' : Operation) × (get_operation i (after ctx calls d) ≡ some o') × (o'.state ≡ o.state)
after_terminal ctx calls d i o k found ends =
    let (o', found', _, life, _) = after_lem ctx calls d i o k found in
    (o', found', is_terminal_stays ends life)

-- No sequence of such calls changes the verdict on the audit chain: an intact chain stays intact with
-- every entry that was added, and a broken one stays broken where it was. The ids of the operations
-- are assumed to be distinct.
pub after-verify_chain :
    (ctx : Context) (calls : List (ℕ × Call)) (d : Db)
    → IsKeyed d.operations
    → verify_chain ctx.digest (after ctx calls d).audit_log ≡ verify_chain ctx.digest d.audit_log
after-verify_chain ctx calls d k = (after-Evolves ctx calls d k).log

pub first-Born :
    (i : Text) (xs : List Operation) (o : Operation)
    → All Born xs
    → first (has_id i) xs ≡ some o
    → Born o
first-Born i [] o born found = cc
first-Born i (x ∷ xs) o (b, born) found = elim (Bool-cases (has_id i x)) [
  | inl here_it_is ↦ let same : x ≡ o = ground arith in rw (← same) b
  | inr other ↦ first-Born i xs o born (ground arith)
]

-- After any such calls on a database without operations, every operation that is found has reached
-- its state from `preparing` by documented transitions; and one that is executing, or has an outcome,
-- went through `approved` first.
pub after_created :
    (ctx : Context) (calls : List (ℕ × Call)) (d : Db) (i : Text) (o : Operation)
    → d.operations ≡ []
    → get_operation i (after ctx calls d) ≡ some o
    → (preparing ⟶* o.state)
      × (is_executed o.state ≡ true → (preparing ⟶* approved) × (approved ⟶* o.state))
unfolding get_operation
after_created ctx calls d i o fresh found =
    let e = after-Evolves ctx calls d (subst IsKeyed (sym fresh) tt) in
    let all_born : All Born (after ctx calls d).operations =
      subst (λ xs. Follows xs (after ctx calls d).operations) fresh e.rows in
    let born : Born o = first-Born i (after ctx calls d).operations o all_born found in
    (born, passed_approval born)

executed-Evolves :
    (ctx : Context) (d c : Db) (preflight : PreflightPort) (v2 : Bool) (e i h p : Text)
    (o : Operation)
    → IsKeyed d.operations
    → execute_operation ctx preflight v2 e i h p d ≡ ok o c
    → Evolves ctx d c
executed-Evolves ctx d c preflight v2 e i h p o k ran =
    (subst (λ r. Ends ctx d Held r) ran
      (Ends-of-SafeAt ctx d Held _ (execute_operation-SafeAt ctx d preflight v2 e i h p k))).0

-- An operation that was executed is never executed again: after one successful call, any of these
-- calls at any times leave a database on which a
-- further call for the same operation, with any handle, principal and environment, does not
-- succeed. The ids of the operations are assumed to be distinct.
pub execute_operation_once :
    (ctx : Context) (d c : Db) (preflight : PreflightPort) (v2 : Bool) (e i h p : Text)
    (o : Operation)
    → IsKeyed d.operations
    → execute_operation ctx preflight v2 e i h p d ≡ ok o c
    → (calls : List (ℕ × Call)) (again : Context) (live : PreflightPort) (v2' : Bool)
      (e' h' p' : Text) (o' : Operation) (c' : Db)
    → ¬ (execute_operation again live v2' e' i h' p' (after ctx calls c) ≡ ok o' c')
unfolding moved
execute_operation_once ctx d c preflight v2 e i h p o k ran calls again live v2' e' h' p' o' c'
      ran' =
    let evolves = executed-Evolves ctx d c preflight v2 e i h p o k ran in
    let (_, (row, _, _, _, _, is_moved, found)) =
      execute_operation_lem ctx d k preflight v2 e i h p o c ran in
    let (later, present, _, _, stays) = after_lem ctx calls c i o evolves.keyed found in
    let k' = (after-Evolves ctx calls c evolves.keyed).keyed in
    let (_, (row', present', _, _, may, _, _)) =
      execute_operation_lem again (after ctx calls c) k' live v2' e' i h' p' o' c' ran' in
    let was_burned : o.handle_burned_at ≡ some ctx.now = rw is_moved refl in
    let still : later.handle_burned_at ≡ some ctx.now = stays (rw was_burned refl) ∙ was_burned in
    let same : later ≡ row' = ground (arith, present, present') in
    burned_is_burned row'.handle_burned_at (rw (← same) still) may.is_unburned
  where
    burned_is_burned : (b : Option ℕ) → b ≡ some ctx.now → ¬ (is_some b ≡ false)
    burned_is_burned none e u = cc
    burned_is_burned (some x) e u = cc
