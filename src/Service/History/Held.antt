-- ===== src/Service/History/Held.antt =====
-- A held row is one that was read from `operations`; moving it from the version that was read is
-- safe: `compare_and_set_state`, `apply_transition` of src/n8n_operator/storage/repository.py and one
-- attempt of `_apply_and_audit`.
use n8n_operator.Base.{
  ◌++◌, ◌∷◌, subst, ℕ, ◌≡◌, refl, sym, ◌==◌, Option, none, some, [], first, count, Text, arith,
  Bool-cases, Option-cases, inl, inr,
}
use n8n_operator.Json.{Json}
use n8n_operator.StateMachine.{State, TransitionId, validate_transition}
use n8n_operator.StateMachine.Legal.{◌⟶◌, validate_transition-⟶}
use n8n_operator.Service.Outcome.{Result, ok, err, invalid_state_transition}
use n8n_operator.Service.Store.Rows.{Operation, Db, Context}
use n8n_operator.Service.Store.Operations.{
  get_operation, compare_and_set_state, apply_transition, FieldUpdates, update_where, moved,
  at_version,
}
use n8n_operator.Service.Transition.{attempt, get_again}
use n8n_operator.Service.History.Rows.{
  RowEvolves, RowEvolves-refl, RowEvolves-trans, IsKeyed, has_id, first-Follows, first-has_id,
}
use n8n_operator.Service.History.Updates.{
  update_where-Follows, update_where-IsKeyed, moved-Selected,
}
use n8n_operator.Service.History.Safe.{Evolves, Ends, SafeAt, SafeAt-or_raise}

-- The row is an earlier version, or the present one, of the table's row of that id.
abbrev pub Held : Operation → Db → Type 0
Held row d =
    (now : Operation) × (first (has_id row.id) d.operations ≡ some now) × RowEvolves row now

module _ (ctx : Context) where
  pub Held-Evolves : (row : Operation) (d d' : Db) → Evolves ctx d d' → Held row d → Held row d'
  Held-Evolves row d d' e (now, found, ev) =
      let (later, found', ev') = first-Follows row.id d.operations d'.operations e.rows found in
      (later, found', RowEvolves-trans ev ev')

  pub Held-get : (i : Text) (d : Db) (row : Operation) → get_operation i d ≡ some row → Held row d
  unfolding get_operation
  Held-get i d row h =
      let same : row.id ≡ i = first-has_id i d.operations h in
      (row, subst (λ j. first (has_id j) d.operations ≡ some row) (sym same) h, RowEvolves-refl row)

  pub Held-get_again :
      (d : Db) (row current : Operation)
      → Held row d
      → get_again ctx row d ≡ some current
      → Held current d
  unfolding get_again
  Held-get_again d row current held h = elim (Bool-cases (ctx.holds ctx.now row)) [
    | inl holds ↦ let same : row ≡ current = ground arith in subst (λ r. Held r d) same held
    | inr gone ↦ Held-get row.id d current (rw gone at h)
  ]

  compare_and_set_state-Ends :
      (d : Db) (i : Text) (v : ℕ) (s : State) (u : FieldUpdates)
      → IsKeyed d.operations
      → ((o : Operation)
          → first (has_id i) d.operations ≡ some o
          → o.state_version ≡ v
          → o.state ⟶ s)
      → Ends ctx d Held (compare_and_set_state ctx i v s u d)
  unfolding compare_and_set_state
  compare_and_set_state-Ends d i v s u k legal =
      let chosen = moved-Selected ctx i v s u d.operations k legal in
      let d' : Db = record d {
        operations = update_where (at_version i v) (moved ctx v s u) d.operations;
      } in
      let e : Evolves ctx d d' = record {
        keyed = update_where-IsKeyed (at_version i v) (moved ctx v s u) d.operations chosen k;
        rows = update_where-Follows (at_version i v) (moved ctx v s u) d.operations chosen;
        log = refl;
      } in
      elim (Bool-cases (count (at_version i v) d.operations == 1)) [
        | inr other ↦ rw other tt
        | inl one ↦ elim (Option-cases (get_operation i d')) [
          | inl gone ↦ rw (one, gone) tt
          | inr (o, found) ↦ rw (one, found) (e, Held-get i d' o found)
        ]
      ]

  apply_transition-SafeAt :
      (d : Db) (i : Text) (v : ℕ) (s : State) (t : TransitionId) (from : Option State)
      (actor : Text) (detail : Json) (u : FieldUpdates)
      → IsKeyed d.operations
      → ((o : Operation)
          → first (has_id i) d.operations ≡ some o
          → o.state_version ≡ v
          → o.state ⟶ s)
      → SafeAt ctx d Held (apply_transition ctx i v s t from actor detail u)
  unfolding apply_transition SafeAt
  apply_transition-SafeAt d i v s t from actor detail u k legal =
      go (compare_and_set_state ctx i v s u d) (compare_and_set_state-Ends d i v s u k legal)
    where
      go :
          (r : Result Db Operation)
          → Ends ctx d Held r
          → Ends ctx d Held (elim r as (λ _. Result Db Operation) [
            | err e kept ↦ err e kept
            | ok o db' ↦ ok o (record db' {
              events =
                  db'.events
                  ++ record {
                    operation_id = i;
                    from_state = from;
                    to_state = s;
                    transition = t;
                    actor = actor;
                    detail = detail;
                    occurred_at = ctx.now;
                  }
                    ∷ [];
            })
          ])
      go (ok o d') (e, held) = (record { keyed = e.keyed; rows = e.rows; log = e.log }, held)
      go (err x none) p = tt
      go (err x (some c)) p = p

  pub attempt-SafeAt :
      (d : Db) (row : Operation) (t : TransitionId) (actor : Text) (detail : Json)
      (u : FieldUpdates)
      → IsKeyed d.operations
      → Held row d
      → SafeAt ctx d Held (attempt ctx row t actor detail u)
  unfolding attempt
  attempt-SafeAt d row t actor detail u k (now, found, ev) =
      SafeAt-or_raise ctx d Held (validate_transition t (some row.state)) invalid_state_transition _
        λ transition passes.
          apply_transition-SafeAt d row.id row.state_version transition.to_state t (some row.state)
            actor detail u k
            λ o it version.
              let same : o ≡ now = ground arith in
              let unmoved : row.state ≡ o.state =
                rw same (ev.same_version (rw (← same) (sym version))) in
              subst (λ s. s ⟶ transition.to_state) unmoved
                (validate_transition-⟶ t row.state passes)
