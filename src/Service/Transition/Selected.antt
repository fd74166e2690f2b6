-- ===== src/Service/Transition/Selected.antt =====
-- Which row the compare-and-set of src/n8n_operator/storage/repository.py selects, what it leaves,
-- and how a lost one is handled in `_apply_and_audit`.
use n8n_operator.Service.Outcome.{
  Session, Result, invalid_state_transition, optimistic_lock, err, ok,
}
use n8n_operator.Service.Transition.{
  on_optimistic_lock, transition_outcome, operation_subject, transition_action,
}
use n8n_operator.Audit.Writer.{write}
use n8n_operator.Json.{Json}
use n8n_operator.StateMachine.{State, TransitionId}
use n8n_operator.Service.History.Rows.{has_id, IsKeyed}
use n8n_operator.Service.Store.Operations.{FieldUpdates, moved, at_version, update_where}
use n8n_operator.Service.Store.Rows.{Db, Context, Operation}
use n8n_operator.Base.{
  ap, none, ◌++◌, subst, ==_iff, text_eq_iff, some, ◌≡◌, refl, ℕ, Text, List, [], ◌∷◌, inl, inr,
  any, first, text_eq, count, ◌==◌, arith, if◌then◌else◌, true, false, Bool-cases,
}

count_absent :
    (i : Text) (v : ℕ) (xs : List Operation)
    → any (has_id i) xs ≡ false
    → count (at_version i v) xs ≡ 0
count_absent i v [] h = refl
count_absent i v (x ∷ xs) h = ground (arith, count_absent i v xs)

-- The compare-and-set selects the row of an id exactly when it has the version that was read.
pub count-at_version :
    (i : Text) (v : ℕ) (xs : List Operation) {now : Operation}
    → IsKeyed xs
    → first (has_id i) xs ≡ some now
    → count (at_version i v) xs ≡ (if now.state_version == v then 1 else 0)
count-at_version i v [] k h = cc
count-at_version i v (x ∷ xs) {now} (apart, k) h = elim (Bool-cases (text_eq x.id i)) [
  | inl here_it_is ↦
      let found : x ≡ now = ground arith in
      let same : x.id ≡ i = (text_eq_iff x.id i).0 here_it_is in
      let none_left = count_absent i v xs (subst (λ j. any (has_id j) xs ≡ false) same apart) in
      rw (here_it_is, none_left, ← found) refl
  | inr other ↦ rw (other) (count-at_version i v xs {now = now} k (rw other at h))
]

pub first-moved :
    (ctx : Context) (i : Text) (v : ℕ) (s : State) (u : FieldUpdates) (xs : List Operation)
    {now : Operation}
    → first (has_id i) xs ≡ some now
    → now.state_version ≡ v
    → first (has_id i) (update_where (at_version i v) (moved ctx v s u) xs)
      ≡ some (moved ctx v s u now)
unfolding update_where moved
first-moved ctx i v s u [] h e = cc
first-moved ctx i v s u (x ∷ xs) {now} h e = elim (Bool-cases (text_eq x.id i)) [
  | inl here_it_is ↦
      let found : x ≡ now = ground arith in
      let version : (x.state_version == v) ≡ true = (==_iff x.state_version v).1 (rw found e) in
      rw (here_it_is, version, here_it_is, found) refl
  | inr other ↦ rw (other, other) (first-moved ctx i v s u xs {now = now} (rw other at h) e)
]

-- The database after the row of an id has been moved from the version `v` and audited.
abbrev pub moved_db :
    Context → Operation → TransitionId → State → Text → Json → FieldUpdates → Db → Db
moved_db ctx now id s actor detail u d = record d {
  operations =
      update_where (at_version now.id now.state_version) (moved ctx now.state_version s u)
        d.operations;
  events =
      d.events
      ++ record {
        operation_id = now.id;
        from_state = some now.state;
        to_state = s;
        transition = id;
        actor = actor;
        detail = detail;
        occurred_at = ctx.now;
      }
        ∷ [];
}

abbrev pub audited_db : Context → Operation → TransitionId → Text → Json → Db → Db
audited_db ctx now id actor detail d = record d {
  audit_log =
      write ctx.digest
        (record {
          occurred_at = ctx.now;
          actor = actor;
          action = transition_action id;
          subject_type = operation_subject;
          subject_id = now.id;
          outcome = transition_outcome id;
          detail = detail;
        })
        d.audit_log;
}

module _ {A : Type 0} where
  pub on_optimistic_lock-ok :
      (m handler : Session Db A) (d : Db) {a : A} {c : Db}
      → m d ≡ ok a c
      → on_optimistic_lock m handler d ≡ ok a c
  unfolding on_optimistic_lock
  on_optimistic_lock-ok m handler d e =
      ap
        (λ r. elim r as (λ _. Result Db A) [
          | ok a c ↦ ok a c
          | err optimistic_lock kept ↦ handler d
          | err x kept ↦ err x kept
        ])
        e

  pub on_optimistic_lock-invalid :
      (m handler : Session Db A) (d : Db)
      → m d ≡ err invalid_state_transition none
      → on_optimistic_lock m handler d ≡ err invalid_state_transition none
  unfolding on_optimistic_lock
  on_optimistic_lock-invalid m handler d e =
      ap
        (λ r. elim r as (λ _. Result Db A) [
          | ok a c ↦ ok a c
          | err optimistic_lock kept ↦ handler d
          | err x kept ↦ err x kept
        ])
        e

  pub on_optimistic_lock-lost :
      (m handler : Session Db A) (d : Db)
      → m d ≡ err optimistic_lock none
      → on_optimistic_lock m handler d ≡ handler d
  unfolding on_optimistic_lock
  on_optimistic_lock-lost m handler d e =
      ap
        (λ r. elim r as (λ _. Result Db A) [
          | ok a c ↦ ok a c
          | err optimistic_lock kept ↦ handler d
          | err x kept ↦ err x kept
        ])
        e
