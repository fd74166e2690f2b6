-- ===== src/Service/History/Safe.antt =====
-- What every use case may do to the database: rows evolve and stay keyed, and the audit log gets
-- no new break. `SafeAt d Q m`: from `d` the session `m` does no more than that, however it ends,
-- and a value that it returns satisfies `Q` with the database that it leaves.
use n8n_operator.Base.{◌≡◌, refl, ◌∙◌, Bool, true, false, Option, none, some, if◌then◌else◌}
use n8n_operator.Audit.Chain.{verify_chain}
use n8n_operator.Service.Outcome.{
  pure, raise, raise_if, commit_and_raise, gets, or_raise, Session, Result, ok, err, ◌>>=◌,
  OperatorError, session_scope,
}
use n8n_operator.Service.Store.Rows.{Db, Context}
use n8n_operator.Service.History.Rows.{Follows, Follows-refl, Follows-trans, IsKeyed}

pub record Evolves (ctx : Context) (d d' : Db) : Type 0 where
  pub keyed : IsKeyed d'.operations
  pub rows : Follows d.operations d'.operations
  pub log : verify_chain ctx.digest d'.audit_log ≡ verify_chain ctx.digest d.audit_log

-- No claim about the result.
abbrev pub Anything : {A : Type 0} → A → Db → Type 0
Anything a d = Unit

module _ (ctx : Context) where
  pub Evolves-refl : (d : Db) → IsKeyed d.operations → Evolves ctx d d
  Evolves-refl d k = record { keyed = k; rows = Follows-refl d.operations; log = refl }

  pub Evolves-trans : (a b c : Db) → Evolves ctx a b → Evolves ctx b c → Evolves ctx a c
  Evolves-trans a b c p q = record {
    keyed = q.keyed;
    rows = Follows-trans a.operations b.operations c.operations p.rows q.rows;
    log = q.log ∙ p.log;
  }

  abbrev pub Ends : {A : Type 0} → Db → (A → Db → Type 0) → Result Db A → Type 0
  Ends d Q (ok a d') = Evolves ctx d d' × Q a d'
  Ends d Q (err e none) = Unit
  Ends d Q (err e (some d')) = Evolves ctx d d'

  unfoldable pub SafeAt : {A : Type 0} → Db → (A → Db → Type 0) → Session Db A → Type 0
  SafeAt d Q m = Ends d Q (m d)

  pub SafeAt-of-Ends :
      {A : Type 0} (d : Db) (Q : A → Db → Type 0) (m : Session Db A) → Ends d Q (m d) → SafeAt d Q m
  unfolding SafeAt
  SafeAt-of-Ends d Q m h = h

  pub Ends-of-SafeAt :
      {A : Type 0} (d : Db) (Q : A → Db → Type 0) (m : Session Db A) → SafeAt d Q m → Ends d Q (m d)
  unfolding SafeAt
  Ends-of-SafeAt d Q m h = h

  pub Ends-from :
      {A : Type 0} (Q : A → Db → Type 0) (d d' : Db) (r : Result Db A)
      → Evolves ctx d d'
      → Ends d' Q r
      → Ends d Q r
  Ends-from Q d d' (ok a c) e (f, q) = (Evolves-trans d d' c e f, q)
  Ends-from Q d d' (err x none) e p = tt
  Ends-from Q d d' (err x (some c)) e p = Evolves-trans d d' c e p

  module _ {A : Type 0} where
    -- Forgetting the result.
    pub SafeAt-any :
        (d : Db) (Q : A → Db → Type 0) (m : Session Db A) → SafeAt d Q m → SafeAt d Anything m
    unfolding SafeAt
    SafeAt-any d Q m h = go (m d) h
      where
        go : (r : Result Db A) → Ends d Q r → Ends d Anything r
        go (ok a d') (e, q) = (e, tt)
        go (err x none) p = tt
        go (err x (some c)) p = p

    pub SafeAt-pure :
        (d : Db) (Q : A → Db → Type 0) (a : A) → IsKeyed d.operations → Q a d → SafeAt d Q (pure a)
    unfolding SafeAt pure
    SafeAt-pure d Q a k q = (Evolves-refl d k, q)

    pub SafeAt-raise : (d : Db) (Q : A → Db → Type 0) (e : OperatorError) → SafeAt d Q (raise e)
    unfolding SafeAt raise
    SafeAt-raise d Q e = tt

    pub SafeAt-commit_and_raise :
        (d : Db) (Q : A → Db → Type 0) (e : OperatorError)
        → IsKeyed d.operations
        → SafeAt d Q (commit_and_raise e)
    unfolding SafeAt commit_and_raise
    SafeAt-commit_and_raise d Q e k = Evolves-refl d k

    pub SafeAt-if :
        (d : Db) (Q : A → Db → Type 0) (b : Bool) (m n : Session Db A)
        → (b ≡ true → SafeAt d Q m)
        → (b ≡ false → SafeAt d Q n)
        → SafeAt d Q (if b then m else n)
    SafeAt-if d Q true m n p q = p refl
    SafeAt-if d Q false m n p q = q refl

  pub SafeAt-bind :
      {A B : Type 0} (P : A → Db → Type 0) (Q : B → Db → Type 0) (d : Db) (m : Session Db A)
      (f : A → Session Db B)
      → SafeAt d P m
      → ((a : A) (d' : Db) → Evolves ctx d d' → P a d' → SafeAt d' Q (f a))
      → SafeAt d Q (m >>= f)
  unfolding SafeAt ◌>>=◌
  SafeAt-bind {A} {B} P Q d m f safe next = go (m d) safe
    where
      go :
          (r : Result Db A)
          → Ends d P r
          → Ends d Q (elim r as (λ _. Result Db B) [ ok a d' ↦ f a d' | err e kept ↦ err e kept ])
      go (ok a d') (e, p) = Ends-from Q d d' (f a d') e (next a d' e p)
      go (err x none) p = tt
      go (err x (some c)) p = p

  -- From `d`, which a transaction that began at `start` has reached.
  unfoldable pub SafeFrom : {A : Type 0} → Db → Db → (A → Db → Type 0) → Session Db A → Type 0
  SafeFrom start d Q m = Ends start Q (m d)

  pub SafeFrom-SafeAt :
      {A : Type 0} (start d : Db) (Q : A → Db → Type 0) (m : Session Db A)
      → Evolves ctx start d
      → SafeAt d Q m
      → SafeFrom start d Q m
  unfolding SafeFrom SafeAt
  SafeFrom-SafeAt start d Q m e h = Ends-from Q start d (m d) e h

  pub SafeAt-SafeFrom :
      {A : Type 0} (d : Db) (Q : A → Db → Type 0) (m : Session Db A)
      → SafeFrom d d Q m
      → SafeAt d Q m
  unfolding SafeFrom SafeAt
  SafeAt-SafeFrom d Q m h = h

  pub SafeFrom-bind :
      {A B : Type 0} (P : A → Db → Type 0) (Q : B → Db → Type 0) (start d : Db) (m : Session Db A)
      (f : A → Session Db B)
      → SafeFrom start d P m
      → ((a : A) (d' : Db) → Evolves ctx start d' → P a d' → SafeFrom start d' Q (f a))
      → SafeFrom start d Q (m >>= f)
  unfolding SafeFrom ◌>>=◌
  SafeFrom-bind {A} {B} P Q start d m f safe next = go (m d) safe
    where
      go :
          (r : Result Db A)
          → Ends start P r
          → Ends start Q
              (elim r as (λ _. Result Db B) [ ok a d' ↦ f a d' | err e kept ↦ err e kept ])
      go (ok a d') (e, p) = next a d' e p
      go (err x none) p = tt
      go (err x (some c)) p = p

  module _ {A B : Type 0} (d : Db) (Q : B → Db → Type 0) where
    -- A read, a value that must be there, and a guard leave the database alone.
    pub SafeAt-gets :
        (g : Db → A) (f : A → Session Db B) → SafeAt d Q (f (g d)) → SafeAt d Q (gets g >>= f)
    unfolding SafeAt ◌>>=◌ gets
    SafeAt-gets g f h = h

    pub SafeAt-or_raise :
        (o : Option A) (e : OperatorError) (f : A → Session Db B)
        → ((a : A) → o ≡ some a → SafeAt d Q (f a))
        → SafeAt d Q (or_raise o e >>= f)
    unfolding SafeAt ◌>>=◌ or_raise
    SafeAt-or_raise none e f h = tt
    SafeAt-or_raise (some a) e f h = h a refl

  pub SafeAt-reads :
      {A : Type 0} (d : Db) (g : Db → A) → IsKeyed d.operations → SafeAt d Anything (gets g)
  unfolding SafeAt gets
  SafeAt-reads d g k = (Evolves-refl d k, tt)

  pub SafeAt-option :
      {A B : Type 0} (d : Db) (Q : B → Db → Type 0) (o : Option A) (m : Session Db B)
      (f : A → Session Db B)
      → SafeAt d Q m
      → ((a : A) → o ≡ some a → SafeAt d Q (f a))
      → SafeAt d Q (elim o as (λ _. Session Db B) [ none ↦ m | some a ↦ f a ])
  SafeAt-option d Q none m f p q = p
  SafeAt-option d Q (some a) m f p q = q a refl

  pub SafeAt-raise_if_last :
      (d : Db) (b : Bool) (e : OperatorError)
      → IsKeyed d.operations
      → SafeAt d Anything (raise_if b e)
  unfolding SafeAt raise_if
  SafeAt-raise_if_last d true e k = tt
  SafeAt-raise_if_last d false e k = (Evolves-refl d k, tt)

  module _ {B : Type 0} (d : Db) (Q : B → Db → Type 0) where
    pub SafeAt-raise_if :
        (b : Bool) (e : OperatorError) (f : Unit {0} → Session Db B)
        → (b ≡ false → SafeAt d Q (f tt))
        → SafeAt d Q (raise_if b e >>= f)
    unfolding SafeAt ◌>>=◌ raise_if
    SafeAt-raise_if true e f h = tt
    SafeAt-raise_if false e f h = h refl

    pub SafeAt-or_raise_last :
        (o : Option B) (e : OperatorError)
        → IsKeyed d.operations
        → ((b : B) → o ≡ some b → Q b d)
        → SafeAt d Q (or_raise o e)
    unfolding SafeAt or_raise
    SafeAt-or_raise_last none e k h = tt
    SafeAt-or_raise_last (some b) e k h = (Evolves-refl d k, h b refl)

  pub session_scope-Evolves :
      {A : Type 0} (d : Db) (m : Session Db A)
      → IsKeyed d.operations
      → SafeAt d Anything m
      → Evolves ctx d (session_scope m d)
  unfolding session_scope SafeAt
  session_scope-Evolves {A} d m k safe = go (m d) safe
    where
      go :
          (r : Result Db A)
          → Ends d Anything r
          → Evolves ctx d (elim r as (λ _. Db) [
            | ok a d' ↦ d'
            | err e kept ↦ elim kept [ none ↦ d | some c ↦ c ]
          ])
      go (ok a d') (e, _) = e
      go (err x none) p = Evolves-refl d k
      go (err x (some c)) p = p
