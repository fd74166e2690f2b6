-- ===== src/Service/Outcome/Steps.antt =====
-- Sessions one step at a time: how a sequence of steps runs, and what a sequence that succeeded
-- went through.
use n8n_operator.Base.{◌≡◌, refl, ap, Bool, true, false, Option, none, some}
use n8n_operator.Service.Outcome.{
  pure, Session, Result, ok, err, OperatorError, ◌>>=◌, raise_if, gets, or_raise,
}

module _ {D A B : Type 0} where
  pub >>=-ok :
      (m : Session D A) (f : A → Session D B) (d : D) {a : A} {d' : D}
      → m d ≡ ok a d'
      → (m >>= f) d ≡ f a d'
  unfolding ◌>>=◌
  >>=-ok m f d e =
      ap (λ r. elim r as (λ _. Result D B) [ ok a d' ↦ f a d' | err e kept ↦ err e kept ]) e

  pub >>=-err :
      (m : Session D A) (f : A → Session D B) (d : D) {e : OperatorError} {kept : Option D}
      → m d ≡ err e kept
      → (m >>= f) d ≡ err e kept
  unfolding ◌>>=◌
  >>=-err m f d h =
      ap (λ r. elim r as (λ _. Result D B) [ ok a d' ↦ f a d' | err e kept ↦ err e kept ]) h

  -- A sequence that returns a value has run its first step.
  pub ok->>= :
      (m : Session D A) (f : A → Session D B) (d : D) {b : B} {c : D}
      → (m >>= f) d ≡ ok b c
      → (a : A) × (d' : D) × (m d ≡ ok a d') × (f a d' ≡ ok b c)
  unfolding ◌>>=◌
  ok->>= m f d {b} {c} h = go (m d) refl h
    where
      go :
          (r : Result D A)
          → m d ≡ r
          → (elim r as (λ _. Result D B) [ ok a d' ↦ f a d' | err e kept ↦ err e kept ]) ≡ ok b c
          → (a : A) × (d' : D) × (m d ≡ ok a d') × (f a d' ≡ ok b c)
      go (ok a d') e h = (a, d', e, h)
      go (err x kept) e h = cc

  pub ok-or_raise :
      (o : Option A) (x : OperatorError) (f : A → Session D B) (d : D) {b : B} {c : D}
      → (or_raise o x >>= f) d ≡ ok b c
      → (a : A) × (o ≡ some a) × (f a d ≡ ok b c)
  unfolding ◌>>=◌ or_raise
  ok-or_raise none x f d h = cc
  ok-or_raise (some a) x f d h = (a, refl, h)

  pub ok-gets :
      (g : D → A) (f : A → Session D B) (d : D) {b : B} {c : D}
      → (gets g >>= f) d ≡ ok b c
      → f (g d) d ≡ ok b c
  unfolding ◌>>=◌ gets
  ok-gets g f d h = h

module _ {D B : Type 0} where
  pub ok-raise_if :
      (b : Bool) (x : OperatorError) (f : Unit {0} → Session D B) (d : D) {y : B} {c : D}
      → (raise_if b x >>= f) d ≡ ok y c
      → (b ≡ false) × (f tt d ≡ ok y c)
  unfolding ◌>>=◌ raise_if
  ok-raise_if true x f d h = cc
  ok-raise_if false x f d h = (refl, h)

module _ {D A : Type 0} where
  pub same_result : {a b : A} {c d : D} → ok a c ≡ ok b d → (a ≡ b) × (c ≡ d)
  same_result e = (cc, cc)

  pub ok-pure : (a : A) (d : D) {b : A} {c : D} → pure a d ≡ ok b c → (a ≡ b) × (d ≡ c)
  unfolding pure
  ok-pure a d e = same_result e

  pub ok-or_raise_last :
      (o : Option A) (x : OperatorError) (d : D) {b : A} {c : D}
      → or_raise o x d ≡ ok b c
      → (o ≡ some b) × (d ≡ c)
  unfolding or_raise
  ok-or_raise_last none x d h = cc
  ok-or_raise_last (some a) x d h = (ap some (same_result h).0, (same_result h).1)

-- The steps that go on.
module _ {D A B : Type 0} where
  pub or_raise-goes_on :
      (o : Option A) (x : OperatorError) (f : A → Session D B) (d : D) {a : A}
      → o ≡ some a
      → (or_raise o x >>= f) d ≡ f a d
  unfolding ◌>>=◌ or_raise
  or_raise-goes_on o x f d h = rw h refl

module _ {D B : Type 0} where
  pub raise_if-goes_on :
      (b : Bool) (x : OperatorError) (f : Unit {0} → Session D B) (d : D)
      → b ≡ false
      → (raise_if b x >>= f) d ≡ f tt d
  unfolding ◌>>=◌ raise_if
  raise_if-goes_on b x f d h = rw h refl

module _ {D A B : Type 0} where
  pub gets-goes_on : (g : D → A) (f : A → Session D B) (d : D) → (gets g >>= f) d ≡ f (g d) d
  unfolding ◌>>=◌ gets
  gets-goes_on g f d = refl
