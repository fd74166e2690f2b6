-- ===== src/Audit/Verify.antt =====
-- The walk finds the first break, and the writer never makes one.
use n8n_operator.Base.{
  subst, ℕ, ◌≡◌, refl, ◌↔◌, inl, inr, List, [], ◌∷◌, ◌++◌, Text, text_eq, text_eq_iff, arith,
  Bool-cases, ◌≢◌,
}
use n8n_operator.Audit.Chain.{
  Digest, Content, AuditEntry, genesis_hash, compute_entry_hash, verify_from, verify_chain,
  ChainVerificationResult, intact, broken, BreakReason, prev_hash_mismatch, entry_hash_mismatch,
}
use n8n_operator.Audit.Writer.{tip, write}

module _ (digest : Digest) where
  -- Each entry names the hash of the one before it, and its own hash is that of its content.
  abbrev pub Chained : Text → List AuditEntry → Type 0
  Chained h [] = Unit
  Chained h (e ∷ es) =
      (e.prev_hash ≡ h)
      × (compute_entry_hash digest e.prev_hash e.content ≡ e.entry_hash)
      × Chained e.entry_hash es

  -- What is wrong with an entry that follows the hash `h`.
  abbrev pub BreaksAt : Text → AuditEntry → BreakReason → Type 0
  BreaksAt h e prev_hash_mismatch = e.prev_hash ≢ h
  BreaksAt h e entry_hash_mismatch =
      (e.prev_hash ≡ h) × (compute_entry_hash digest e.prev_hash e.content ≢ e.entry_hash)

  -- What a verdict says of the entries that follow the hash `h`.
  abbrev pub Says : ChainVerificationResult → Text → List AuditEntry → Type 0
  Says intact h es = Chained h es
  Says (broken seq reason) h es =
      (good rest : List AuditEntry) × (bad : AuditEntry) × (es ≡ good ++ bad ∷ rest)
      × (bad.seq ≡ seq)
      × Chained h good
      × BreaksAt (tip h good) bad reason

  Says-cons :
      (r : ChainVerificationResult) (h : Text) (e : AuditEntry) (es : List AuditEntry)
      → e.prev_hash ≡ h
      → compute_entry_hash digest e.prev_hash e.content ≡ e.entry_hash
      → Says r e.entry_hash es
      → Says r h (e ∷ es)
  Says-cons intact h e es p q s = (p, q, s)
  Says-cons (broken seq reason) h e es p q (good, rest, bad, split, at, chained, breaks) =
      (e ∷ good, rest, bad, rw split, at, (p, q, chained), breaks)

  verify_from-Says : (h : Text) (es : List AuditEntry) → Says (verify_from digest h es) h es
  unfolding verify_from
  verify_from-Says h [] = tt
  verify_from-Says h (e ∷ es) = elim (Bool-cases (text_eq e.prev_hash h)) [
    | inr other ↦
        rw other ([], es, e, refl, refl, tt, λ p. ground (arith, text_eq_iff e.prev_hash h))
    | inl linked ↦
        elim (Bool-cases (text_eq (compute_entry_hash digest e.prev_hash e.content) e.entry_hash)) [
          | inr edited ↦
              rw (linked, edited)
                (
                  [],
                  es,
                  e,
                  refl,
                  refl,
                  tt,
                  (
                    (text_eq_iff e.prev_hash h).0 linked,
                    λ p. ground (
                      arith,
                      text_eq_iff (compute_entry_hash digest e.prev_hash e.content) e.entry_hash,
                    ),
                  ),
                )
          | inl matches ↦
              rw (linked, matches)
                (Says-cons (verify_from digest e.entry_hash es) h e es
                  ((text_eq_iff e.prev_hash h).0 linked)
                  ((text_eq_iff (compute_entry_hash digest e.prev_hash e.content) e.entry_hash).0
                    matches)
                  (verify_from-Says e.entry_hash es))
        ]
  ]

  -- For any log, the verdict `intact` means that every entry names the hash of the one before it
  -- and carries the hash of its own content; a break is reported at the first entry that fails,
  -- with the check that it fails.
  pub verify_chain_lem : (es : List AuditEntry) → Says (verify_chain digest es) genesis_hash es
  unfolding verify_chain
  verify_chain_lem es = verify_from-Says genesis_hash es

  Chained-intact :
      (h : Text) (es : List AuditEntry) → Chained h es → verify_from digest h es ≡ intact
  unfolding verify_from
  Chained-intact h [] c = refl
  Chained-intact h (e ∷ es) (p, q, c) = ground (
    arith,
    text_eq_iff e.prev_hash h,
    text_eq_iff (compute_entry_hash digest e.prev_hash e.content) e.entry_hash,
    Chained-intact e.entry_hash es c,
  )

  -- A log verifies as intact exactly when it is chained from the genesis hash.
  pub verify_chain_iff :
      (es : List AuditEntry) → (verify_chain digest es ≡ intact) ↔ Chained genesis_hash es
  unfolding verify_chain
  verify_chain_iff es = (
    λ ok. subst (λ r. Says r genesis_hash es) ok (verify_chain_lem es),
    Chained-intact genesis_hash es,
  )

  verify_from-linked :
      (h : Text) (es : List AuditEntry) (c : Content) (n : ℕ)
      → verify_from digest h (
          es
          ++ record {
            seq = n;
            prev_hash = tip h es;
            entry_hash = compute_entry_hash digest (tip h es) c;
            content = c;
          }
            ∷ [])
        ≡ verify_from digest h es
  unfolding verify_from
  verify_from-linked h [] c n = ground (
    arith,
    text_eq_iff h h,
    text_eq_iff (compute_entry_hash digest h c) (compute_entry_hash digest h c),
  )
  verify_from-linked h (e ∷ es) c n = rw (verify_from-linked e.entry_hash es c n)

  -- Writing an entry never changes the verdict: an intact log stays intact, and a break that is
  -- there stays the first break.
  pub verify_chain-write :
      (c : Content) (log : List AuditEntry)
      → verify_chain digest (write digest c log) ≡ verify_chain digest log
  unfolding verify_chain write
  verify_chain-write c log = verify_from-linked genesis_hash log c _
