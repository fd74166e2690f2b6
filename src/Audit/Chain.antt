-- ===== src/Audit/Chain.antt =====
-- src/n8n_operator/audit/chain.py: the bytes and the hash of an entry, and the walk that verifies.
use n8n_operator.Base.{ℕ, not, List, [], ◌∷◌, ◌++◌, Text, codes, text_eq, if◌then◌else◌}
use n8n_operator.Json.{Json, str, obj, end, field, canonical_json_bytes}

-- What the code takes from elsewhere: `hashlib.sha256(...).hexdigest()`, `astimezone(UTC).isoformat()`
-- of an instant, the NFC form of a text, and the `seq` that the database gives a new row of `audit_log`
-- after rows with the given ones.
pub record Digest : Type 0 where
  pub sha256 : Text → Text
  pub isoformat : ℕ → Text
  pub nfc : Text → Text
  pub autoincrement : List ℕ → ℕ

-- The fields of an entry that its hash covers, but for `prev_hash`.
pub record Content : Type 0 where
  pub occurred_at : ℕ
  pub actor : Text
  pub action : Text
  pub subject_type : Text
  pub subject_id : Text
  pub outcome : Text
  pub detail : Json

-- `AuditEntryLike`, a row of `audit_log`.
pub record AuditEntry : Type 0 where
  pub seq : ℕ
  pub prev_hash : Text
  pub entry_hash : Text
  pub content : Content

-- `"0" * 64`
pub genesis_hash : Text
genesis_hash = codes "0000000000000000000000000000000000000000000000000000000000000000"

pub data BreakReason : Type 0 where
  prev_hash_mismatch entry_hash_mismatch : BreakReason

-- `ok`, `first_break_seq` and `reason` of `ChainVerificationResult`.
pub data ChainVerificationResult : Type 0 where
  intact : ChainVerificationResult
  broken : ℕ → BreakReason → ChainVerificationResult

module _ (digest : Digest) where
  open digest use {sha256, isoformat}

  entry_canonical_bytes : Text → Content → Text
  entry_canonical_bytes prev_hash c = canonical_json_bytes (
      obj (
        field (codes "prev_hash") (str prev_hash) (
          field (codes "occurred_at") (str (isoformat c.occurred_at)) (
            field (codes "actor") (str c.actor) (
              field (codes "action") (str c.action) (
                field (codes "subject_type") (str c.subject_type) (
                  field (codes "subject_id") (str c.subject_id) (
                    field (codes "outcome") (str c.outcome)
                      (field (codes "detail") c.detail end)))))))))

  unfoldable pub compute_entry_hash : Text → Content → Text
  unfolding entry_canonical_bytes
  compute_entry_hash prev_hash c = codes "sha256:" ++ sha256 (entry_canonical_bytes prev_hash c)

  -- The loop of `verify_chain`, with `expected_prev`.
  unfoldable pub verify_from : Text → List AuditEntry → ChainVerificationResult
  verify_from expected_prev [] = intact
  verify_from expected_prev (e ∷ es) =
      let rest = verify_from e.entry_hash es in
      if not (text_eq e.prev_hash expected_prev)
      then broken e.seq prev_hash_mismatch
      else if not (text_eq (compute_entry_hash e.prev_hash e.content) e.entry_hash)
      then broken e.seq entry_hash_mismatch
      else rest

  unfoldable pub verify_chain : List AuditEntry → ChainVerificationResult
  unfolding verify_from
  verify_chain entries = verify_from genesis_hash entries
