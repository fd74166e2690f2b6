-- ===== src/Examples/Log.antt =====
-- Runs of src/n8n_operator/audit and of the log's paging.
use n8n_operator.Audit.Writer.{write}
use n8n_operator.Json.{end, nil, str, cons, arr, num, field, obj, canonical_json_bytes, null}
use n8n_operator.Audit.Paging.{list_all_lem, IsSequenced, list_all}
use n8n_operator.Audit.Verify.{
  verify_chain_iff, Chained, verify_chain-write, verify_chain_lem, Says,
}
use n8n_operator.Audit.Chain.{genesis_hash, intact, Digest, AuditEntry, Content, verify_chain}
use n8n_operator.Base.{ℕ, suc, refl, ◌≡◌, ◌↔◌, codes, List, [], ◌∷◌, some, arith}

abbrev one_more : List ℕ → ℕ
one_more [] = 1
one_more (n ∷ ns) = suc (one_more ns)

-- A digest that keeps what it is given.
abbrev pub plain : Digest
plain = record { sha256 = λ t. t; isoformat = λ n. n ∷ []; nfc = λ t. t; autoincrement = one_more }

abbrev pub prepared : Content
prepared = record {
  occurred_at = 48;
  actor = codes "ana";
  action = codes "operation.prepared";
  subject_type = codes "operation";
  subject_id = codes "op1";
  outcome = codes "allowed";
  detail = null;
}

abbrev pub two_entries : List AuditEntry
two_entries = write plain prepared (write plain prepared [])

abbrev forged_entry : AuditEntry
forged_entry = record {
  seq = 1;
  prev_hash = genesis_hash;
  entry_hash = codes "x";
  content = prepared;
}

verify_chain_lem_example :
    Says plain (verify_chain plain (forged_entry ∷ [])) genesis_hash (forged_entry ∷ [])
verify_chain_lem_example = verify_chain_lem plain (forged_entry ∷ [])

verify_chain_iff_example :
    (verify_chain plain two_entries ≡ intact) ↔ Chained plain genesis_hash two_entries
verify_chain_iff_example = verify_chain_iff plain two_entries

verify_chain-write_example :
    verify_chain plain (write plain prepared two_entries) ≡ verify_chain plain two_entries
verify_chain-write_example = verify_chain-write plain prepared two_entries

two_entries-IsSequenced : IsSequenced 1 two_entries
unfolding write
two_entries-IsSequenced = (omega arith, (omega arith, tt))

list_all_lem_example : list_all 1 two_entries ≡ some two_entries
list_all_lem_example = list_all_lem 1 two_entries (omega arith) two_entries-IsSequenced

canonical_json_bytes_sorted :
    canonical_json_bytes (
      obj (
        field
          (codes "b")
          (num (codes "1"))
          (field (codes "a") (arr (cons null (cons (str (codes "x\"y")) nil))) end)))
    ≡ codes "{\"a\":[null,\"x\\\"y\"],\"b\":1}"
unfolding canonical_json_bytes
canonical_json_bytes_sorted = refl
