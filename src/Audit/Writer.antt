-- ===== src/Audit/Writer.antt =====
-- src/n8n_operator/audit/writer.py, and the two methods of `AuditLogRepository` that it calls. The
-- table is the list of its rows in the order of `seq`, which the database assigns.
use n8n_operator.Base.{ℕ, List, [], ◌∷◌, ◌++◌, Text}
use n8n_operator.Audit.Chain.{Digest, Content, AuditEntry, genesis_hash, compute_entry_hash}

-- The hash of the last row after `h`, which stands for the rows before.
abbrev pub tip : Text → List AuditEntry → Text
tip h [] = h
tip h (e ∷ es) = tip e.entry_hash es

-- `AuditLogRepository.get_last_hash`
unfoldable pub get_last_hash : List AuditEntry → Text
get_last_hash log = tip genesis_hash log

abbrev seqs : List AuditEntry → List ℕ
seqs [] = []
seqs (e ∷ es) = e.seq ∷ seqs es

-- `AuditLogRepository.append`
append : Digest → Text → Text → Content → List AuditEntry → List AuditEntry
append digest prev_hash entry_hash content log =
    log
    ++ record {
      seq = digest.autoincrement (seqs log);
      prev_hash = prev_hash;
      entry_hash = entry_hash;
      content = content;
    }
      ∷ []

unfoldable pub write : Digest → Content → List AuditEntry → List AuditEntry
unfolding append get_last_hash
write digest content log =
    let prev_hash = get_last_hash log in
    append digest prev_hash (compute_entry_hash digest prev_hash content) content log
