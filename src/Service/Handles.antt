-- ===== src/Service/Handles.antt =====
-- src/n8n_operator/core/handles.py: approval tokens and the binding of an approval to the
-- operation that it was minted for.
pub mod Binding
use n8n_operator.Base.{
  ℕ, zero, suc, ◌+◌, List, [], ◌∷◌, ◌++◌, Text, codes, length, ltb, if◌then◌else◌,
}
use Prim.Native.Nat.{◌/◌, ◌%◌}
use n8n_operator.Json.Utf8.{utf8}
use n8n_operator.Audit.Chain.{Digest}

-- `str(n)`, with one round for each digit; there are at most n + 1 digits.
unfoldable pub decimal_rounds : ℕ → ℕ → Text → Text
decimal_rounds zero n acc = acc
decimal_rounds (suc f) n acc =
    let more = decimal_rounds f (n / 10) ((48 + n % 10) ∷ acc) in
    if ltb n 10 then (48 + n) ∷ acc else more

unfoldable pub decimal : ℕ → Text
unfolding decimal_rounds
decimal n = decimal_rounds (suc n) n []

-- `f"{len(part)}:{part}|"` of each part, joined
unfoldable pub binding_parts : List Text → Text
binding_parts [] = []
binding_parts (part ∷ parts) =
    decimal (length part) ++ (b':' ∷ (part ++ (b'|' ∷ binding_parts parts)))

unfoldable pub binding_preimage : Text → Text → Text → Text → Text → Text
unfolding binding_parts decimal
binding_preimage operation_id principal_id argument_fingerprint snapshot_id definition_hash =
    binding_parts
      (operation_id ∷ principal_id ∷ argument_fingerprint ∷ snapshot_id ∷ definition_hash ∷ [])

-- `hash_approval_token`
unfoldable pub hash_approval_token : Digest → Text → Text
hash_approval_token digest token = digest.sha256 (utf8 token)

unfoldable pub compute_approval_binding : Digest → Text → Text → Text → Text → Text → Text
compute_approval_binding digest operation_id principal_id argument_fingerprint snapshot_id
      definition_hash =
    codes "sha256:"
    ++ digest.sha256 (
        utf8 (
          binding_preimage operation_id principal_id argument_fingerprint snapshot_id
            definition_hash))
