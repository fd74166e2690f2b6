-- ===== src/Examples/Shaping.antt =====
-- Scrubbing and capping on small inputs.
use n8n_operator.Redaction.{
  starts_with, replace_from, scrub_text, scrub_recursive, scrub_secrets, cap_output,
}
use n8n_operator.Json.{end, str, field, obj, Json}
use n8n_operator.Base.{false, [], ◌≡◌, ◌∷◌, codes, Text, arith, List, text_eq, refl}
use n8n_operator.Redaction.Scrub.{scrub_secrets_lem, mentions}
use n8n_operator.Redaction.Cap.{cap_output_lem, Capped}

abbrev leak : Json
leak = obj (field (codes "error") (str (codes "key AD345 refused")) end)

abbrev known : List Text
known = codes "refused" ∷ codes "AD345" ∷ []

scrubbed :
    scrub_secrets leak known
    ≡ obj (field (codes "error") (str (codes "key [REDACTED] [REDACTED]")) end)
unfolding scrub_secrets scrub_recursive scrub_text replace_from starts_with
scrubbed = refl

scrub_secrets_lem_example : mentions (codes "AD345") (scrub_secrets leak known) ≡ false
unfolding text_eq n8n_operator.Redaction.Scrub.contains starts_with
scrub_secrets_lem_example = scrub_secrets_lem leak known (codes "AD345") refl refl

cap_output_lem_example : Capped leak 20 (cap_output leak 20)
cap_output_lem_example = cap_output_lem leak 20 (omega arith)
