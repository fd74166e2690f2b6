-- ===== src/Registry/Sound.antt =====
-- What holds of a registry that has loaded: `load_registry` of src/n8n_operator/registry/loader.py.
use n8n_operator.Registry.Patterns.{matches_definition_hash, matches_id, matches_secret_ref}
use n8n_operator.N8n.Checks.{is_read_only}
use n8n_operator.Registry.{
  r15, r11, r10, r5, r8, r7, r2, r6, r3, DeclaredEntry, unless, RegistryDocument, RegistryDefaults,
  Rule, resolve_document, resolve_workflow_entry, RuleViolation,
}
use n8n_operator.Registry.Rules.{
  check_r1_api_version, check_r9_redact_paths, check_r4_input_schema, within, is_plain_path,
  refused, check_r11_max_argument_bytes, loaded, check_r8_trigger_path, has_no_auth, is_secret_ref,
  is_high, check_r7_definition_hash, Parsers, check_r3_n8n_workflow_id,
  check_r5_r10_r15_approval_policy, check_entry, check_r6_secret_ref, load_registry, load_result,
  check_rules, check_entries, check_r2_id,
}
use n8n_operator.Service.Store.Rows.{
  medium, irreversible, basic_auth, low, external_write, high, header_auth, no_auth, read_only,
  SideEffects, WorkflowEntry, Risk, TriggerAuth,
}
use n8n_operator.Base.{
  ltb, ◌&&◌, not, inr, text_eq_iff, inl, ◌≤◌, Bool-cases, ap, text_eq_refl, refl, arith, text_eq,
  ◌≢◌, ◌⊎◌, subst, sym, map, false, [], ◌++◌, true, ◌∷◌, text_in, All, ◌≡◌, Text, Option, List,
  Bool, ℕ, none, some,
}

-- No text twice.
abbrev pub Distinct : List Text → Type 0
Distinct [] = Unit
Distinct (x ∷ xs) = (text_in x xs ≡ false) × Distinct xs

-- What the rules ask of an entry: no workflow runs unattended unless it only reads, is not of high risk
-- and asks for no quorum; its id, hash, path, secret and limit are well formed.
abbrev pub Governed : ℕ → WorkflowEntry → Type 0
Governed ceiling e =
    ((e.is_unattended ≡ false)
      ⊎ ((e.is_unattended ≡ true)
          × (e.side_effects ≡ read_only)
          × (e.risk ≢ high)
          × (e.limits.quorum_count ≤ 1)))
    × (matches_id e.id ≡ true)
    × (matches_definition_hash e.definition_hash ≡ true)
    × (is_plain_path e.trigger_path ≡ true)
    × ((e.trigger_auth ≡ no_auth)
        ⊎ ((ref : Text) × (e.trigger_secret_ref ≡ some ref) × (matches_secret_ref ref ≡ true)))
    × (within ceiling e.limits.max_argument_bytes ≡ true)

pub append-none : (xs ys : List RuleViolation) → xs ++ ys ≡ [] → (xs ≡ []) × (ys ≡ [])
append-none [] ys h = (refl, h)
append-none (x ∷ xs) ys h = absurd (ground arith)

all_none :
    (a b c d e f g : List RuleViolation)
    → a ++ (b ++ (c ++ (d ++ (e ++ (f ++ g))))) ≡ []
    → (b ≡ []) × (c ≡ []) × (d ≡ []) × (e ≡ []) × (g ≡ [])
all_none a b c d e f g h =
    let hb = append-none a (b ++ (c ++ (d ++ (e ++ (f ++ g))))) h in
    let hc = append-none b (c ++ (d ++ (e ++ (f ++ g)))) hb.1 in
    let hd = append-none c (d ++ (e ++ (f ++ g))) hc.1 in
    let he = append-none d (e ++ (f ++ g)) hd.1 in
    let hf = append-none e (f ++ g) he.1 in (hc.0, hd.0, he.0, hf.0, (append-none f g hf.1).1)

unless-none : (b : Bool) (rule : Rule) (id : Text) → unless b rule id ≡ [] → b ≡ true
unless-none true rule id h = refl
unless-none false rule id h = absurd (ground arith)

pub unless-append :
    (b : Bool) (rule : Rule) (id : Text) (rest : List RuleViolation)
    → unless b rule id ++ rest ≡ []
    → (b ≡ true) × (rest ≡ [])
unless-append true rule id rest h = (refl, h)
unless-append false rule id rest h = absurd (ground arith)

is_read_only-lem : (s : SideEffects) → is_read_only s ≡ true → s ≡ read_only
is_read_only-lem read_only h = refl
is_read_only-lem external_write h = absurd (ground arith)
is_read_only-lem irreversible h = absurd (ground arith)

is_high-lem : (r : Risk) → is_high r ≡ false → r ≢ high
is_high-lem low h = λ e. absurd (ground arith)
is_high-lem medium h = λ e. absurd (ground arith)
is_high-lem high h = absurd (ground arith)

has_no_auth-lem : (a : TriggerAuth) → has_no_auth a ≡ true → a ≡ no_auth
has_no_auth-lem no_auth h = refl
has_no_auth-lem header_auth h = absurd (ground arith)
has_no_auth-lem basic_auth h = absurd (ground arith)

is_secret_ref-lem :
    (ref : Option Text)
    → is_secret_ref ref ≡ true
    → (r : Text) × (ref ≡ some r) × (matches_secret_ref r ≡ true)
is_secret_ref-lem none h = absurd (ground arith)
is_secret_ref-lem (some r) h = (r, refl, h)

settled : (a b : Bool) → a ≡ true → not (a && not b) ≡ true → b ≡ true
settled a b h k = ground arith

first_fails : (a b : Bool) → b ≡ true → not (a && b) ≡ true → a ≡ false
first_fails a b h k = ground arith

rest_fails : (a b : Bool) → a ≡ true → not (a && b) ≡ true → b ≡ false
rest_fails a b h k = ground arith

attended :
    (e : WorkflowEntry)
    → check_r5_r10_r15_approval_policy e ≡ []
    → (e.is_unattended ≡ false)
      ⊎ ((e.is_unattended ≡ true)
          × (e.side_effects ≡ read_only)
          × (e.risk ≢ high)
          × (e.limits.quorum_count ≤ 1))
unfolding check_r5_r10_r15_approval_policy
attended e h = elim (Bool-cases e.is_unattended) [
  | inl alone ↦
      let weak = unless (not (is_high e.risk && e.is_unattended)) r10 e.id in
      let many = unless (not (e.is_unattended && ltb 1 e.limits.quorum_count)) r15 e.id in
      let reads =
        unless-append (not (e.is_unattended && not (is_read_only e.side_effects))) r5 e.id
          (weak ++ many) h in
      let risk = unless-append (not (is_high e.risk && e.is_unattended)) r10 e.id many reads.1 in
      let quorum =
        unless-none (not (e.is_unattended && ltb 1 e.limits.quorum_count)) r15 e.id risk.1 in
      let reads_only : is_read_only e.side_effects ≡ true =
        settled e.is_unattended _ alone reads.0 in
      let not_high : is_high e.risk ≡ false =
        first_fails (is_high e.risk) e.is_unattended alone risk.0 in
      let one : ltb 1 e.limits.quorum_count ≡ false =
        rest_fails e.is_unattended (ltb 1 e.limits.quorum_count) alone quorum in
      inr (
        alone,
        is_read_only-lem e.side_effects reads_only,
        is_high-lem e.risk not_high,
        ground arith,
      )
  | inr gated ↦ inl gated
]

secured :
    (e : WorkflowEntry)
    → check_r6_secret_ref e ≡ []
    → (e.trigger_auth ≡ no_auth)
      ⊎ ((ref : Text) × (e.trigger_secret_ref ≡ some ref) × (matches_secret_ref ref ≡ true))
unfolding check_r6_secret_ref
secured e h =
    let ok = unless-none _ r6 e.id h in
    elim (Bool-cases (has_no_auth e.trigger_auth)) [
      | inl none_needed ↦ inl (has_no_auth-lem e.trigger_auth none_needed)
      | inr closed ↦ inr (is_secret_ref-lem e.trigger_secret_ref (ground arith))
    ]

check_entry-Governed :
    (parsers : Parsers) (ceiling : ℕ) (defaults : RegistryDefaults) (d : DeclaredEntry)
    → matches_id d.entry.id ≡ true
    → check_entry parsers ceiling d.entry (resolve_workflow_entry defaults d) ≡ []
    → Governed ceiling (resolve_workflow_entry defaults d)
unfolding check_entry check_r7_definition_hash check_r8_trigger_path check_r11_max_argument_bytes
    resolve_workflow_entry
check_entry-Governed parsers ceiling defaults d id h =
    let resolved = resolve_workflow_entry defaults d in
    let p =
      all_none (check_r4_input_schema parsers d.entry) (check_r5_r10_r15_approval_policy resolved)
        (check_r6_secret_ref d.entry) (check_r7_definition_hash d.entry)
        (check_r8_trigger_path d.entry)
        (check_r9_redact_paths parsers d.entry.id d.entry.output.redact)
        (check_r11_max_argument_bytes ceiling d.entry) h in
    (
      attended resolved p.0,
      id,
      unless-none _ r7 d.entry.id p.2,
      unless-none _ r8 d.entry.id p.3,
      secured d.entry p.1,
      unless-none _ r11 d.entry.id p.4,
    )

-- None of the texts is among those seen, and none comes twice.
abbrev Fresh : List Text → List Text → Type 0
Fresh seen [] = Unit
Fresh seen (x ∷ xs) = (text_in x seen ≡ false) × Fresh (x ∷ seen) xs

not_seen :
    (k : Text) (seen xs : List Text) → text_in k seen ≡ true → Fresh seen xs → text_in k xs ≡ false
not_seen k seen [] h f = refl
not_seen k seen (x ∷ xs) h (new, rest) =
    let later = not_seen k (x ∷ seen) xs (ground arith) rest in
    elim (Bool-cases (text_eq k x)) [
      | inl same ↦ absurd (
          let old = subst (λ y. text_in y seen ≡ true) ((text_eq_iff k x).0 same) h in ground arith)
      | inr other ↦ ground arith
    ]

Fresh-Distinct : (seen xs : List Text) → Fresh seen xs → Distinct xs
Fresh-Distinct seen [] f = tt
Fresh-Distinct seen (x ∷ xs) (new, rest) =
    let first_seen : text_in x (x ∷ seen) ≡ true = ground (arith, text_eq_refl x) in
    (not_seen x (x ∷ seen) xs first_seen rest, Fresh-Distinct (x ∷ seen) xs rest)

negated : (b : Bool) → not b ≡ true → b ≡ false
negated b h = ground arith

check_r2_id-Fresh :
    (defaults : RegistryDefaults) (seen : List Text) (ds : List DeclaredEntry)
    → check_r2_id seen ds ≡ []
    → Fresh seen (map (λ e. e.id) (map (resolve_workflow_entry defaults) ds))
      × All (λ d. matches_id d.entry.id ≡ true) ds
unfolding check_r2_id resolve_workflow_entry
check_r2_id-Fresh defaults seen [] h = (tt, tt)
check_r2_id-Fresh defaults seen (d ∷ ds) h =
    let others = check_r2_id (d.entry.id ∷ seen) ds in
    let formed =
      unless-append (matches_id d.entry.id) r2 d.entry.id
        (unless (not (text_in d.entry.id seen)) r2 d.entry.id ++ others) h in
    let new = unless-append (not (text_in d.entry.id seen)) r2 d.entry.id others formed.1 in
    let rest = check_r2_id-Fresh defaults (d.entry.id ∷ seen) ds new.1 in
    ((negated (text_in d.entry.id seen) new.0, rest.0), (formed.0, rest.1))

check_r3-Fresh :
    (defaults : RegistryDefaults) (seen : List Text) (ds : List DeclaredEntry)
    → check_r3_n8n_workflow_id seen ds ≡ []
    → Fresh seen (map (λ e. e.n8n_workflow_id) (map (resolve_workflow_entry defaults) ds))
unfolding check_r3_n8n_workflow_id resolve_workflow_entry
check_r3-Fresh defaults seen [] h = tt
check_r3-Fresh defaults seen (d ∷ ds) h =
    let n8n_id = d.entry.n8n_workflow_id in
    let new =
      unless-append (not (text_in n8n_id seen)) r3 d.entry.id
        (check_r3_n8n_workflow_id (n8n_id ∷ seen) ds) h in
    (negated (text_in n8n_id seen) new.0, check_r3-Fresh defaults (n8n_id ∷ seen) ds new.1)

check_entries-Governed :
    (parsers : Parsers) (ceiling : ℕ) (defaults : RegistryDefaults) (ds : List DeclaredEntry)
    → All (λ d. matches_id d.entry.id ≡ true) ds
    → check_entries parsers ceiling defaults ds ≡ []
    → All (Governed ceiling) (map (resolve_workflow_entry defaults) ds)
unfolding check_entries
check_entries-Governed parsers ceiling defaults [] formed h = tt
check_entries-Governed parsers ceiling defaults (d ∷ ds) (id, formed) h =
    let parts =
      append-none (check_entry parsers ceiling d.entry (resolve_workflow_entry defaults d))
        (check_entries parsers ceiling defaults ds) h in
    (
      check_entry-Governed parsers ceiling defaults d id parts.0,
      check_entries-Governed parsers ceiling defaults ds formed parts.1,
    )

load_result-loaded :
    (violations : List RuleViolation) (resolved entries : List WorkflowEntry)
    → load_result violations resolved ≡ loaded entries
    → (violations ≡ []) × (entries ≡ resolved)
unfolding load_result
load_result-loaded [] resolved entries h =
    (refl, sym (ap (λ r. elim r [ loaded es ↦ es | refused vs ↦ resolved ]) h))
load_result-loaded (v ∷ violations) resolved entries h = absurd (ground arith)

-- What a load promises: the entries of the document, each governed, no two with one id or one n8n
-- workflow.
abbrev pub Trusted : ℕ → List WorkflowEntry → Type 0
Trusted ceiling entries =
    All (Governed ceiling) entries
    × Distinct (map (λ e. e.id) entries)
    × Distinct (map (λ e. e.n8n_workflow_id) entries)

check_rules-Trusted :
    (parsers : Parsers) (ceiling : ℕ) (document : RegistryDocument)
    → check_rules parsers ceiling document ≡ []
    → Trusted ceiling (resolve_document document)
unfolding check_rules resolve_document
check_rules-Trusted parsers ceiling document h =
    let defaults = document.defaults in
    let ds = document.workflows in
    let c2 = check_r2_id [] ds in
    let c3 = check_r3_n8n_workflow_id [] ds in
    let rest = check_entries parsers ceiling defaults ds in
    let p1 = append-none (check_r1_api_version document) (c2 ++ (c3 ++ rest)) h in
    let p2 = append-none c2 (c3 ++ rest) p1.1 in
    let p3 = append-none c3 rest p2.1 in
    let r2_holds = check_r2_id-Fresh defaults [] ds p2.0 in
    let r3_holds = check_r3-Fresh defaults [] ds p3.0 in
    (
      check_entries-Governed parsers ceiling defaults ds r2_holds.1 p3.1,
      Fresh-Distinct [] _ r2_holds.0,
      Fresh-Distinct [] _ r3_holds,
    )

-- For any document that loads, under any ceiling on arguments: the entries are the document's, resolved;
-- no two have the same id or the same n8n workflow; and each is governed, that is, it runs unattended
-- only if it only reads, is not of high risk and asks for one approver at most, its id and hash are well
-- formed, its path names no scheme and no host, its secret is a reference unless the trigger needs none,
-- and its own limit on arguments is positive and within the ceiling.
pub load_registry-Trusted :
    (parsers : Parsers) (ceiling : ℕ) (document : RegistryDocument) (entries : List WorkflowEntry)
    → load_registry parsers ceiling document ≡ loaded entries
    → (entries ≡ resolve_document document) × Trusted ceiling entries
unfolding load_registry
load_registry-Trusted parsers ceiling document entries h =
    let clean =
      load_result-loaded (check_rules parsers ceiling document) (resolve_document document) entries
        h in
    (
      clean.1,
      subst (λ es. Trusted ceiling es) (sym clean.1)
          (check_rules-Trusted parsers ceiling document clean.0),
    )
