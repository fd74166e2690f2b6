-- ===== src/Registry/Strict.antt =====
-- How the limits of an overlay that R14 lets through compare with the base's: `check_overlay_rules` of
-- src/n8n_operator/registry/loader.py before `resolve_overlay` of src/n8n_operator/registry/schema.py.
use n8n_operator.Registry.{or_default, r14}
use n8n_operator.Registry.Sound.{unless-append, append-none}
use n8n_operator.Service.Registry.{or_base_option, or_base, resolve_overlay}
use n8n_operator.Registry.Overlays.{
  check_known, check_r13_overlay_field_allowlist, entry_by_id, limits_strengthen_direction,
  raise_only, limit_named, lower_only, overlay_row, WorkflowOverlayEntry, is_allowed, value_at,
  check_overlay_rules, check_r14_overlay_strengthen_only, check_overlays, check_limits,
}
use n8n_operator.Service.Store.Rows.{Limits, WorkflowEntry}
use n8n_operator.Base.{
  sym, text_eq_iff, subst, ap, Bool-cases, [], ◌∷◌, inr, refl, inl, codes, arith, if◌then◌else◌,
  Memᴰ, zero, suc, text_eq, false, ◌⊎◌, true, Text, List, ◌≡◌, ◌≤◌, Bool, Option, ℕ, none, some,
}

-- The second limit is at most the first; no first limit lets any pass.
abbrev pub AtMost : Option ℕ → Option ℕ → Type 0
AtMost none limit = Unit
AtMost (some b) none = ⊥
AtMost (some b) (some v) = v ≤ b

abbrev pub AtLeast : Option ℕ → Option ℕ → Type 0
AtLeast none limit = Unit
AtLeast (some b) none = ⊥
AtLeast (some b) (some v) = b ≤ v

-- `limit or default`: the value that is in force, where 0 counts as no limit.
abbrev pub in_force : ℕ → Option ℕ → ℕ
in_force default (some (suc n)) = suc n
in_force default _ = default

-- A first limit that is set bounds the second, also by what is in force, unless the second is 0.
abbrev pub BoundsInForce : Option ℕ → Option ℕ → Type 0
BoundsInForce base merged =
    AtMost base merged
    × ((default : ℕ)
        → (base ≡ none) ⊎ (merged ≡ some 0) ⊎ (in_force default merged ≤ in_force default base))

-- The second entry's limits, as numbers, are as strict as the first's where that sets them, and it runs
-- unattended only if the first does. The timeout and the size of arguments, which are read as
-- `limit or default`, are also no more in force, unless the second entry has 0 there.
abbrev pub AsStrict : WorkflowEntry → WorkflowEntry → Type 0
AsStrict base merged =
    AtLeast base.limits.approval_ttl_seconds merged.limits.approval_ttl_seconds
    × AtMost base.limits.execution_ttl_seconds merged.limits.execution_ttl_seconds
    × BoundsInForce base.limits.timeout_seconds merged.limits.timeout_seconds
    × (merged.limits.max_concurrent ≤ base.limits.max_concurrent)
    × AtMost base.limits.rate_limit_per_minute merged.limits.rate_limit_per_minute
    × BoundsInForce base.limits.max_argument_bytes merged.limits.max_argument_bytes
    × (base.limits.quorum_count ≤ merged.limits.quorum_count)
    × ((base.is_unattended ≡ true) ⊎ (merged.is_unattended ≡ false))

check_limits-allows :
    (limits : Limits) (id key : Text) (value : ℕ) (kvs : List (Text × ℕ))
    → check_limits limits id kvs ≡ []
    → value_at key kvs ≡ some value
    → is_allowed (value_at key limits_strengthen_direction) (limit_named key limits) value ≡ true
unfolding check_limits value_at
check_limits-allows limits id key value [] h stored = absurd (ground arith)
check_limits-allows limits id key value ((k, v) ∷ kvs) h stored =
    let parts =
      unless-append (is_allowed (value_at k limits_strengthen_direction) (limit_named k limits) v)
        r14 id (check_limits limits id kvs) h in
    elim (Bool-cases (text_eq k key)) [
      | inl same ↦
          let found : some v ≡ some value = rw same at stored in
          let values : v ≡ value = ap (λ x. or_default x v) found in
          subst
            (λ j.
              is_allowed (value_at j limits_strengthen_direction) (limit_named j limits) value
              ≡ true)
            ((text_eq_iff k key).0 same)
            (subst
              (λ x.
                is_allowed (value_at k limits_strengthen_direction) (limit_named k limits) x ≡ true)
              values parts.0)
      | inr other ↦ check_limits-allows limits id key value kvs parts.1 (rw other at stored)
    ]

lowered :
    (base value : Option ℕ)
    → ((v : ℕ) → value ≡ some v → is_allowed (some lower_only) base v ≡ true)
    → AtMost base (or_base_option value base)
lowered none value h = tt
lowered (some b) none h = omega arith
lowered (some b) (some v) h = let ok = h v refl in ground arith

in_force-AtMost :
    (base merged : Option ℕ)
    → AtMost base merged
    → (default : ℕ)
    → (base ≡ none) ⊎ (merged ≡ some 0) ⊎ (in_force default merged ≤ in_force default base)
in_force-AtMost none merged h default = inl refl
in_force-AtMost (some b) none h default = elim h [ ]
in_force-AtMost (some b) (some zero) h default = inr (inl refl)
in_force-AtMost (some zero) (some (suc v)) h default = absurd (omega (arith, h))
in_force-AtMost (some (suc b)) (some (suc v)) h default = inr (inr h)

lowered_in_force :
    (base value : Option ℕ)
    → ((v : ℕ) → value ≡ some v → is_allowed (some lower_only) base v ≡ true)
    → BoundsInForce base (or_base_option value base)
lowered_in_force base value h =
    let bound = lowered base value h in
    (bound, in_force-AtMost base (or_base_option value base) bound)

raised :
    (base value : Option ℕ)
    → ((v : ℕ) → value ≡ some v → is_allowed (some raise_only) base v ≡ true)
    → AtLeast base (or_base_option value base)
raised none value h = tt
raised (some b) none h = omega arith
raised (some b) (some v) h = let ok = h v refl in ground arith

lowered_to :
    (base : ℕ) (value : Option ℕ)
    → ((v : ℕ) → value ≡ some v → is_allowed (some lower_only) (some base) v ≡ true)
    → or_base value base ≤ base
lowered_to b none h = omega arith
lowered_to b (some v) h = let ok = h v refl in ground arith

raised_to :
    (base : ℕ) (value : Option ℕ)
    → ((v : ℕ) → value ≡ some v → is_allowed (some raise_only) (some base) v ≡ true)
    → base ≤ or_base value base
raised_to b none h = omega arith
raised_to b (some v) h = let ok = h v refl in ground arith

gate_kept :
    (unattended required : Bool)
    → (unattended ≡ true) ⊎ ((if required then false else unattended) ≡ false)
gate_kept true required = inl refl
gate_kept false true = inr refl
gate_kept false false = inr refl

resolve_overlay-AsStrict :
    (base : WorkflowEntry) (o : WorkflowOverlayEntry) (environment_id : Text)
    → check_r14_overlay_strengthen_only base o ≡ []
    → AsStrict base (resolve_overlay base (some (overlay_row environment_id o)))
unfolding check_r14_overlay_strengthen_only resolve_overlay overlay_row limit_named value_at text_eq
resolve_overlay-AsStrict base o environment_id h =
    let allows = λ (key : Text) (v : ℕ).
      check_limits-allows base.limits o.workflow_id key v o.limits_override h in
    (
      raised base.limits.approval_ttl_seconds
          (value_at (codes "approval_ttl_seconds") o.limits_override)
          (allows (codes "approval_ttl_seconds")),
      lowered base.limits.execution_ttl_seconds
          (value_at (codes "execution_ttl_seconds") o.limits_override)
          (allows (codes "execution_ttl_seconds")),
      lowered_in_force base.limits.timeout_seconds
          (value_at (codes "timeout_seconds") o.limits_override) (allows (codes "timeout_seconds")),
      lowered_to base.limits.max_concurrent (value_at (codes "max_concurrent") o.limits_override)
          (allows (codes "max_concurrent")),
      lowered base.limits.rate_limit_per_minute
          (value_at (codes "rate_limit_per_minute") o.limits_override)
          (allows (codes "rate_limit_per_minute")),
      lowered_in_force base.limits.max_argument_bytes
          (value_at (codes "max_argument_bytes") o.limits_override)
          (allows (codes "max_argument_bytes")),
      raised_to base.limits.quorum_count (value_at (codes "quorum_count") o.limits_override)
          (allows (codes "quorum_count")),
      gate_kept base.is_unattended o.requires_approval,
    )

check_overlays-member :
    (entries : List WorkflowEntry) (os : List WorkflowOverlayEntry) (o : WorkflowOverlayEntry)
    (base : WorkflowEntry)
    → check_overlays entries os ≡ []
    → Memᴰ o os
    → entry_by_id o.workflow_id entries ≡ some base
    → check_r14_overlay_strengthen_only base o ≡ []
unfolding check_overlays
check_overlays-member entries [] o base h m e = elim m [ ]
check_overlays-member entries (p ∷ os) o base h (Memᴰ.head same) e =
    let first_known =
      (append-none (check_known (entry_by_id p.workflow_id entries) p) (check_overlays entries os)
        h).0 in
    let here : check_known (entry_by_id o.workflow_id entries) o ≡ [] =
      subst (λ q. check_known (entry_by_id q.workflow_id entries) q ≡ []) (sym same) first_known in
    rw e at here
check_overlays-member entries (p ∷ os) o base h (Memᴰ.tail m) e =
    check_overlays-member entries os o base
      (append-none (check_known (entry_by_id p.workflow_id entries) p) (check_overlays entries os)
        h).1
      m e

-- For any overlay of a document in which the rules find nothing, and the base entry of its workflow, with
-- limits that are natural numbers: as numbers, the merged entry's approval time and number of approvers
-- are no less than the base's, and its execution time, timeout, concurrency, rate and size of arguments
-- are no more, each where the base sets it; and it runs unattended only if the base does. For the timeout
-- and the size of arguments, where 0 counts as no limit and a default is taken, the value in force is
-- also no more, where the base sets it and the merged entry does not have 0.
pub check_overlay_rules-AsStrict :
    (base_ids : List Text) (entries : List WorkflowEntry) (overlays : List WorkflowOverlayEntry)
    (o : WorkflowOverlayEntry) (base : WorkflowEntry) (environment_id : Text)
    → check_overlay_rules base_ids entries overlays ≡ []
    → Memᴰ o overlays
    → entry_by_id o.workflow_id entries ≡ some base
    → AsStrict base (resolve_overlay base (some (overlay_row environment_id o)))
unfolding check_overlay_rules
check_overlay_rules-AsStrict base_ids entries overlays o base environment_id h m e =
    resolve_overlay-AsStrict base o environment_id (
      check_overlays-member entries overlays o base
        (append-none (check_r13_overlay_field_allowlist base_ids [] overlays)
          (check_overlays entries overlays) h).1
        m e)
