-- ===== src/Service/Notify/Rows.antt =====
-- The rows of `notification_deliveries`: which row a key names after a row was added or updated.
use n8n_operator.Service.Store.Rows.{Context, NotificationDelivery}
use n8n_operator.Base.{
  ◌++◌, text_eq_iff, text_eq_refl, inr, arith, inl, Bool-cases, some, text_eq, first, ◌≡◌, any,
  Bool, Text, refl, true, false, List, [], ◌∷◌,
}
use n8n_operator.Service.Notify.{
  attempted, Context, is_delivered, NotificationDelivery, update_delivery,
}

abbrev pub has_key : Text → NotificationDelivery → Bool
has_key key n = text_eq n.idempotency_key key

abbrev pub has_row_id : Text → NotificationDelivery → Bool
has_row_id i n = text_eq n.id i

-- The primary key of `notification_deliveries`.
abbrev pub HasDistinctIds : List NotificationDelivery → Type 0
HasDistinctIds [] = Unit
HasDistinctIds (n ∷ ns) = (any (has_row_id n.id) ns ≡ false) × HasDistinctIds ns

first-apart :
    (key i : Text) (ns : List NotificationDelivery) (n : NotificationDelivery)
    → any (has_row_id i) ns ≡ false
    → first (has_key key) ns ≡ some n
    → text_eq n.id i ≡ false
first-apart key i [] n h found = cc
first-apart key i (x ∷ ns) n h found = elim (Bool-cases (has_key key x)) [
  | inl here_it_is ↦ let same : x ≡ n = ground arith in rw (← same) (ground arith)
  | inr other ↦ first-apart key i ns n (ground arith) (ground arith)
]

-- After the update of the row that a key names, the key names the updated row.
pub first-update_delivery :
    (f : NotificationDelivery → NotificationDelivery)
    → ((n : NotificationDelivery) → (f n).idempotency_key ≡ n.idempotency_key)
    → (key : Text) (ns : List NotificationDelivery) (n : NotificationDelivery) → HasDistinctIds ns
    → first (has_key key) ns ≡ some n
    → first (has_key key) (update_delivery n.id f ns) ≡ some (f n)
unfolding update_delivery
first-update_delivery f keeps key [] n k found = cc
first-update_delivery f keeps key (x ∷ ns) n (fresh, k) found = elim (Bool-cases (has_key key x)) [
  | inl here_it_is ↦
      let same : x ≡ n = ground arith in
      rw (← same) (rw (text_eq_refl x.id, keeps x, here_it_is) refl)
  | inr other ↦
      let later : first (has_key key) ns ≡ some n = ground arith in
      let apart : text_eq n.id x.id ≡ false = first-apart key x.id ns n fresh later in
      let apart' : text_eq x.id n.id ≡ false =
        ground (arith, text_eq_iff x.id n.id, text_eq_iff n.id x.id) in
      rw (update_delivery, apart', other) (first-update_delivery f keeps key ns n k later)
]

pub keeps_key :
    (ctx : Context) (b : Bool) (n : NotificationDelivery)
    → (attempted ctx b n).idempotency_key ≡ n.idempotency_key
unfolding attempted
keeps_key ctx true n = refl
keeps_key ctx false n = refl

pub is_done_now :
    (ctx : Context) (n : NotificationDelivery) → is_delivered (attempted ctx true n).status ≡ true
unfolding attempted
is_done_now ctx n = refl

pub first-new_row :
    (key : Text) (ns : List NotificationDelivery) (n : NotificationDelivery)
    → any (has_key key) ns ≡ false
    → n.idempotency_key ≡ key
    → first (has_key key) (ns ++ n ∷ []) ≡ some n
first-new_row key [] n h e = rw (e, text_eq_refl key) refl
first-new_row key (x ∷ ns) n h e = ground (arith, first-new_row key ns n (ground arith) e)

any-append_row :
    (i : Text) (ns : List NotificationDelivery) (n : NotificationDelivery)
    → any (has_row_id i) ns ≡ false
    → text_eq n.id i ≡ false
    → any (has_row_id i) (ns ++ n ∷ []) ≡ false
any-append_row i [] n h e = ground arith
any-append_row i (x ∷ ns) n h e = ground (arith, any-append_row i ns n)

pub HasDistinctIds-append :
    (ns : List NotificationDelivery) (n : NotificationDelivery)
    → HasDistinctIds ns
    → any (has_row_id n.id) ns ≡ false
    → HasDistinctIds (ns ++ n ∷ [])
HasDistinctIds-append [] n k h = (refl, tt)
HasDistinctIds-append (x ∷ ns) n (fresh, k) h = (
  any-append_row x.id ns n fresh (ground (arith, text_eq_iff x.id n.id, text_eq_iff n.id x.id)),
  HasDistinctIds-append ns n k (ground arith),
)
