-- ===== src/Audit/Paging.antt =====
-- `AuditLogRepository.list_range` and `list_all` (src/n8n_operator/storage/repository.py): the
-- whole log is read in pages.
use n8n_operator.Base.{
  ℕ, zero, suc, ◌≤◌, ◌<◌, ◌≡◌, refl, Option, none, some, List, [], ◌∷◌, ◌++◌, ◌∙◌, ap, sym, keep,
  length, leb, ltb, if◌then◌else◌, ◌==◌, arith,
}
use mathlib.Core.List.{append_assoc}
use n8n_operator.Audit.Chain.{AuditEntry}

-- `rows[-1].seq + 1`, or `n` where there is no row
abbrev pub next_seq : ℕ → List AuditEntry → ℕ
next_seq n [] = n
next_seq n (e ∷ es) = next_seq (suc e.seq) es

abbrev take : ℕ → List AuditEntry → List AuditEntry
take zero xs = []
take (suc n) [] = []
take (suc n) (x ∷ xs) = x ∷ take n xs

-- `seq >= start_seq`, in the order of `seq`, at most `limit` rows
unfoldable pub list_range : ℕ → ℕ → List AuditEntry → List AuditEntry
list_range start_seq limit log = take limit (keep (λ e. leb start_seq e.seq) log)

-- The loop of `list_all`; each round that goes on has read a full page.
list_pages : ℕ → ℕ → ℕ → List AuditEntry → Option (List AuditEntry)
list_pages zero start_seq page_size log = none
list_pages (suc fuel) start_seq page_size log =
    let page = list_range start_seq page_size log in
    let rest = list_pages fuel (next_seq start_seq page) page_size log in
    if length page == 0
    then some []
    else if ltb (length page) page_size
    then some page
    else elim rest [ none ↦ none | some more ↦ some (page ++ more) ]

unfoldable pub list_all : ℕ → List AuditEntry → Option (List AuditEntry)
unfolding list_pages list_range
list_all page_size log = list_pages (suc (length log)) 1 page_size log

-- The order that the table's primary key gives.
abbrev pub IsSequenced : ℕ → List AuditEntry → Type 0
IsSequenced n [] = Unit
IsSequenced n (e ∷ es) = (n ≤ e.seq) × IsSequenced (suc e.seq) es

-- The log as the rows read so far, and those that are to come.
abbrev drop : ℕ → List AuditEntry → List AuditEntry
drop zero xs = xs
drop (suc n) [] = []
drop (suc n) (x ∷ xs) = drop n xs

le-next_seq : (n : ℕ) (es : List AuditEntry) → IsSequenced n es → n ≤ next_seq n es
le-next_seq n [] s = omega arith
le-next_seq n (e ∷ es) (le, s) = omega (arith, le-next_seq (suc e.seq) es s)

IsSequenced-append :
    (n : ℕ) (front back : List AuditEntry)
    → IsSequenced n (front ++ back)
    → IsSequenced n front × IsSequenced (next_seq n front) back
IsSequenced-append n [] back s = (tt, s)
IsSequenced-append n (e ∷ front) back (le, s) =
    let (p, q) = IsSequenced-append (suc e.seq) front back s in ((le, p), q)

keep_all :
    (n k : ℕ) (es : List AuditEntry) → IsSequenced n es → k ≤ n → keep (λ e. leb k e.seq) es ≡ es
keep_all n k [] s h = refl
keep_all n k (e ∷ es) (le, s) h = ground (arith, keep_all (suc e.seq) k es s)

-- What is left to read after the rows `read`.
keep_rest :
    (n : ℕ) (read rest : List AuditEntry)
    → IsSequenced n (read ++ rest)
    → keep (λ e. leb (next_seq n read) e.seq) (read ++ rest) ≡ rest
keep_rest n [] rest s = keep_all n n rest s (omega arith)
keep_rest n (e ∷ read) rest (le, s) =
    let below = le-next_seq (suc e.seq) read (IsSequenced-append (suc e.seq) read rest s).0 in
    ground (arith, keep_rest (suc e.seq) read rest s, below)

take-append-drop : (n : ℕ) (xs : List AuditEntry) → take n xs ++ drop n xs ≡ xs
take-append-drop zero xs = refl
take-append-drop (suc n) [] = refl
take-append-drop (suc n) (x ∷ xs) = rw (take-append-drop n xs)

length-drop-le : (n : ℕ) (xs : List AuditEntry) → length (drop n xs) ≤ length xs
length-drop-le zero xs = omega arith
length-drop-le (suc n) [] = omega arith
length-drop-le (suc n) (x ∷ xs) = omega (arith, length-drop-le n xs)

take_all : (n : ℕ) (xs : List AuditEntry) → length (take n xs) < n → take n xs ≡ xs
take_all zero xs h = absurd (omega arith)
take_all (suc n) [] h = refl
take_all (suc n) (x ∷ xs) h = rw (take_all n xs (omega arith))

next_seq-append :
    (n : ℕ) (front back : List AuditEntry)
    → next_seq n (front ++ back) ≡ next_seq (next_seq n front) back
next_seq-append n [] back = refl
next_seq-append n (e ∷ front) back = next_seq-append (suc e.seq) front back

list_range-rest :
    (n : ℕ) (read rest : List AuditEntry)
    → IsSequenced 1 (read ++ rest)
    → list_range (next_seq 1 read) n (read ++ rest) ≡ take n rest
unfolding list_range
list_range-rest n read rest s = rw (keep_rest 1 read rest s)

module _ (k : ℕ) where
  -- The rounds left, and a log of which the rows `read` have been read.
  abbrev ReadsRest : ℕ → List AuditEntry → List AuditEntry → List AuditEntry → Type 0
  ReadsRest fuel log read rest =
      log ≡ read ++ rest
      → length rest < fuel
      → list_pages fuel (next_seq 1 read) (suc k) log ≡ some rest

  ReadsRest-step :
      (fuel : ℕ) (log read : List AuditEntry) (x : AuditEntry) (xs : List AuditEntry)
      → IsSequenced 1 log
      → ReadsRest fuel log (read ++ x ∷ take k xs) (drop k xs)
      → ReadsRest (suc fuel) log read (x ∷ xs)
  unfolding list_pages
  ReadsRest-step fuel log read x xs s ih e h =
      let page : List AuditEntry = x ∷ take k xs in
      let whole : page ++ drop k xs ≡ x ∷ xs = rw (take-append-drop k xs) in
      let again : list_pages fuel (next_seq (next_seq 1 read) page) (suc k) log ≡ some (drop k xs) =
        rw (← next_seq-append 1 read page) (
          ih (e ∙ ap (λ t. read ++ t) (sym whole) ∙ sym (append_assoc read page (drop k xs)))
            (omega (arith, length-drop-le k xs))) in
      let read_page : list_range (next_seq 1 read) (suc k) log ≡ page =
        rw e (list_range-rest (suc k) read (x ∷ xs) (rw e at s)) in
      rw read_page (ground (arith, again, take_all k xs, whole))

  list_pages-rest :
      (fuel : ℕ) (log read rest : List AuditEntry)
      → IsSequenced 1 log
      → ReadsRest fuel log read rest
  unfolding list_pages
  list_pages-rest zero log read rest s e h = absurd (omega arith)
  list_pages-rest (suc fuel) log read [] s e h =
      let read_page : list_range (next_seq 1 read) (suc k) log ≡ [] =
        rw e (list_range-rest (suc k) read [] (rw e at s)) in
      rw read_page
  list_pages-rest (suc fuel) log read (x ∷ xs) s e h =
      ReadsRest-step fuel log read x xs s
        (list_pages-rest fuel log (read ++ x ∷ take k xs) (drop k xs) s) e h

-- With pages of at least one row, reading page by page ends and returns the whole log, if the
-- rows are in strictly rising order of a `seq` that starts at 1 or later.
pub list_all_lem :
    (page_size : ℕ) (log : List AuditEntry)
    → 0 < page_size
    → IsSequenced 1 log
    → list_all page_size log ≡ some log
unfolding list_all
list_all_lem zero log h s = absurd (omega arith)
list_all_lem (suc k) log h s = list_pages-rest k (suc (length log)) log [] log s refl (omega arith)
