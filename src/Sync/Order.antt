-- ===== src/Sync/Order.antt =====
-- The rows that are still to be sent, in their order, before and after the cursor has moved.
use panel_agent.Common.{
  subst, ℕ, zero, suc, ◌-◌, ◌≤◌, ◌<◌, ◌≡◌, refl, sym, inl, inr, true, false, some, List, [], ◌∷◌,
  length, take, drop, keep, last?, arith, Bool-cases,
}
use panel_agent.Runtime.{AuditRow}
use panel_agent.Sync.{insert_row, sort_rows, is_after}

-- Moving the cursor forward does not change the order of what is left.
keep-insert_row :
    (t : ℕ) (r : AuditRow) (rows : List AuditRow)
    → keep (is_after t) (insert_row r rows) ≡ elim (is_after t r) as (λ _. List AuditRow) [
      | true ↦ insert_row r (keep (is_after t) rows)
      | false ↦ keep (is_after t) rows
    ]
unfolding insert_row
keep-insert_row t r [] = ground arith
keep-insert_row t r (q ∷ qs) = ground (arith, keep-insert_row t r qs)

pub keep-sort_rows :
    (t : ℕ) (rows : List AuditRow)
    → keep (is_after t) (sort_rows rows) ≡ sort_rows (keep (is_after t) rows)
unfolding sort_rows
keep-sort_rows t [] = refl
keep-sort_rows t (r ∷ rs) = ground (arith, keep-insert_row t r (sort_rows rs), keep-sort_rows t rs)

pub keep-keep :
    (c t : ℕ) (rows : List AuditRow)
    → c ≤ t
    → keep (is_after t) (keep (is_after c) rows) ≡ keep (is_after t) rows
keep-keep c t [] h = refl
keep-keep c t (r ∷ rs) h = ground (arith, keep-keep c t rs h)

-- Each row is at or after the time, and the rows do not go back in time.
abbrev pub SortedFrom : ℕ → List AuditRow → Type 0
SortedFrom t [] = Unit
SortedFrom t (r ∷ rs) = (t ≤ r.created_at) × SortedFrom r.created_at rs

insert_row-SortedFrom :
    (t : ℕ) (r : AuditRow) (rows : List AuditRow)
    → t ≤ r.created_at
    → SortedFrom t rows
    → SortedFrom t (insert_row r rows)
unfolding insert_row
insert_row-SortedFrom t r [] h k = (h, tt)
insert_row-SortedFrom t r (q ∷ qs) h k =
    ground
      (arith, λ (p : q.created_at ≤ r.created_at). insert_row-SortedFrom q.created_at r qs p k.1)

kept_first :
    (t : ℕ) (r : AuditRow) (rows : List AuditRow)
    → is_after t r ≡ true
    → keep (is_after t) (r ∷ rows) ≡ r ∷ keep (is_after t) rows
kept_first t r rows h = ground arith

dropped_first :
    (t : ℕ) (r : AuditRow) (rows : List AuditRow)
    → is_after t r ≡ false
    → keep (is_after t) (r ∷ rows) ≡ keep (is_after t) rows
dropped_first t r rows h = ground arith

pub sort_rows-SortedFrom :
    (t : ℕ) (rows : List AuditRow) → SortedFrom t (sort_rows (keep (is_after t) rows))
unfolding sort_rows
sort_rows-SortedFrom t [] = tt
sort_rows-SortedFrom t (r ∷ rs) = elim (Bool-cases (is_after t r)) [
  | inl later ↦
      subst (λ kept. SortedFrom t (sort_rows kept)) (sym (kept_first t r rs later))
        (insert_row-SortedFrom t r (sort_rows (keep (is_after t) rs)) (ground arith)
          (sort_rows-SortedFrom t rs))
  | inr before ↦
      subst (λ kept. SortedFrom t (sort_rows kept)) (sym (dropped_first t r rs before))
        (sort_rows-SortedFrom t rs)
]

-- The last row of a batch is not before the time that the rows begin at.
pub last?-take-le :
    (k t : ℕ) (rows : List AuditRow) {x : AuditRow}
    → SortedFrom t rows
    → last? (take k rows) ≡ some x
    → t ≤ x.created_at
last?-take-le zero t rows s h = absurd (ground arith)
last?-take-le (suc k) t [] s h = absurd (ground arith)
last?-take-le (suc zero) t (r ∷ rs) s h = ground arith
last?-take-le (suc (suc k)) t (r ∷ []) s h = ground arith
last?-take-le (suc (suc k)) t (r ∷ q ∷ qs) {x} s h =
    ground (arith, last?-take-le (suc k) r.created_at (q ∷ qs) {x = x} s.1 h)

-- A batch is not sent again.
pub keep-drop :
    (k t : ℕ) (rows : List AuditRow) {x : AuditRow}
    → SortedFrom t rows
    → last? (take k rows) ≡ some x
    → keep (is_after x.created_at) rows ≡ keep (is_after x.created_at) (drop k rows)
keep-drop zero t rows s h = refl
keep-drop (suc k) t [] s h = refl
keep-drop (suc zero) t (r ∷ rs) s h = ground arith
keep-drop (suc (suc k)) t (r ∷ []) s h = ground arith
keep-drop (suc (suc k)) t (r ∷ q ∷ qs) {x} s h = ground (
  arith,
  last?-take-le (suc k) r.created_at (q ∷ qs) {x = x} s.1 h,
  keep-drop (suc k) r.created_at (q ∷ qs) {x = x} s.1 h,
)

length-keep-le : (t : ℕ) (rows : List AuditRow) → length (keep (is_after t) rows) ≤ length rows
length-keep-le t [] = omega arith
length-keep-le t (r ∷ rs) = ground (arith, length-keep-le t rs)

pub length-drop : (k : ℕ) (rows : List AuditRow) → length (drop k rows) ≡ length rows - k
length-drop zero rows = omega arith
length-drop (suc k) [] = omega arith
length-drop (suc k) (r ∷ rs) = omega (arith, length-drop k rs)

pub length-keep-drop :
    (k t : ℕ) (rows : List AuditRow) → length (keep (is_after t) (drop k rows)) ≤ length rows - k
length-keep-drop k t rows = omega (arith, length-keep-le t (drop k rows), length-drop k rows)

-- Each row is after the time, and the rows move forward in time.
abbrev pub StrictFrom : ℕ → List AuditRow → Type 0
StrictFrom t [] = Unit
StrictFrom t (r ∷ rs) = (t < r.created_at) × StrictFrom r.created_at rs

keep-StrictFrom :
    (c t : ℕ) (rows : List AuditRow) → c ≤ t → StrictFrom t rows → keep (is_after c) rows ≡ rows
keep-StrictFrom c t [] h s = refl
keep-StrictFrom c t (r ∷ rs) h s =
    ground (arith, keep-StrictFrom c r.created_at rs (omega (arith, s.0)) s.1)

-- If no two rows have the same time, no row is left out between two batches.
pub keep-drop-StrictFrom :
    (k t : ℕ) (rows : List AuditRow) {x : AuditRow}
    → StrictFrom t rows
    → last? (take k rows) ≡ some x
    → keep (is_after x.created_at) (drop k rows) ≡ drop k rows
keep-drop-StrictFrom zero t rows s h = absurd (ground arith)
keep-drop-StrictFrom (suc k) t [] s h = refl
keep-drop-StrictFrom (suc zero) t (r ∷ rs) {x} s h =
    keep-StrictFrom x.created_at r.created_at rs (ground arith) s.1
keep-drop-StrictFrom (suc (suc k)) t (r ∷ []) s h = refl
keep-drop-StrictFrom (suc (suc k)) t (r ∷ q ∷ qs) {x} s h =
    keep-drop-StrictFrom (suc k) r.created_at (q ∷ qs) {x = x} s.1 h

-- What comes after a batch is after its last row.
pub drop-StrictFrom :
    (k t : ℕ) (rows : List AuditRow) {x : AuditRow}
    → StrictFrom t rows
    → last? (take k rows) ≡ some x
    → StrictFrom x.created_at (drop k rows)
drop-StrictFrom zero t rows s h = absurd (ground arith)
drop-StrictFrom (suc k) t [] s h = tt
drop-StrictFrom (suc zero) t (r ∷ rs) {x} s h =
    let same : r.created_at ≡ x.created_at = ground arith in
    subst (λ (c : ℕ). StrictFrom c rs) same s.1
drop-StrictFrom (suc (suc k)) t (r ∷ []) s h = tt
drop-StrictFrom (suc (suc k)) t (r ∷ q ∷ qs) {x} s h =
    drop-StrictFrom (suc k) r.created_at (q ∷ qs) {x = x} s.1 h
