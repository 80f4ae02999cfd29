-- ===== src/Outcomes/Updates.antt =====
-- What an UPDATE of one row by its id does to the selections from a table with distinct ids.
use paper_trading_agent.Base.{
  ℕ, suc, ◌+◌, ◌≤◌, ◌<◌, ◌≡◌, refl, ap, ◌∙◌, sym, subst, inl, inr, Bool, true, false, List, [], ◌∷◌,
  ◌++◌, ◌==◌, if◌then◌else◌, Bool-cases, select, select_hit, select_miss, cons_injective, All,
  arith, ℤ, pos, ◌+ℤ◌, int_laws, same_parts,
}
use paper_trading_agent.Outcomes.{Row, update_where}

eq_self : (n : ℕ) → (n == n) ≡ true
eq_self n = ground arith

ne_of_lt : (m n : ℕ) → m < n → (m == n) ≡ false
ne_of_lt m n h = ground arith

-- The ids rise strictly from `low` on and stay below `next`.
abbrev pub IdsRise : ℕ → ℕ → List Row → Type 0
IdsRise low next [] = low ≤ next
IdsRise low next (r ∷ rs) = (low ≤ r.id) × IdsRise (suc r.id) next rs

-- An INSERT with the next id keeps the ids rising.
pub IdsRise-append :
    (low next : ℕ) (rs : List Row) (r : Row)
    → r.id ≡ next
    → IdsRise low next rs
    → IdsRise low (next + 1) (rs ++ r ∷ [])
IdsRise-append low next [] r e i = omega arith
IdsRise-append low next (x ∷ xs) r e (i, is) = (i, IdsRise-append (suc x.id) next xs r e is)

pub IdsRise-update :
    (id : ℕ) (f : Row → Row) (low next : ℕ) (rs : List Row)
    → ((r : Row) → (f r).id ≡ r.id)
    → IdsRise low next rs
    → IdsRise low next (update_where id f rs)
unfolding update_where
IdsRise-update id f low next [] k i = i
IdsRise-update id f low next (r ∷ rs) k (i, is) = elim (Bool-cases (r.id == id)) [
  | inl e ↦ rw e (rw (k r) (i, IdsRise-update id f (suc r.id) next rs k is))
  | inr e ↦ rw e (i, IdsRise-update id f (suc r.id) next rs k is)
]

-- No row below the first id is touched.
update_absent :
    (id : ℕ) (f : Row → Row) (low next : ℕ) (rs : List Row)
    → id < low
    → IdsRise low next rs
    → update_where id f rs ≡ rs
unfolding update_where
update_absent id f low next [] h i = refl
update_absent id f low next (r ∷ rs) h (i, is) =
    ground (arith, update_absent id f (suc r.id) next rs (omega arith) is)

-- A selected row has an id of the table.
selected_id :
    (p : Row → Bool) (low next : ℕ) (rs : List Row) {l : Row} {ls : List Row}
    → IdsRise low next rs
    → select p rs ≡ l ∷ ls
    → low ≤ l.id
selected_id p low next [] i e = cc
selected_id p low next (r ∷ rs) (i, is) e = elim (Bool-cases (p r)) [
  | inl h ↦ subst (λ (x : Row). low ≤ x.id) (cons_injective (sym (select_hit p r rs h) ∙ e)).0 i
  | inr h ↦ omega (arith, selected_id p (suc r.id) next rs is (sym (select_miss p r rs h) ∙ e))
]

-- The lot that stands first in a selection is updated: it stays in front if it is still selected, and
-- is gone otherwise, and the rest of the selection is untouched.
pub select-update_first :
    (p : Row → Bool) (f : Row → Row) (low next : ℕ) (rs : List Row) {l : Row} {ls : List Row}
    → IdsRise low next rs
    → select p rs ≡ l ∷ ls
    → select p (update_where l.id f rs) ≡ (if p (f l) then f l ∷ ls else ls)
unfolding update_where
select-update_first p f low next [] i e = cc
select-update_first p f low next (r ∷ rs) {l = l} {ls = ls} (i, is) e = elim (Bool-cases (p r)) [
  | inl h ↦
      (let (same, rest) = cons_injective (sym (select_hit p r rs h) ∙ e) in
        subst
          (λ (x : Row).
            select p (update_where x.id f (r ∷ rs)) ≡ (if p (f x) then f x ∷ ls else ls))
          same
          (rw (eq_self r.id)
            (rw (update_absent r.id f (suc r.id) next rs (omega arith) is) (rw rest refl))))
  | inr h ↦
      (let e' = sym (select_miss p r rs h) ∙ e in
        let below = selected_id p (suc r.id) next rs is e' in
        rw (ne_of_lt r.id l.id below) (rw h (select-update_first p f (suc r.id) next rs is e')))
]

-- A selection that holds the lot neither before nor after is untouched.
pub select-update_other :
    (p q : Row → Bool) (f : Row → Row) (low next : ℕ) (rs : List Row) {l : Row} {ls : List Row}
    → IdsRise low next rs
    → select p rs ≡ l ∷ ls
    → q l ≡ false
    → q (f l) ≡ false
    → select q (update_where l.id f rs) ≡ select q rs
unfolding update_where
select-update_other p q f low next [] i e n n' = refl
select-update_other p q f low next (r ∷ rs) {l = l} {ls = ls} (i, is) e n n' =
    elim (Bool-cases (p r)) [
      | inl h ↦
          (let same = (cons_injective (sym (select_hit p r rs h) ∙ e)).0 in
            let nr : q r ≡ false = rw same n in
            let nfr : q (f r) ≡ false = rw same n' in
            subst (λ (x : Row). select q (update_where x.id f (r ∷ rs)) ≡ select q (r ∷ rs)) same
              (rw (eq_self r.id) (
                rw (update_absent r.id f (suc r.id) next rs (omega arith) is) (rw (nr, nfr) refl))))
      | inr h ↦
          (let e' = sym (select_miss p r rs h) ∙ e in
            let below = selected_id p (suc r.id) next rs is e' in
            let rest = select-update_other p q f (suc r.id) next rs is e' n n' in
            rw (ne_of_lt r.id l.id below) (ap (λ xs. if q r then r ∷ xs else xs) rest))
    ]

-- A sum over the rows changes by what the updated row adds.
unfoldable pub sum_by : (Row → ℤ) → List Row → ℤ
sum_by g [] = pos 0
sum_by g (r ∷ rs) = g r +ℤ sum_by g rs

pub sum_by-append :
    (g : Row → ℤ) (xs ys : List Row) → sum_by g (xs ++ ys) ≡ sum_by g xs +ℤ sum_by g ys
unfolding sum_by
sum_by-append g [] ys = omega int_laws
sum_by-append g (x ∷ xs) ys = omega (int_laws, same_parts (sum_by-append g xs ys))

pub sum_by-update_first :
    (g : Row → ℤ) (p : Row → Bool) (f : Row → Row) (low next : ℕ) (rs : List Row) {l : Row}
    {ls : List Row}
    → IdsRise low next rs
    → select p rs ≡ l ∷ ls
    → sum_by g (update_where l.id f rs) +ℤ g l ≡ sum_by g rs +ℤ g (f l)
unfolding update_where sum_by
sum_by-update_first g p f low next [] i e = cc
sum_by-update_first g p f low next (r ∷ rs) {l = l} {ls = ls} (i, is) e = elim (Bool-cases (p r)) [
  | inl h ↦
      (let same = (cons_injective (sym (select_hit p r rs h) ∙ e)).0 in
        subst
          (λ (x : Row).
            sum_by g (update_where x.id f (r ∷ rs)) +ℤ g x ≡ sum_by g (r ∷ rs) +ℤ g (f x))
          same
          (rw (eq_self r.id)
            (rw (update_absent r.id f (suc r.id) next rs (omega arith) is) (omega int_laws))))
  | inr h ↦
      (let e' = sym (select_miss p r rs h) ∙ e in
        let below = selected_id p (suc r.id) next rs is e' in
        rw (ne_of_lt r.id l.id below)
          (omega (int_laws, same_parts (sum_by-update_first g p f (suc r.id) next rs is e'))))
]

pub selected_passes :
    (p : Row → Bool) (rs : List Row) {l : Row} {ls : List Row} → select p rs ≡ l ∷ ls → p l ≡ true
selected_passes p [] e = cc
selected_passes p (r ∷ rs) e = elim (Bool-cases (p r)) [
  | inl h ↦ subst (λ x. p x ≡ true) (cons_injective (sym (select_hit p r rs h) ∙ e)).0 h
  | inr h ↦ selected_passes p rs (sym (select_miss p r rs h) ∙ e)
]

-- All rows were opened no later than this instant.
abbrev pub OpenedBy : ℕ → List Row → Type 0
OpenedBy time rows = All (λ (r : Row). r.opened_at ≤ time) rows

pub OpenedBy-update :
    (time id : ℕ) (f : Row → Row) (rows : List Row)
    → ((r : Row) → (f r).opened_at ≡ r.opened_at)
    → OpenedBy time rows
    → OpenedBy time (update_where id f rows)
unfolding update_where
OpenedBy-update time id f [] k h = tt
OpenedBy-update time id f (r ∷ rs) k (h, hs) = elim (Bool-cases (r.id == id)) [
  | inl e ↦ rw e (rw (k r) h, OpenedBy-update time id f rs k hs)
  | inr e ↦ rw e (h, OpenedBy-update time id f rs k hs)
]
