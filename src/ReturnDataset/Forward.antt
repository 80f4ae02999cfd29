-- ===== src/ReturnDataset/Forward.antt =====
-- load_bars and forward_return of scripts/build_return_dataset.py.
use paper_trading_agent.Base.{
  ℕ, zero, suc, ◌+◌, ◌≤◌, ◌≡◌, refl, ap, sym, ◌∙◌, ◌⊎◌, inl, inr, true, false, ◌||◌, Bool-cases,
  Option, none, some, List, [], ◌∷◌, map, select, drop, ltb, leb, ◌==◌, length, get_elem?, All,
  get_elem?_total, All-get_elem?, count_if-le-length, ok, ◌>>=◌, arith,
}
use paper_trading_agent.Numbers.Ratio.{Ratio}
use paper_trading_agent.Numbers.Sorting.{IsSorted, sorted-IsSorted, All-sorted}
use paper_trading_agent.ReturnDataset.{
  close_for, ordinals_of, bisect, relative_change, return_at, forward_return,
}
use paper_trading_agent.ReturnDataset.Bisect.{earlier_days, leb-IsOrder, none_earlier, bisect_lem}

-- The days from `day` on, in order.
abbrev pub from_day : ℕ → List ℕ → List ℕ
from_day day = select (λ d. leb day d)

from_day-whole :
    (day d : ℕ) (days : List ℕ)
    → day ≤ d
    → All (λ e. leb d e ≡ true) days
    → from_day day days ≡ days
from_day-whole day d [] h hs = refl
from_day-whole day d (e ∷ days) h (k, ks) =
    let late : leb day e ≡ true = ground arith in
    rw late (ap (λ ds. e ∷ ds) (from_day-whole day d days h ks))

from_day-drop :
    (day : ℕ) (days : List ℕ)
    → IsSorted leb days
    → from_day day days ≡ drop (earlier_days day days) days
from_day-drop day [] s = refl
from_day-drop day (d ∷ days) (first, s) = elim (Bool-cases (ltb d day)) [
  | inl early ↦
      (let no : leb day d ≡ false = ground arith in
        let more : 1 + earlier_days day days ≡ suc (earlier_days day days) = omega arith in
        rw no (rw early (from_day-drop day days s ∙ sym (ap (λ n. drop n (d ∷ days)) more))))
  | inr late ↦
      (let yes : leb day d ≡ true = ground arith in
        let none_before : 0 + earlier_days day days ≡ 0 =
          omega (arith, none_earlier day d days (ground arith) first) in
        rw yes (
          rw late (
            ap (λ ds. d ∷ ds) (from_day-whole day d days (ground arith) first)
            ∙ sym (ap (λ n. drop n (d ∷ days)) none_before))))
]

get_elem?-drop {ℓ} :
    {A : Type ℓ} (n k : ℕ) (xs : List A) → get_elem? (drop n xs) k ≡ get_elem? xs (n + k)
get_elem?-drop zero k xs = let same : k ≡ 0 + k = omega arith in ap (get_elem? xs) same
get_elem?-drop (suc n) k [] = refl
get_elem?-drop (suc n) k (x ∷ xs) =
    let same : suc (n + k) ≡ suc n + k = omega arith in
    get_elem?-drop n k xs ∙ ap (get_elem? (x ∷ xs)) same

get_elem?-beyond {ℓ} : {A : Type ℓ} (xs : List A) (i : ℕ) → length xs ≤ i → get_elem? xs i ≡ none
get_elem?-beyond [] i h = refl
get_elem?-beyond (x ∷ xs) zero h = absurd (omega arith)
get_elem?-beyond (x ∷ xs) (suc i) h = get_elem?-beyond xs i (omega arith)

-- Every trading day has a close.
abbrev Known : List (ℕ × ℕ) → ℕ → Type 0
Known closes d = (c : ℕ) × (close_for d closes ≡ some c)

Known-cons :
    (d c : ℕ) (items : List (ℕ × ℕ)) (days : List ℕ)
    → All (Known items) days
    → All (Known ((d, c) ∷ items)) days
Known-cons d c items [] h = tt
Known-cons d c items (e ∷ days) ((k, found), hs) = (
  elim (Bool-cases (d == e)) [ inl same ↦ (c, rw same refl) | inr other ↦ (k, rw other found) ],
  Known-cons d c items days hs,
)

keys-Known : (items : List (ℕ × ℕ)) → All (Known items) (map (λ (item : ℕ × ℕ). item.0) items)
keys-Known [] = tt
keys-Known ((d, c) ∷ items) =
    let here : (d == d) ≡ true = ground arith in
    ((c, rw here refl), Known-cons d c items _ (keys-Known items))

ordinals_of-Known : (items : List (ℕ × ℕ)) → All (Known items) (ordinals_of items)
unfolding ordinals_of
ordinals_of-Known items = All-sorted leb (Known items) _ (keys-Known items)

ordinals_of-IsSorted : (items : List (ℕ × ℕ)) → IsSorted leb (ordinals_of items)
unfolding ordinals_of
ordinals_of-IsSorted items = sorted-IsSorted leb leb-IsOrder _

abbrev pub change_between : Option ℕ → Option ℕ → Option Ratio
change_between none c1 = none
change_between (some c0) none = none
change_between (some c0) (some c1) = relative_change c0 c1

-- The return from the first of the days to the one `horizon` trading days behind it, if there are both.
abbrev pub return_over : List (ℕ × ℕ) → Option ℕ → Option ℕ → Option Ratio
return_over closes none end = none
return_over closes (some d0) none = none
return_over closes (some d0) (some d1) = change_between (close_for d0 closes) (close_for d1 closes)

no_end : (closes : List (ℕ × ℕ)) (e : Option ℕ) → return_over closes e none ≡ none
no_end closes none = refl
no_end closes (some d) = refl

List-cases {ℓ} : {A : Type ℓ} (xs : List A) → (xs ≡ []) ⊎ ((x : A) × (ys : List A) × (xs ≡ x ∷ ys))
List-cases [] = inl refl
List-cases (x ∷ xs) = inr (x, xs, refl)

return_at_lem :
    (closes : List (ℕ × ℕ)) (days : List ℕ) (lo horizon : ℕ)
    → All (Known closes) days
    → return_at closes days lo horizon
      ≡ ok (return_over closes (get_elem? days lo) (get_elem? days (lo + horizon)))
unfolding return_at
return_at_lem closes days lo horizon known = elim (Bool-cases (ltb (lo + horizon) (length days))) [
  | inr short ↦
      (let out : (leb (length days) lo || leb (length days) (lo + horizon)) ≡ true = ground arith in
        let beyond = get_elem?-beyond days (lo + horizon) (ground arith) in
        rw out (
          sym (
            ap (λ e. ok (return_over closes (get_elem? days lo) e)) beyond
            ∙ ap ok (no_end closes (get_elem? days lo)))))
  | inl long ↦
      (let within : (leb (length days) lo || leb (length days) (lo + horizon)) ≡ false =
          ground arith in
        let (d0, e0) = get_elem?_total days lo (ground arith) in
        let (d1, e1) = get_elem?_total days (lo + horizon) (ground arith) in
        let (c0, k0) = All-get_elem? (Known closes) days lo known e0 in
        let (c1, k1) = All-get_elem? (Known closes) days (lo + horizon) known e1 in
        rw within (rw e0 (rw e1 (rw k0 (rw k1 refl)))))
]

return_at_days :
    (closes : List (ℕ × ℕ)) (days : List ℕ) (day horizon : ℕ)
    → All (Known closes) days
    → IsSorted leb days
    → (bisect days day (length days) 0 (length days) >>= λ lo. return_at closes days lo horizon)
      ≡ ok (
          return_over closes
            (get_elem? (from_day day days) 0)
            (get_elem? (from_day day days) horizon))
return_at_days closes days day horizon known s =
    let n = earlier_days day days in
    let found =
      bisect_lem days day (length days) 0 (length days) s (omega arith)
        (count_if-le-length (λ d. ltb d day) days) (omega arith) (omega arith) in
    let at : (k : ℕ) → get_elem? (from_day day days) k ≡ get_elem? days (n + k) =
      λ k. ap (λ ds. get_elem? ds k) (from_day-drop day days s) ∙ get_elem?-drop n k days in
    let first : get_elem? days (n + 0) ≡ get_elem? days n = ap (get_elem? days) (omega arith) in
    rw found (
      return_at_lem closes days n horizon known
      ∙ ap (λ e. ok (return_over closes e (get_elem? days (n + horizon)))) (sym (at 0 ∙ first))
      ∙ ap (λ e. ok (return_over closes (get_elem? (from_day day days) 0) e)) (sym (at horizon)))

-- The bisection always ends within as many rounds as there are trading days, and no day lacks a close: the
-- return is that from the close of the first trading day not before `day` to the close `horizon`
-- trading days later, and there is none where there are too few days or where the first close is zero.
pub forward_return_lem :
    (closes : List (ℕ × ℕ)) (day horizon : ℕ)
    → let days = from_day day (ordinals_of closes) in
      forward_return closes day horizon
      ≡ ok (return_over closes (get_elem? days 0) (get_elem? days horizon))
unfolding forward_return
forward_return_lem closes day horizon = elim (List-cases (ordinals_of closes)) [
  | inl e ↦ rw e refl
  | inr (d, days, e) ↦
      (let some_day : (length (ordinals_of closes) == 0) ≡ false = rw e (ground arith) in
        rw some_day (
          return_at_days closes (ordinals_of closes) day horizon (ordinals_of-Known closes)
            (ordinals_of-IsSorted closes)))
]
