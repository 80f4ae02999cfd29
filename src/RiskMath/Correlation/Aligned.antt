-- ===== src/RiskMath/Correlation/Aligned.antt =====
-- aligned_returns of app/agent/risk_math.py: its series and their dates.
use mathlib.Core.Option.{some-injective}
use paper_trading_agent.Base.{
  ℕ, zero, suc, ◌-◌, ◌<◌, ◌≡◌, ◌↔◌, ◌⊎◌, none, Result, Result-cases, err, count_if, refl, ap, sym,
  subst, ◌∙◌, inl, inr, Bool, true, false, Option, some, List, [], ◌∷◌, length, leb, ==_iff, ◌==◌,
  Bool-cases, Option-cases, All, All-weaken, select, ok, OnEnd, OnEnd->>=, All-selected, All-select,
  arith,
}
use paper_trading_agent.Base.Dict.{get_item_total, holds_key}
use paper_trading_agent.Numbers.Ratio.{Ratio}
use paper_trading_agent.Numbers.Sorting.{
  sorted, All-sorted, count_if-sorted, IsSorted, IsOrder, sorted-IsSorted,
}
use paper_trading_agent.State.{Symbol}
use paper_trading_agent.RiskMath.{simple_return, simple_returns}
use paper_trading_agent.RiskMath.Correlation.{
  MathError, zero_division, Closes, close_at, has_day, same_day, dates_in, in_all, common_days,
  closes_on, align, aligned_returns,
}

-- A mapping has a close for each of the days.
abbrev pub Covers : List ℕ → Closes → Type 0
Covers days closes = All (λ d. has_day d closes ≡ true) days

-- The closes on the days, in their order.
abbrev pub ClosesOn : List ℕ → Closes → List ℕ → Type 0
ClosesOn [] closes [] = Unit
ClosesOn [] closes (c ∷ cs) = ⊥
ClosesOn (d ∷ ds) closes [] = ⊥
ClosesOn (d ∷ ds) closes (c ∷ cs) = (close_at d closes ≡ some c) × ClosesOn ds closes cs

closes_on_total :
    (days : List ℕ) (closes : Closes)
    → Covers days closes
    → (cs : List ℕ) × (closes_on days closes ≡ ok cs) × ClosesOn days closes cs
unfolding closes_on
closes_on_total [] closes h = ([], refl, tt)
closes_on_total (d ∷ ds) closes (h, hs) =
    let (c, found) = get_item_total same_day d closes h in
    let (cs, e, there) = closes_on_total ds closes hs in
    (c ∷ cs, rw found (rw e refl), (found, there))

length-ClosesOn :
    (days : List ℕ) (closes : Closes) (cs : List ℕ)
    → ClosesOn days closes cs
    → length cs ≡ length days
length-ClosesOn [] closes [] h = refl
length-ClosesOn [] closes (c ∷ cs) h = absurd h
length-ClosesOn (d ∷ ds) closes [] h = absurd h
length-ClosesOn (d ∷ ds) closes (c ∷ cs) (h, hs) = ap suc (length-ClosesOn ds closes cs hs)

pub length-simple_returns :
    (cs : List ℕ) {rs : List Ratio} → simple_returns cs ≡ some rs → length rs ≡ length cs - 1
unfolding simple_returns
length-simple_returns [] e = ap length (sym (some-injective _ _ e))
length-simple_returns (c ∷ []) e = ap length (sym (some-injective _ _ e))
length-simple_returns (c ∷ d ∷ cs) {rs} e = elim (Option-cases (simple_return c d)) [
  | inl missing ↦ ground arith
  | inr (r, found) ↦ elim (Option-cases (simple_returns (d ∷ cs))) [
    | inl missing ↦ ground arith
    | inr (rest, later) ↦
        (let same : ◌≡◌ {A = Option (List Ratio)} (some (r ∷ rest)) (some rs) = ground arith in
          let tail = length-simple_returns (d ∷ cs) later in
          omega (arith, tail, ap length (some-injective _ _ same)))
  ]
]

has_day_of_rest :
    (d c day : ℕ) (closes : Closes)
    → has_day day closes ≡ true
    → has_day day ((d, c) ∷ closes) ≡ true
unfolding holds_key
has_day_of_rest d c day closes h = ground (arith, h)

dates_in-Covers : (closes : Closes) → Covers (dates_in closes) closes
unfolding holds_key
dates_in-Covers [] = tt
dates_in-Covers ((d, c) ∷ closes) = (
  ground arith,
  All-weaken (dates_in closes) (λ day h. has_day_of_rest d c day closes h) (dates_in-Covers closes),
)

in_all-Covers :
    (days : List ℕ) (rest : List (Symbol × Closes))
    → All (λ d. in_all rest d ≡ true) days
    → All (λ (e : Symbol × Closes). Covers days e.1) rest
unfolding in_all
in_all-Covers days [] h = tt
in_all-Covers days ((s, closes) ∷ rest) h = (
  All-weaken days (λ d k. ground (arith, k)) h,
  in_all-Covers days rest (All-weaken days (λ d k. ground (arith, k)) h),
)

common_days-Covers :
    (entries : List (Symbol × Closes))
    → All (λ (e : Symbol × Closes). Covers (common_days entries) e.1) entries
unfolding common_days
common_days-Covers [] = tt
common_days-Covers ((s, closes) ∷ rest) = (
  All-select (λ d. has_day d closes ≡ true) (in_all rest) (dates_in closes)
      (dates_in-Covers closes),
  in_all-Covers (select (in_all rest) (dates_in closes)) rest
      (All-selected (λ d. in_all rest d ≡ true) (in_all rest) (dates_in closes) (λ d h. h)),
)

-- The days that every mapping has a close for, in their order.
abbrev pub shared_days : List (Symbol × Closes) → List ℕ
shared_days entries = sorted leb (common_days entries)

All-sorted_days :
    (days : List ℕ) (entries : List (Symbol × Closes))
    → All (λ (e : Symbol × Closes). Covers days e.1) entries
    → All (λ (e : Symbol × Closes). Covers (sorted leb days) e.1) entries
All-sorted_days days [] h = tt
All-sorted_days days ((s, closes) ∷ rest) (h, hs) =
    (All-sorted leb (λ d. has_day d closes ≡ true) days h, All-sorted_days days rest hs)

-- Each symbol's series: the returns of its closes on the days.
abbrev pub Aligned : List ℕ → List (Symbol × Closes) → List (Symbol × List Ratio) → Type 0
Aligned days [] [] = Unit
Aligned days [] (r ∷ rest) = ⊥
Aligned days (e ∷ entries) [] = ⊥
Aligned days (e ∷ entries) (r ∷ rest) =
    (r.0 ≡ e.0)
    × ((cs : List ℕ) × ClosesOn days e.1 cs × (simple_returns cs ≡ some r.1))
    × Aligned days entries rest

-- One of the closes of a symbol on the days is zero.
abbrev pub HasZeroClose : List ℕ → List (Symbol × Closes) → Type 0
HasZeroClose days [] = ⊥
HasZeroClose days (e ∷ entries) =
    ((cs : List ℕ) × ClosesOn days e.1 cs × (0 < count_if (λ c. c == 0) cs))
    ⊎ HasZeroClose days entries

abbrev pub AtZeroClose : List ℕ → List (Symbol × Closes) → MathError → Type 0
AtZeroClose days entries x = (x ≡ zero_division) × HasZeroClose days entries

-- Returns are missing only where a close is zero.
simple_returns-none : (cs : List ℕ) → simple_returns cs ≡ none → 0 < count_if (λ c. c == 0) cs
unfolding simple_returns simple_return
simple_returns-none [] e = cc
simple_returns-none (c ∷ []) e = cc
simple_returns-none (zero ∷ d ∷ cs) e = omega arith
simple_returns-none (suc c ∷ d ∷ cs) e = elim (Option-cases (simple_returns (d ∷ cs))) [
  | inl missing ↦ ground (arith, simple_returns-none (d ∷ cs) missing)
  | inr (rest, later) ↦ absurd (ground arith)
]

at_zero_of_rest :
    (days : List ℕ) (e : Symbol × Closes) (rest : List (Symbol × Closes))
    (end : Result MathError (List (Symbol × List Ratio)))
    → OnEnd (AtZeroClose days rest) (Aligned days rest) end
    → OnEnd (AtZeroClose days (e ∷ rest)) (Aligned days rest) end
at_zero_of_rest days e rest (ok series) h = h
at_zero_of_rest days e rest (err x) (raised, later) = (raised, inr later)

align-Aligned :
    (days : List ℕ) (entries : List (Symbol × Closes))
    → All (λ (e : Symbol × Closes). Covers days e.1) entries
    → OnEnd (AtZeroClose days entries) (Aligned days entries) (align days entries)
unfolding align
align-Aligned days [] h = tt
align-Aligned days ((s, closes) ∷ rest) (h, hs) =
    let (cs, e, there) = closes_on_total days closes h in
    elim (Option-cases (simple_returns cs)) [
      | inl missing ↦ rw e (rw missing (refl, inl (cs, there, simple_returns-none cs missing)))
      | inr (rs, found) ↦ rw e (
          rw found (
            OnEnd->>= (AtZeroClose days ((s, closes) ∷ rest)) (Aligned days rest)
              (Aligned days ((s, closes) ∷ rest)) (align days rest)
              (λ others. ok ((s, rs) ∷ others))
              (at_zero_of_rest days (s, closes) rest (align days rest) (align-Aligned days rest hs))
              (λ others k. (refl, (cs, there, found), k))))
    ]

counted_day :
    (day : ℕ) (closes : Closes)
    → (0 < count_if (same_day day) (dates_in closes)) ↔ (has_day day closes ≡ true)
unfolding holds_key
counted_day day [] = ((λ h. absurd (omega arith)), (λ h. cc))
counted_day day ((d, c) ∷ closes) = ground (arith, counted_day day closes)

counted_selected :
    (p : ℕ → Bool) (day : ℕ) (days : List ℕ)
    → (0 < count_if (same_day day) (select p days))
      ↔ ((0 < count_if (same_day day) days) × (p day ≡ true))
counted_selected p day [] = ((λ h. absurd (omega arith)), (λ h. absurd (omega (arith, h.0))))
counted_selected p day (d ∷ days) =
    let later = counted_selected p day days in
    elim (Bool-cases (day == d)) [
      | inl here ↦ elim (Bool-cases (p d)) [
        | inl e ↦ (let passes : p day ≡ true = ap p ((==_iff day d).0 here) ∙ e in ground arith)
        | inr e ↦ (let fails : p day ≡ false = ap p ((==_iff day d).0 here) ∙ e in ground arith)
      ]
      | inr elsewhere ↦ elim (Bool-cases (p d)) [ inl e ↦ ground arith | inr e ↦ ground arith ]
    ]

-- A day is among the shared days exactly when every mapping, of which there is one, has it.
shared_days_iff :
    (e : Symbol × Closes) (entries : List (Symbol × Closes)) (day : ℕ)
    → (0 < count_if (same_day day) (shared_days (e ∷ entries))) ↔ (in_all (e ∷ entries) day ≡ true)
unfolding common_days in_all
shared_days_iff (s, closes) entries day = ground (
  arith,
  count_if-sorted leb (same_day day) (select (in_all entries) (dates_in closes)),
  counted_selected (in_all entries) day (dates_in closes),
  counted_day day closes,
)

aligned_returns-AtZeroClose :
    (entries : List (Symbol × Closes))
    → OnEnd
        (AtZeroClose (shared_days entries) entries)
        (Aligned (shared_days entries) entries)
        (aligned_returns entries)
unfolding aligned_returns
aligned_returns-AtZeroClose entries =
    align-Aligned (shared_days entries) entries
      (All-sorted_days (common_days entries) entries (common_days-Covers entries))

pub aligned_returns-Aligned :
    (entries : List (Symbol × Closes))
    → OnEnd
        (λ x. x ≡ zero_division)
        (Aligned (shared_days entries) entries)
        (aligned_returns entries)
aligned_returns-Aligned entries = elim (Result-cases (aligned_returns entries)) [
  | inl (series, e) ↦ rw e (rw e at (aligned_returns-AtZeroClose entries))
  | inr (x, e) ↦ rw e ((rw e at (aligned_returns-AtZeroClose entries)).0)
]

leb-IsOrder : IsOrder leb
leb-IsOrder = record { trans = λ a b c h k. ground arith; total = λ a b h. ground arith }

-- The returns of the mappings, of which there is one, are those between the days that all of them have,
-- in the order of the dates, each symbol's own closes; or it raises ZeroDivisionError, and the close of a
-- symbol on one of those days is zero.
pub aligned_returns_lem :
    (e : Symbol × Closes) (entries : List (Symbol × Closes))
    → let days = shared_days (e ∷ entries) in
      IsSorted leb days
      × ((day : ℕ) → (0 < count_if (same_day day) days) ↔ (in_all (e ∷ entries) day ≡ true))
      × OnEnd
          (AtZeroClose days (e ∷ entries))
          (Aligned days (e ∷ entries))
          (aligned_returns (e ∷ entries))
aligned_returns_lem e entries = (
  sorted-IsSorted leb leb-IsOrder (common_days (e ∷ entries)),
  shared_days_iff e entries,
  aligned_returns-AtZeroClose (e ∷ entries),
)

module _ (days : List ℕ) where
  -- What holds of the symbols of the mappings holds of those of the series, and the lengths are one.
  pub Aligned-All :
      (P : Symbol → Type 0) (entries : List (Symbol × Closes)) (series : List (Symbol × List Ratio))
      → Aligned days entries series
      → All (λ (e : Symbol × Closes). P e.0) entries
      → All (λ (r : Symbol × List Ratio). P r.0 × (length r.1 ≡ length days - 1)) series
  Aligned-All P [] [] a h = tt
  Aligned-All P [] (r ∷ rest) a h = absurd a
  Aligned-All P (e ∷ entries) [] a h = absurd a
  Aligned-All P (e ∷ entries) (r ∷ rest) (named, (cs, there, found), a) (h, hs) = (
    (
      subst P (sym named) h,
      omega (arith, length-simple_returns cs found, length-ClosesOn days e.1 cs there),
    ),
    Aligned-All P entries rest a hs,
  )

  pub Aligned-count :
      (p : Symbol → Bool) (entries : List (Symbol × Closes)) (series : List (Symbol × List Ratio))
      → Aligned days entries series
      → count_if (λ (r : Symbol × List Ratio). p r.0) series
        ≡ count_if (λ (e : Symbol × Closes). p e.0) entries
  Aligned-count p [] [] a = refl
  Aligned-count p [] (r ∷ rest) a = absurd a
  Aligned-count p (e ∷ entries) [] a = absurd a
  Aligned-count p (e ∷ entries) (r ∷ rest) (named, there, a) =
      rw (Aligned-count p entries rest a) (rw named refl)
