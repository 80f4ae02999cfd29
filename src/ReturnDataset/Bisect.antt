-- ===== src/ReturnDataset/Bisect.antt =====
-- The bisection of forward_return in scripts/build_return_dataset.py.
use paper_trading_agent.Base.{
  ℕ, zero, suc, ◌+◌, ◌/◌, ◌≤◌, ◌<◌, ◌≡◌, refl, ap, ◌∙◌, inl, inr, true, false, Bool-cases, some,
  List, [], ◌∷◌, ltb, leb, length, get_elem?, count_if, if◌then◌else◌, All, get_elem?_total,
  All-get_elem?, ok, arith,
}
use mathlib.Core.Option.{some-injective}
use paper_trading_agent.Numbers.Sorting.{IsSorted, IsOrder}
use paper_trading_agent.ReturnDataset.{bisect}

-- The days before `day` among days.
abbrev pub earlier_days : ℕ → List ℕ → ℕ
earlier_days day days = count_if (λ d. ltb d day) days

pub leb-IsOrder : IsOrder leb
leb-IsOrder = record { trans = λ a b c h k. ground arith; total = λ a b h. ground arith }

pub none_earlier :
    (day d : ℕ) (days : List ℕ)
    → day ≤ d
    → All (λ e. leb d e ≡ true) days
    → earlier_days day days ≡ 0
none_earlier day d [] h hs = refl
none_earlier day d (e ∷ days) h (k, ks) =
    let late : ltb e day ≡ false = ground arith in
    rw late (omega (arith, none_earlier day d days h ks))

earlier_above :
    (day : ℕ) (days : List ℕ) (i d : ℕ)
    → IsSorted leb days
    → get_elem? days i ≡ some d
    → d < day
    → i < earlier_days day days
earlier_above day [] i d s e h = cc
earlier_above day (x ∷ days) zero d s e h =
    let same = some-injective _ _ e in
    let early : ltb x day ≡ true = ground arith in rw early (omega arith)
earlier_above day (x ∷ days) (suc i) d (first, s) e h =
    let low : leb x d ≡ true = All-get_elem? (λ y. leb x y ≡ true) days i first e in
    let early : ltb x day ≡ true = ground arith in
    rw early (omega (arith, earlier_above day days i d s e h))

earlier_below :
    (day : ℕ) (days : List ℕ) (i d : ℕ)
    → IsSorted leb days
    → get_elem? days i ≡ some d
    → day ≤ d
    → earlier_days day days ≤ i
earlier_below day [] i d s e h = cc
earlier_below day (x ∷ days) zero d (first, s) e h =
    let same = some-injective _ _ e in
    let late : ltb x day ≡ false = ground arith in
    rw late (omega (arith, none_earlier day x days (omega (arith, same, h)) first))
earlier_below day (x ∷ days) (suc i) d (first, s) e h =
    let rest = earlier_below day days i d s e h in
    elim (Bool-cases (ltb x day)) [
      | inl b ↦ rw b (omega (arith, rest))
      | inr b ↦ rw b (omega (arith, rest))
    ]

bisect_done : (days : List ℕ) (day rounds lo : ℕ) → bisect days day rounds lo lo ≡ ok lo
unfolding bisect
bisect_done days day zero lo = ground arith
bisect_done days day (suc rounds) lo = ground arith

bisect_round :
    (days : List ℕ) (day rounds lo hi : ℕ) {d : ℕ}
    → lo < hi
    → get_elem? days ((lo + hi) / 2) ≡ some d
    → bisect days day (suc rounds) lo hi ≡ (
        if ltb d day
        then bisect days day rounds ((lo + hi) / 2 + 1) hi
        else bisect days day rounds lo ((lo + hi) / 2))
unfolding bisect
bisect_round days day rounds lo hi {d} h e =
    let more : ltb lo hi ≡ true = ground arith in
    rw more (rw e (elim (Bool-cases (ltb d day)) [ inl b ↦ rw b refl | inr b ↦ rw b refl ]))

bisect_over :
    (days : List ℕ) (day rounds lo hi : ℕ)
    → lo ≤ earlier_days day days
    → earlier_days day days ≤ hi
    → hi ≤ lo
    → bisect days day rounds lo hi ≡ ok (earlier_days day days)
bisect_over days day rounds lo hi below above over =
    ap (λ h. bisect days day rounds lo h) (omega arith)
    ∙ bisect_done days day rounds lo
    ∙ ap ok (omega arith)

-- What a round leaves.
bisect_halves :
    (days : List ℕ) (day rounds lo hi mid d : ℕ)
    → IsSorted leb days
    → get_elem? days mid ≡ some d
    → (earlier_days day days ≤ mid → bisect days day rounds lo mid ≡ ok (earlier_days day days))
    → (mid < earlier_days day days
        → bisect days day rounds (mid + 1) hi ≡ ok (earlier_days day days))
    → (if ltb d day then bisect days day rounds (mid + 1) hi else bisect days day rounds lo mid)
      ≡ ok (earlier_days day days)
bisect_halves days day rounds lo hi mid d s e lower upper = elim (Bool-cases (ltb d day)) [
  | inl b ↦ rw b (upper (earlier_above day days mid d s e (ground arith)))
  | inr b ↦ rw b (lower (earlier_below day days mid d s e (ground arith)))
]

-- As many rounds as there are days are enough: the loop ends at the number of earlier days.
pub bisect_lem :
    (days : List ℕ) (day rounds lo hi : ℕ)
    → IsSorted leb days
    → lo ≤ earlier_days day days
    → earlier_days day days ≤ hi
    → hi ≤ length days
    → hi ≤ lo + rounds
    → bisect days day rounds lo hi ≡ ok (earlier_days day days)
bisect_lem days day zero lo hi s below above fits enough =
    bisect_over days day zero lo hi below above (omega arith)
bisect_lem days day (suc rounds) lo hi s below above fits enough = elim (Bool-cases (ltb lo hi)) [
  | inr over ↦ bisect_over days day (suc rounds) lo hi below above (ground arith)
  | inl some_left ↦
      (let mid = (lo + hi) / 2 in
        let left : lo < hi = ground arith in
        let (d, e) = get_elem?_total days mid (omega arith) in
        bisect_round days day rounds lo hi left e
        ∙ bisect_halves days day rounds lo hi mid d s e
            (λ h. bisect_lem days day rounds lo mid s below h (omega arith) (omega arith))
            (λ h. bisect_lem days day rounds (mid + 1) hi s (omega arith) above fits (omega arith)))
]
