-- ===== src/ReturnDataset/Examples.antt =====
-- The examples of scripts/build_return_dataset.py: their headlines and their returns.
use paper_trading_agent.Base.{
  ℕ, zero, suc, ◌+◌, ◌-◌, ◌≤◌, ◌<◌, ◌≡◌, refl, subst, get_elem?, leb, codes, inl, inr, true, false,
  not, ◌&&◌, Option, none, some, List, [], ◌∷◌, ◌++◌, map, take, ltb, ◌==◌, length, same_text, All,
  All-append, All-select, All-selected, Bool-cases, ok, arith,
}
use paper_trading_agent.Numbers.Ratio.{Ratio, neg_R, add_R}
use paper_trading_agent.Numbers.Sorting.{All-sorted}
use paper_trading_agent.State.{Symbol}
use paper_trading_agent.ReturnDataset.{
  CloseRow, DatedHeadline, Example, ordinals_of, headlines_on, window_from, symbol_closes,
  example_of, examples_on, raw_examples, days_in, days_of_symbol, days_of_all, raw_of_all,
}
use paper_trading_agent.ReturnDataset.Forward.{from_day, return_over, forward_return_lem}

All-take {ℓ κ} : {A : Type ℓ} (P : A → Type κ) (n : ℕ) (xs : List A) → All P xs → All P (take n xs)
All-take P zero xs h = tt
All-take P (suc n) [] h = tt
All-take P (suc n) (x ∷ xs) (h, hs) = (h, All-take P n xs hs)

All-map {ℓ κ μ} :
    {A : Type ℓ} {B : Type κ} (P : B → Type μ) (f : A → B) (xs : List A)
    → All (λ x. P (f x)) xs
    → All P (map f xs)
All-map P f [] h = tt
All-map P f (x ∷ xs) (h, hs) = (h, All-map P f xs hs)

All-imp {ℓ κ μ} :
    {A : Type ℓ} (P : A → Type κ) (Q : A → Type μ) (xs : List A)
    → ((x : A) → P x → Q x)
    → All P xs
    → All Q xs
All-imp P Q [] f h = tt
All-imp P Q (x ∷ xs) f (h, hs) = (f x h, All-imp P Q xs f hs)

-- A headline of a symbol, of a day or one of the `back` days up to it.
abbrev pub InWindow : Symbol → ℕ → ℕ → DatedHeadline → Type 0
InWindow symbol day back h =
    (same_text h.symbol symbol ≡ true) × (h.day ≤ day) × (day < h.day + back)

headlines_on-InWindow :
    (headlines : List DatedHeadline) (symbol : Symbol) (day offset back : ℕ)
    → offset ≤ day
    → offset < back
    → All (InWindow symbol day back) (headlines_on headlines symbol (day - offset))
headlines_on-InWindow headlines symbol day offset back h k =
    All-selected (InWindow symbol day back)
      (λ (h : DatedHeadline). same_text h.symbol symbol && (h.day == day - offset)) headlines
      (λ row e. (ground arith, ground arith, ground arith))

window_from_lem :
    (headlines : List DatedHeadline) (symbol : Symbol) (day offset left : ℕ)
    → offset + left ≤ day
    → (window : List DatedHeadline) × (window_from headlines symbol day offset left ≡ ok window)
      × All (InWindow symbol day (offset + left)) window
unfolding window_from
window_from_lem headlines symbol day offset zero h = ([], refl, tt)
window_from_lem headlines symbol day offset (suc left) h =
    let (older, e, all) = window_from_lem headlines symbol day (offset + 1) left (omega arith) in
    let dated : ltb day offset ≡ false = ground arith in
    let same : offset + 1 + left ≡ offset + suc left = omega arith in
    (
      headlines_on headlines symbol (day - offset) ++ older,
      rw dated (rw e refl),
      All-append (InWindow symbol day (offset + suc left))
          (headlines_on headlines symbol (day - offset)) older
          (headlines_on-InWindow headlines symbol day offset (offset + suc left) (omega arith)
            (omega arith))
          (subst (λ n. All (InWindow symbol day n) older) same all),
    )

module _ (bars : List CloseRow) (horizon lookback max_headlines : ℕ) where
  -- The return from the first trading day not before a day, `horizon` trading days on.
  abbrev pub return_of : Symbol → ℕ → Option Ratio
  return_of symbol day =
      let closes = symbol_closes bars symbol in
      let days = from_day day (ordinals_of closes) in
      return_over closes (get_elem? days 0) (get_elem? days horizon)

  -- An example knows no headline of a later day, and its return starts on its day or later.
  pub record IsFair (e : Example) : Type 0 where
    pub fwd : Ratio
    pub mkt : Ratio
    pub own : return_of e.symbol e.day ≡ some fwd
    pub market : return_of (codes "SPY") e.day ≡ some mkt
    pub excess : e.excess_return ≡ add_R fwd (neg_R mkt)
    pub known : All (InWindow e.symbol e.day lookback) e.headlines
    pub some_headline : 0 < e.n_headlines

  module _ (headlines : List DatedHeadline) where
    example_of-IsFair :
        (symbol : Symbol) (day : ℕ) (window : List DatedHeadline) (fwd mkt : Option Ratio)
        → return_of symbol day ≡ fwd
        → return_of (codes "SPY") day ≡ mkt
        → All (InWindow symbol day lookback) window
        → 0 < length window
        → All IsFair
            (example_of bars headlines horizon lookback max_headlines symbol day window fwd mkt)
    example_of-IsFair symbol day window none mkt own market known many = tt
    example_of-IsFair symbol day window (some fwd) none own market known many = tt
    example_of-IsFair symbol day window (some fwd) (some mkt) own market known many = (
      record {
        fwd = fwd;
        mkt = mkt;
        own = own;
        market = market;
        excess = refl;
        known = All-take (InWindow symbol day lookback) max_headlines window known;
        some_headline = many;
      },
      tt,
    )

    examples_on_lem :
        (symbol : Symbol) (day : ℕ)
        → lookback ≤ day
        → (here : List Example) × (examples_on bars headlines horizon lookback max_headlines symbol
              day
            ≡ ok here)
          × All IsFair here
    unfolding examples_on
    examples_on_lem symbol day h =
        let (window, e, behind) = window_from_lem headlines symbol day 0 lookback (omega arith) in
        let known =
          All-imp (InWindow symbol day (0 + lookback)) (InWindow symbol day lookback) window
            (λ row k. (k.0, k.1, omega (arith, k.2))) behind in
        let own = forward_return_lem (symbol_closes bars symbol) day horizon in
        let market = forward_return_lem (symbol_closes bars (codes "SPY")) day horizon in
        elim (Bool-cases (length window == 0)) [
          | inl none_here ↦ ([], rw e (rw none_here refl), tt)
          | inr some_here ↦ (
            example_of bars headlines horizon lookback max_headlines symbol day window
                (return_of symbol day) (return_of (codes "SPY") day),
            rw e (rw some_here (rw own (rw market refl))),
            example_of-IsFair symbol day window _ _ refl refl known (ground arith),
          )
        ]

    raw_examples_lem :
        (pairs : List (Symbol × ℕ))
        → All (λ (p : Symbol × ℕ). lookback ≤ p.1) pairs
        → (raw : List Example) × (raw_examples bars headlines horizon lookback max_headlines pairs
            ≡ ok raw)
          × All IsFair raw
    unfolding raw_examples
    raw_examples_lem [] h = ([], refl, tt)
    raw_examples_lem ((symbol, day) ∷ pairs) (h, hs) =
        let (here, e, fair) = examples_on_lem symbol day h in
        let (later, e', fair') = raw_examples_lem pairs hs in
        (here ++ later, rw e (rw e' refl), All-append IsFair here later fair fair')

    days_in-All :
        (P : ℕ → Type 0) (rows : List DatedHeadline)
        → All (λ (h : DatedHeadline). P h.day) rows
        → All P (days_in bars headlines horizon lookback max_headlines rows)
    days_in-All P [] h = tt
    days_in-All P (r ∷ rows) (h, hs) =
        (h, All-select P (λ d. not (r.day == d)) _ (days_in-All P rows hs))

    days_of_all-late :
        (symbols : List Symbol)
        → All (λ (h : DatedHeadline). lookback ≤ h.day) headlines
        → All
            (λ (p : Symbol × ℕ). lookback ≤ p.1)
            (days_of_all bars headlines horizon lookback max_headlines symbols)
    days_of_all-late [] h = tt
    days_of_all-late (symbol ∷ symbols) h =
        All-append (λ (p : Symbol × ℕ). lookback ≤ p.1)
          (days_of_symbol bars headlines horizon lookback max_headlines symbol)
          (days_of_all bars headlines horizon lookback max_headlines symbols)
          (All-map (λ (p : Symbol × ℕ). lookback ≤ p.1) (λ d. (symbol, d)) _
            (All-sorted leb (λ d. lookback ≤ d) _
              (days_in-All (λ d. lookback ≤ d) _
                (All-select (λ (h : DatedHeadline). lookback ≤ h.day) _ headlines h))))
          (days_of_all-late symbols h)

    -- Where no headline's day is a number below the lookback, the examples are built, without an exception.
    -- Each has a headline; its headlines are of its symbol and of its day or of the days before it within
    -- the lookback, and its excess return is that of its symbol less that of SPY, each from the close of
    -- the first trading day not before its day to the close `horizon` trading days later.
    pub raw_of_all_lem :
        All (λ (h : DatedHeadline). lookback ≤ h.day) headlines
        → (raw : List Example) × (raw_of_all bars headlines horizon lookback max_headlines ≡ ok raw)
          × All IsFair raw
    unfolding raw_of_all
    raw_of_all_lem h = raw_examples_lem _ (days_of_all-late _ h)
