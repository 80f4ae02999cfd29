-- ===== src/ExplainRecorded/Tails.antt =====
-- var_tail_for of scripts/explain_recorded.py against the tail that app/agent/risk_manager.py built.
use paper_trading_agent.Base.{
  ℕ, ◌<◌, ◌≡◌, refl, ap, sym, ◌∙◌, true, false, Option, none, some, List, [], ◌∷◌, ◌++◌, ltb,
  length, take, drop, All, count_if, count_if-append, Text, ok, arith,
}
use mathlib.Core.List.{map-append}
use paper_trading_agent.Numbers.Ratio.{Ratio}
use paper_trading_agent.RiskMath.{confidence, var_window, simple_returns, tail_losses}
use paper_trading_agent.RiskManager.Figures.{
  closes_of, ny_days, figures_of, NodeFigures, node_figures, or_empty,
}
use paper_trading_agent.DataSources.{PriceBar}
use paper_trading_agent.ExplainRecorded.{tail_days, var_tail_at}
use paper_trading_agent.RiskMath.Returns.{
  Priced, simple_returns_total, simple_returns-append, tail_losses-append, take-length,
}
use paper_trading_agent.RiskManager.Figures.Bars.{
  Priced-append, length-days, length-closes, node_figures_known,
}

-- The bars before a day stand first.
abbrev pub EarlierThan : ℕ → List ℕ → Type 0
EarlierThan day days = All (λ d. ltb d day ≡ true) days

abbrev pub NotEarlier : ℕ → List ℕ → Type 0
NotEarlier day days = All (λ d. ltb d day ≡ false) days

count-all :
    (day : ℕ) (days : List ℕ) → EarlierThan day days → count_if (λ d. ltb d day) days ≡ length days
count-all day [] h = refl
count-all day (d ∷ days) (h, hs) = rw h (omega (arith, count-all day days hs))

count-none : (day : ℕ) (days : List ℕ) → NotEarlier day days → count_if (λ d. ltb d day) days ≡ 0
count-none day [] h = refl
count-none day (d ∷ days) (h, hs) = rw h (omega (arith, count-none day days hs))

module _ (ny_day : ℕ → ℕ) (iso : ℕ → Text) where
  -- The dates behind the first one.
  labels_split :
      (older : List PriceBar) (bar : PriceBar) (bars : List PriceBar)
      → (ls : List ℕ) × (drop 1 (ny_days ny_day (older ++ bar ∷ bars)) ≡ ls ++ ny_days ny_day bars)
        × (length ls ≡ length older)
  labels_split [] bar bars = ([], refl, refl)
  labels_split (o ∷ []) bar bars = (ny_day bar.timestamp ∷ [], refl, refl)
  labels_split (o ∷ p ∷ older) bar bars =
      let (ls, e, counted) = labels_split (p ∷ older) bar bars in
      (ny_day p.timestamp ∷ ls, ap (λ xs. ny_day p.timestamp ∷ xs) e, omega (arith, counted))

  -- The bars of earlier days, by their number.
  module _ (day : ℕ) (before_it rest : List PriceBar)
      (before : EarlierThan day (ny_days ny_day before_it))
      (after : NotEarlier day (ny_days ny_day rest)) where
    abbrev earlier_count : ℕ
    earlier_count = count_if (λ d. ltb d day) (ny_days ny_day (before_it ++ rest))

    earlier_count-eq : earlier_count ≡ length before_it
    earlier_count-eq = rw (map-append (λ (b : PriceBar). ny_day b.timestamp) before_it rest) (
        rw (count_if-append (λ d. ltb d day) (ny_days ny_day before_it) (ny_days ny_day rest)) (
          omega (
            arith,
            count-all day (ny_days ny_day before_it) before,
            count-none day (ny_days ny_day rest) after,
            length-days ny_day before_it,
          )))

    earlier_closes : take earlier_count (closes_of (before_it ++ rest)) ≡ closes_of before_it
    earlier_closes =
        ap (λ n. take n (closes_of (before_it ++ rest)))
          (earlier_count-eq ∙ sym (length-closes before_it))
        ∙ ap (take (length (closes_of before_it)))
            (map-append (λ (b : PriceBar). b.close) before_it rest)
        ∙ take-length (closes_of before_it) (closes_of rest)

    earlier_days :
        take earlier_count (ny_days ny_day (before_it ++ rest)) ≡ ny_days ny_day before_it
    earlier_days =
        ap (λ n. take n (ny_days ny_day (before_it ++ rest)))
          (earlier_count-eq ∙ sym (length-days ny_day before_it))
        ∙ ap (take (length (ny_days ny_day before_it)))
            (map-append (λ (b : PriceBar). ny_day b.timestamp) before_it rest)
        ∙ take-length (ny_days ny_day before_it) (ny_days ny_day rest)

  or_empty_days :
      (x : Option (List (ℕ × Ratio)))
      → tail_days ny_day iso x ≡ tail_days ny_day iso (some (or_empty x))
  or_empty_days none = refl
  or_empty_days (some losses) = refl

  -- For a decision of a day: the bars of earlier days are some older ones and those that the risk manager
  -- saw, of which there are enough for the VaR, all other bars are of that day or later, and no close
  -- is zero. Then the tail made again is the one that the risk manager's figures hold.
  pub var_tail_at_lem :
      (older seen later : List PriceBar) (as_of : ℕ)
      → EarlierThan (ny_day as_of) (ny_days ny_day (older ++ seen))
      → NotEarlier (ny_day as_of) (ny_days ny_day later)
      → Priced (closes_of (older ++ seen))
      → var_window < length seen
      → (f : NodeFigures) × (node_figures ny_day seen ≡ some f)
        × (var_tail_at ny_day iso ((older ++ seen) ++ later) as_of
            ≡ ok (tail_days ny_day iso (some f.var_tail)))
  unfolding var_tail_at
  var_tail_at_lem older [] later as_of before after priced enough = absurd (omega arith)
  var_tail_at_lem older (bar ∷ bars) later as_of before after priced enough =
      let all = older ++ bar ∷ bars in
      let day = ny_day as_of in
      let (old_priced, seen_priced) = Priced-append older (bar ∷ bars) priced in
      let (rs, e, counted) = simple_returns_total bar.close (closes_of bars) seen_priced in
      let (ss, e', skipped) =
        simple_returns-append (closes_of older) bar.close (closes_of bars) old_priced e in
      let (ls, labels, matched) = labels_split older bar bars in
      let returns : simple_returns (closes_of all) ≡ some (ss ++ rs) =
        ap simple_returns (map-append (λ (b : PriceBar). b.close) older (bar ∷ bars)) ∙ e' in
      let same : tail_losses (ss ++ rs) (ls ++ ny_days ny_day bars) confidence var_window
          ≡ tail_losses rs (ny_days ny_day bars) confidence var_window =
        tail_losses-append rs ss (ny_days ny_day bars) ls
          (omega (arith, counted, length-closes bars))
          (omega (arith, counted, length-closes bars, length-days ny_day bars))
          (omega (arith, skipped, matched, length-closes older)) in
      (
        figures_of ny_day (bar ∷ bars) rs,
        node_figures_known ny_day (bar ∷ bars) e,
        rw (earlier_closes day all later before after) (
            rw returns (
              rw (earlier_days day all later before after)
                (rw labels (rw same (ap ok (or_empty_days _)))))),
      )
