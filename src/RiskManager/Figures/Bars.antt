-- ===== src/RiskManager/Figures/Bars.antt =====
-- The closes and dates of bars, and the figures of app/agent/risk_manager.py where the returns exist.
use paper_trading_agent.Base.{ℕ, suc, ◌≡◌, refl, ap, some, List, [], ◌∷◌, ◌++◌, length}
use paper_trading_agent.Numbers.Ratio.{Ratio}
use paper_trading_agent.RiskMath.{simple_returns}
use paper_trading_agent.RiskManager.Figures.{
  closes_of, ny_days, figures_of, figures_or_raise, node_figures,
}
use paper_trading_agent.DataSources.{PriceBar}
use paper_trading_agent.RiskMath.Returns.{Priced}

pub Priced-append :
    (xs ys : List PriceBar)
    → Priced (closes_of (xs ++ ys))
    → Priced (closes_of xs) × Priced (closes_of ys)
Priced-append [] ys h = (tt, h)
Priced-append (x ∷ xs) ys (h, hs) = let (ks, rest) = Priced-append xs ys hs in ((h, ks), rest)

pub length-closes : (bars : List PriceBar) → length (closes_of bars) ≡ length bars
length-closes [] = refl
length-closes (b ∷ bars) = ap suc (length-closes bars)

module _ (ny_day : ℕ → ℕ) where
  pub length-days : (bars : List PriceBar) → length (ny_days ny_day bars) ≡ length bars
  length-days [] = refl
  length-days (b ∷ bars) = ap suc (length-days bars)

  pub node_figures_known :
      (bars : List PriceBar) {rs : List Ratio}
      → simple_returns (closes_of bars) ≡ some rs
      → node_figures ny_day bars ≡ some (figures_of ny_day bars rs)
  unfolding node_figures
  node_figures_known bars e = ap (figures_or_raise ny_day bars) e
