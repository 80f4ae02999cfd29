-- ===== src/RiskManager/Figures.antt =====
-- The node of app/agent/risk_manager.py up to the VaR budget: the risk figures of the bars that it fetched.
-- `ny_day` is the New York date of an instant. The parametric figures, for comparison only, are left out.
pub mod Bars
use paper_trading_agent.Base.{ℕ, Option, none, some, List, [], ◌∷◌, map, length, drop}
use paper_trading_agent.Numbers.Ratio.{Ratio}
use paper_trading_agent.RiskMath.{
  confidence, var_window, simple_returns, historical_var, historical_cvar, tail_losses,
}
use paper_trading_agent.DataSources.{PriceBar}

-- What stands in `raw_output`.
pub record NodeFigures : Type 0 where
  pub returns_available : ℕ
  pub var_95 : Option Ratio
  pub cvar_95 : Option Ratio
  pub last_close : Option ℕ
  pub var_tail : List (ℕ × Ratio)

abbrev pub closes_of : List PriceBar → List ℕ
closes_of = map (λ (b : PriceBar). b.close)

abbrev pub last_close_in : List PriceBar → Option ℕ
last_close_in [] = none
last_close_in (b ∷ []) = some b.close
last_close_in (b ∷ c ∷ bars) = last_close_in (c ∷ bars)

-- `tail_losses(…) or []`
abbrev pub or_empty {ℓ} : {A : Type ℓ} → Option (List A) → List A
or_empty none = []
or_empty (some xs) = xs

module _ (ny_day : ℕ → ℕ) where
  abbrev pub ny_days : List PriceBar → List ℕ
  ny_days = map (λ (b : PriceBar). ny_day b.timestamp)

  abbrev pub figures_of : List PriceBar → List Ratio → NodeFigures
  figures_of bars returns = record {
    returns_available = length returns;
    var_95 = historical_var returns confidence var_window;
    cvar_95 = historical_cvar returns confidence var_window;
    last_close = last_close_in bars;
    var_tail = or_empty (tail_losses returns (ny_days (drop 1 bars)) confidence var_window);
  }

  abbrev pub figures_or_raise : List PriceBar → Option (List Ratio) → Option NodeFigures
  figures_or_raise bars none = none
  figures_or_raise bars (some returns) = some (figures_of bars returns)

  -- `none` is the ZeroDivisionError of a return.
  unfoldable pub node_figures : List PriceBar → Option NodeFigures
  node_figures bars = figures_or_raise bars (simple_returns (closes_of bars))
