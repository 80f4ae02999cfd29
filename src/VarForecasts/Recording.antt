-- ===== src/VarForecasts/Recording.antt =====
-- record_var_forecast of app/agent/var_forecasts.py: the forecast that is stored with a decision.
use paper_trading_agent.Base.{ℕ, ◌+◌, Bool, true, false, Option, none, some, List, [], ◌∷◌, ◌++◌, ℤ}
use paper_trading_agent.Numbers.Ratio.{Ratio}
use paper_trading_agent.State.{Symbol, Action}
use paper_trading_agent.VarForecasts.{position_after}
use paper_trading_agent.RiskManager.{Flag}

-- The figures of the risk manager's raw output; `current_qty` stands apart.
pub record RiskFigures : Type 0 where
  pub var_confidence : Ratio
  pub var_window : ℕ
  pub var_95 : Option Ratio
  pub cvar_95 : Option Ratio
  pub parametric_var_95 : Option Ratio
  pub parametric_cvar_95 : Option Ratio
  pub var_budget : Ratio
  pub var_max_qty : Option ℕ
  pub last_close : Option ℕ
  pub risk_flags : List Flag

-- A row of var_forecasts.
pub record ForecastRow : Type 0 where
  pub id : ℕ
  pub decision_id : ℕ
  pub backtest_id : Option ℕ
  pub symbol : Symbol
  pub as_of : ℕ
  pub var : Ratio
  pub figures : RiskFigures
  pub position_qty : ℤ
  pub realized_return : Option Ratio

pub record Forecasts : Type 0 where
  pub rows : List ForecastRow
  pub next_id : ℕ

-- The table after it, and whether a row was written.
unfoldable pub record_var_forecast :
    ℕ → Option ℕ → Symbol → ℕ → RiskFigures → ℤ → Action → ℤ → Forecasts → Forecasts × Bool
record_var_forecast decision_id backtest_id symbol as_of raw current_qty action quantity table =
    elim raw.var_95 [
      | none ↦ (table, false)
      | some var ↦ (
        record {
          rows =
              table.rows
              ++ record {
                id = table.next_id;
                decision_id = decision_id;
                backtest_id = backtest_id;
                symbol = symbol;
                as_of = as_of;
                var = var;
                figures = raw;
                position_qty = position_after current_qty action quantity;
                realized_return = none;
              }
                ∷ [];
          next_id = table.next_id + 1;
        },
        true,
      )
    ]
