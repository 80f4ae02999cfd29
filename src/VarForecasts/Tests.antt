-- ===== src/VarForecasts/Tests.antt =====
-- Two forecasts of one symbol, with bars of the first day only.
use paper_trading_agent.Base.{ℕ, suc, ◌*◌, ◌/◌, none, some, List, [], ◌∷◌, pos, codes}
use paper_trading_agent.Numbers.Ratio.{Ratio}
use paper_trading_agent.State.{Symbol}
use paper_trading_agent.DataSources.{PriceBar}
use paper_trading_agent.DataSources.Headlines.{day_seconds}
use paper_trading_agent.VarForecasts.Recording.{RiskFigures, ForecastRow, Forecasts}

abbrev small : Ratio
small = record { num = pos 2; den_pred = 99 }

abbrev figures : RiskFigures
figures = record {
  var_confidence = small;
  var_window = 250;
  var_95 = some small;
  cvar_95 = some small;
  parametric_var_95 = some small;
  parametric_cvar_95 = some small;
  var_budget = small;
  var_max_qty = some 3;
  last_close = some (suc 99);
  risk_flags = [];
}

abbrev forecast : ℕ → ℕ → ForecastRow
forecast id day = record {
  id = id;
  decision_id = id;
  backtest_id = none;
  symbol = codes "AAPL";
  as_of = day_seconds * day;
  var = small;
  figures = figures;
  position_qty = pos 3;
  realized_return = none;
}

abbrev two_forecasts : Forecasts
two_forecasts = record { rows = forecast 0 3 ∷ forecast 1 4 ∷ []; next_id = 2 }

abbrev a_bar : Symbol → ℕ → ℕ → List PriceBar
a_bar symbol as_of lookback_days =
    record {
      symbol = symbol;
      timestamp = day_seconds * 3;
      open_price = 100;
      high = 104;
      low = 99;
      close = 103;
      volume = 1;
    }
    ∷ []

abbrev utc : ℕ → ℕ
utc t = t / day_seconds
