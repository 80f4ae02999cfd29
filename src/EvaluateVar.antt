-- ===== src/EvaluateVar.antt =====
-- scripts/evaluate_var.py: forecasts of the historical VaR over a window, their breaches, and the verdict.
-- A date is the number of days since 1970-01-01. The parametric forecast and the p-values, which are
-- floats of a normal and of a chi-squared distribution, are left out; the verdict is on given p-values.
pub mod Window
pub mod Round
pub mod Agreement
mod Tests
use paper_trading_agent.Base.{
  ℕ, zero, suc, ◌+◌, ◌-◌, ◌*◌, Bool, true, false, not, ◌&&◌, ◌||◌, Option, none, some, List, [],
  ◌∷◌, if◌then◌else◌, ltb, leb, ◌==◌, pos, get_elem?, take, count_if, Result, ok, err, ◌>>=◌,
  or_raise,
}
use paper_trading_agent.Numbers.Ratio.{Ratio, leb_R, neg_R}
use paper_trading_agent.State.{Symbol}
use paper_trading_agent.RiskMath.{
  confidence, var_window, simple_return, simple_returns, historical_var,
}
use paper_trading_agent.RiskManager.Figures.{closes_of, ny_days}
use paper_trading_agent.DataSources.{PriceBar}
use paper_trading_agent.DataSources.Headlines.{day_seconds}

-- 12:00 UTC of a date.
abbrev pub noon : ℕ → ℕ
noon day = day * day_seconds + 43_200

-- 2%
abbrev pub naive_var : Ratio
naive_var = record { num = pos 2; den_pred = 99 }

-- 0.05
abbrev pub kupiec_alpha : Ratio
kupiec_alpha = record { num = pos 5; den_pred = 99 }

pub record DayForecast : Type 0 where
  pub day : ℕ
  pub historical : Ratio
  pub naive : Ratio
  pub realized : Ratio

-- The ZeroDivisionError of a return, or an IndexError.
pub data EvaluationError : Type 0 where
  no_return : EvaluationError

abbrev pub is_within : ℕ → ℕ → ℕ → Bool
is_within start end day = leb start day && leb day end

-- `closes[i] / closes[i - 1] - 1`
abbrev pub return_between : Option ℕ → Option ℕ → Option Ratio
return_between none close = none
return_between (some before) none = none
return_between (some before) (some close) = simple_return before close

module _ (closes : List ℕ) (start end : ℕ) where
  -- `none` is `if hist is None: continue`.
  abbrev pub forecast_with : ℕ → ℕ → Option Ratio → Result EvaluationError (Option DayForecast)
  forecast_with i day none = ok none
  forecast_with i day (some hist) =
      or_raise (return_between (get_elem? closes (i - 1)) (get_elem? closes i)) no_return
      >>= λ realized.
          ok
            (some (record { day = day; historical = hist; naive = naive_var; realized = realized }))

  -- The loop's body.
  unfoldable pub forecast_at : ℕ → ℕ → Result EvaluationError (Option DayForecast)
  forecast_at i day =
      if not (is_within start end day) || (i == 0)
      then ok none
      else (or_raise (simple_returns (take i closes)) no_return >>= λ returns.
          forecast_with i day (historical_var returns confidence var_window))

  abbrev pub with_forecast : Option DayForecast → List DayForecast → List DayForecast
  with_forecast none rows = rows
  with_forecast (some row) rows = row ∷ rows

  unfoldable pub forecasts_from : ℕ → List ℕ → Result EvaluationError (List DayForecast)
  forecasts_from i [] = ok []
  forecasts_from i (day ∷ days) = forecast_at i day >>= λ row.
      forecasts_from (i + 1) days >>= λ rows. ok (with_forecast row rows)

module _ (ny_day : ℕ → ℕ) where
  unfoldable pub forecasts_of : List PriceBar → ℕ → ℕ → Result EvaluationError (List DayForecast)
  forecasts_of bars start end = forecasts_from (closes_of bars) start end 0 (ny_days ny_day bars)

  -- The bars of the window, in one call of the price source.
  unfoldable pub forecasts :
      (Symbol → ℕ → ℕ → List PriceBar) → Symbol → ℕ → ℕ → Result EvaluationError (List DayForecast)
  forecasts get_recent_bars symbol start end =
      forecasts_of (get_recent_bars symbol (noon (end + 1)) ((end - start) + 450)) start end

-- `r["realized"] < -r[model]`
abbrev pub is_breach : (DayForecast → Ratio) → DayForecast → Bool
is_breach model row = not (leb_R (neg_R (model row)) row.realized)

unfoldable pub breaches : List DayForecast → (DayForecast → Ratio) → ℕ
breaches rows model = count_if (is_breach model) rows

pub data Verdict : Type 0 where
  rejected beats_naive no_difference : Verdict

-- Whether Kupiec's test rejects.
abbrev pub rejects : Ratio → Bool
rejects p = not (leb_R kupiec_alpha p)

unfoldable pub verdict : Ratio → Ratio → Verdict
verdict p_hist p_naive =
    if rejects p_hist then rejected else if rejects p_naive then beats_naive else no_difference
