-- ===== src/VarForecasts/Filling.antt =====
-- What fill_realized_returns of app/agent/var_forecasts.py asks the price source for, and what it changes.
use paper_trading_agent.Base.{
  ℕ, suc, ◌+◌, ◌*◌, ◌≤◌, ◌≡◌, Bool, none, some, List, [], ◌∷◌, map, leb, All, Result, OnEnd,
}
use paper_trading_agent.Numbers.Ratio.{Ratio}
use paper_trading_agent.State.{Symbol}
use paper_trading_agent.DataSources.{PriceBar}
use paper_trading_agent.DataSources.Headlines.{day_seconds}
use paper_trading_agent.VarForecasts.Recording.{ForecastRow, Forecasts}
use paper_trading_agent.VarForecasts.Realized.{asked_for, FillError}

abbrev earlier : ForecastRow → ForecastRow → Bool
earlier a b = leb a.as_of b.as_of

-- The forecast lies in the window that is asked for: at least six days after its start, and a day before
-- its end.
abbrev pub InAsked : ForecastRow → List ForecastRow → ForecastRow → Type 0
InAsked r rs x =
    ((asked_for r rs).as_of + 6 * day_seconds
      ≤ x.as_of + day_seconds * (asked_for r rs).lookback_days)
    × (x.as_of + day_seconds ≤ (asked_for r rs).as_of)

-- The forecasts of one symbol all lie in the window asked for them.
abbrev pub InWindow : List ForecastRow → Type 0
InWindow [] = Unit
InWindow (r ∷ rs) = All (InAsked r rs) (r ∷ rs)

-- A forecast whose last close is known and not zero.
abbrev pub HasClose : ForecastRow → Type 0
HasClose r = (last : ℕ) × (r.figures.last_close ≡ some (suc last))

abbrev pub erased : ForecastRow → ForecastRow
erased r = record r { realized_return = none }

-- The same forecasts but for their realized returns.
abbrev pub SameForecasts : Forecasts → Forecasts → Type 0
SameForecasts a b = (map erased a.rows ≡ map erased b.rows) × (a.next_id ≡ b.next_id)

module _ (source : Symbol → ℕ → ℕ → List PriceBar) (ny_day : ℕ → ℕ) where
  -- A call that returns a table with the same forecasts.
  abbrev Returns : Forecasts → Result FillError (Forecasts × ℕ) → Type 0
  Returns table = OnEnd (λ e. ⊥) (λ (done : Forecasts × ℕ). SameForecasts done.0 table)
