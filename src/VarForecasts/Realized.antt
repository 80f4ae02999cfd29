-- ===== src/VarForecasts/Realized.antt =====
-- fill_realized_returns of app/agent/var_forecasts.py: the returns that the forecasts were about.
-- Instants are seconds. `source` is the price source, asked for a symbol as of an instant and for so many
-- days back, and `ny_day` the New York date of an instant. Closes are positive whole numbers of 1/10000 dollar.
use paper_trading_agent.Base.{
  ℕ, zero, suc, ◌+◌, ◌-◌, ◌/◌, Bool, true, false, not, ◌&&◌, Option, none, some, List, [], ◌∷◌, map,
  if◌then◌else◌, leb, ◌==◌, sub_ℕ, same_text, select, Result, ok, err, ◌>>=◌,
}
use paper_trading_agent.Numbers.Ratio.{Ratio}
use paper_trading_agent.Numbers.Sorting.{sorted}
use paper_trading_agent.State.{Symbol}
use paper_trading_agent.Outcomes.{same_book}
use paper_trading_agent.DataSources.{PriceBar}
use paper_trading_agent.DataSources.Headlines.{day_seconds}
use paper_trading_agent.Explainer.{text_le}
use paper_trading_agent.VarForecasts.Recording.{ForecastRow, Forecasts}

abbrev pub is_missing {ℓ} : {A : Type ℓ} → Option A → Bool
is_missing none = true
is_missing (some a) = false

-- WHERE backtest_id IS NOT DISTINCT FROM … AND realized_return IS NULL
abbrev pub is_pending : Option ℕ → ForecastRow → Bool
is_pending book r = same_book r.backtest_id book && is_missing r.realized_return

-- ORDER BY symbol, as_of
abbrev pub forecast_before : ForecastRow → ForecastRow → Bool
forecast_before a b =
    if same_text a.symbol b.symbol then leb a.as_of b.as_of else text_le a.symbol b.symbol

unfoldable pub pending : Option ℕ → Forecasts → List ForecastRow
pending book table = sorted forecast_before (select (is_pending book) table.rows)

-- The keys of `by_symbol`, in the order of their first rows.
unfoldable pub symbols_of : List ForecastRow → List Symbol
symbols_of [] = []
symbols_of (r ∷ rs) =
    let rest = symbols_of rs in r.symbol ∷ select (λ s. not (same_text s r.symbol)) rest

-- `by_symbol[symbol]`
abbrev pub rows_of : Symbol → List ForecastRow → List ForecastRow
rows_of symbol rows = select (λ (r : ForecastRow). same_text r.symbol symbol) rows

abbrev pub last_as_of : ForecastRow → List ForecastRow → ℕ
last_as_of r [] = r.as_of
last_as_of r (s ∷ rs) = last_as_of s rs

-- A question to the price source: as of an instant, so many days back.
pub record Asked : Type 0 where
  pub as_of : ℕ
  pub lookback_days : ℕ

abbrev pub asked_for : ForecastRow → List ForecastRow → Asked
asked_for r rs =
    let last = last_as_of r rs + day_seconds in
    record { as_of = last; lookback_days = (last - r.as_of) / day_seconds + 7 }

-- `no_last_close` is the TypeError of a forecast without a last close, `last_close_zero` the division by zero.
pub data FillError : Type 0 where
  no_last_close last_close_zero : FillError

-- close / last_close - 1
abbrev pub realized_of : ℕ → Option ℕ → Result FillError Ratio
realized_of close none = err no_last_close
realized_of close (some zero) = err last_close_zero
realized_of close (some (suc last)) = ok (record { num = sub_ℕ close (suc last); den_pred = last })

abbrev pub set_realized : ℕ → Ratio → ForecastRow → ForecastRow
set_realized id value r = if r.id == id then record r { realized_return = some value } else r

module _ (source : Symbol → ℕ → ℕ → List PriceBar) (ny_day : ℕ → ℕ) where
  -- `close_on.get(day)`, where the last bar of a date counts.
  unfoldable pub close_on : List PriceBar → ℕ → Option ℕ
  close_on [] day = none
  close_on (bar ∷ bars) day =
      let rest = close_on bars day in
      elim rest [
        | some later ↦ some later
        | none ↦ if ny_day bar.timestamp == day then some bar.close else none
      ]

  -- The loop over the rows of a symbol, with the number of rows that are filled.
  unfoldable pub fill_rows :
      List PriceBar → List ForecastRow → Forecasts × ℕ → Result FillError (Forecasts × ℕ)
  fill_rows bars [] (table, filled) = ok (table, filled)
  fill_rows bars (r ∷ rs) (table, filled) = elim (close_on bars (ny_day r.as_of)) [
    | none ↦ fill_rows bars rs (table, filled)
    | some close ↦ realized_of close r.figures.last_close >>= λ value.
        fill_rows bars rs
          (record table { rows = map (set_realized r.id value) table.rows }, filled + 1)
  ]

  unfoldable pub fill_symbol :
      Symbol → List ForecastRow → Forecasts × ℕ → Result FillError (Forecasts × ℕ)
  unfolding fill_rows
  fill_symbol symbol [] done = ok done
  fill_symbol symbol (r ∷ rs) done =
      let asked = asked_for r rs in
      fill_rows (source symbol asked.as_of asked.lookback_days) (r ∷ rs) done

  unfoldable pub fill_symbols :
      List Symbol → List ForecastRow → Forecasts × ℕ → Result FillError (Forecasts × ℕ)
  fill_symbols [] rows done = ok done
  fill_symbols (s ∷ ss) rows done =
      fill_symbol s (rows_of s rows) done >>= λ done'. fill_symbols ss rows done'

  -- fill_realized_returns: the table after it and the number of rows that are filled.
  unfoldable pub fill_realized_returns : Option ℕ → Forecasts → Result FillError (Forecasts × ℕ)
  fill_realized_returns book table =
      let rows = pending book table in fill_symbols (symbols_of rows) rows (table, 0)
