-- ===== src/DataSources/Alpaca.antt =====
-- The Alpaca price source of app/agent/data_sources.py, and the keys it is built with.
-- `get_stock_bars` is Alpaca's client: the daily bars by symbol between two instants, in seconds. A bar's
-- quotes are whole numbers of 1/10000 dollar, which its Decimals stand for.
use paper_trading_agent.Base.{
  ℕ, ◌-◌, ◌*◌, Option, some, List, [], ◌∷◌, map, if◌then◌else◌, Text, same_text, Result, ok, err,
}
use paper_trading_agent.DataSources.{PriceBar, bars_closed_before}
use paper_trading_agent.DataSources.Headlines.{day_seconds}

-- A bar as the client returns it.
pub record ClientBar : Type 0 where
  pub timestamp : ℕ
  pub open_price : ℕ
  pub high : ℕ
  pub low : ℕ
  pub close : ℕ
  pub volume : ℕ

-- `bar_set.data`, a dict of the bars by symbol.
abbrev pub BarSet : Type 0
BarSet = List (Text × List ClientBar)

-- `data.get(symbol, [])`
abbrev pub bars_of : Text → BarSet → List ClientBar
bars_of symbol [] = []
bars_of symbol ((s, bars) ∷ rest) = if same_text symbol s then bars else bars_of symbol rest

abbrev pub price_bar : Text → ClientBar → PriceBar
price_bar symbol bar = record {
  symbol = symbol;
  timestamp = bar.timestamp;
  open_price = bar.open_price;
  high = bar.high;
  low = bar.low;
  close = bar.close;
  volume = bar.volume;
}

module _ (get_stock_bars : Text → ℕ → ℕ → BarSet) (ny_day : ℕ → ℕ) (session_close : ℕ → ℕ) where
  -- AlpacaPriceSource.get_recent_bars
  unfoldable pub get_recent_bars : Text → ℕ → ℕ → List PriceBar
  get_recent_bars symbol as_of lookback_days =
      let bar_set = get_stock_bars symbol (as_of - day_seconds * lookback_days) as_of in
      bars_closed_before ny_day session_close (map (price_bar symbol) (bars_of symbol bar_set))
        as_of

-- The RuntimeError of a missing key.
pub data KeyError : Type 0 where
  keys_not_set : KeyError

-- The headlines of a live run come from Alpaca, those of a backtest from the database.
pub data HeadlineFeed : Type 0 where
  alpaca_news : Text → Text → HeadlineFeed
  historical : HeadlineFeed

-- ALPACA_API_KEY and ALPACA_SECRET_KEY: both have to be set, and not empty.
abbrev pub alpaca_keys : Option Text → Option Text → Result KeyError (Text × Text)
alpaca_keys (some (a ∷ api)) (some (b ∷ secret)) = ok (a ∷ api, b ∷ secret)
alpaca_keys _ _ = err keys_not_set

-- The price source is given by its keys.
unfoldable pub build_live_data_sources :
    Option Text → Option Text → Result KeyError ((Text × Text) × HeadlineFeed)
build_live_data_sources api_key secret_key = elim (alpaca_keys api_key secret_key) [
  | err e ↦ err e
  | ok (api, secret) ↦ ok ((api, secret), alpaca_news api secret)
]

unfoldable pub build_historical_data_sources :
    Option Text → Option Text → Result KeyError ((Text × Text) × HeadlineFeed)
build_historical_data_sources api_key secret_key = elim (alpaca_keys api_key secret_key) [
  | err e ↦ err e
  | ok keys ↦ ok (keys, historical)
]
