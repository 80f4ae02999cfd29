-- ===== src/DataSources/Tests.antt =====
-- Bars of three days, for a decision at noon of the third; hours, with closes at 21:00.
use paper_trading_agent.Base.{ℕ, ◌+◌, ◌*◌, ◌/◌, ◌<◌, ◌≡◌, List, [], ◌∷◌, All, count_if, leb, arith}
use paper_trading_agent.DataSources.{PriceBar, bars_closed_before, bars_closed_before_lem}
use paper_trading_agent.Base.{◌-◌, ◌+◌, ◌*◌, ◌/◌, select, codes, pos}
use paper_trading_agent.Base.{Text}
use paper_trading_agent.Numbers.Sorting.{sorted}
use paper_trading_agent.DataSources.Headlines.{
  HeadlineRow, day_seconds, published_later, get_recent_headlines, is_available, IsBehindUtc,
  EndsBefore, NoLookAhead, get_recent_headlines_lem,
}

abbrev day_of : ℕ → ℕ
day_of t = t / 24

abbrev close_of : ℕ → ℕ
close_of d = d * 24 + 21

abbrev bar_at : ℕ → ℕ → PriceBar
bar_at time price = record {
  symbol = [];
  timestamp = time;
  open_price = price;
  high = price;
  low = price;
  close = price;
  volume = 1;
}

abbrev three_bars : List PriceBar
three_bars = bar_at 5 100 ∷ bar_at 29 101 ∷ bar_at 53 102 ∷ []

bars_closed_before_lem_example :
    All
      (λ (bar : PriceBar). day_of bar.timestamp < day_of 60)
      (bars_closed_before day_of close_of three_bars 60)
    × (count_if
          (λ (bar : PriceBar). leb (close_of (day_of bar.timestamp)) 60)
          (bars_closed_before day_of close_of three_bars 60)
        ≡ count_if (λ (bar : PriceBar). leb (close_of (day_of bar.timestamp)) 60) three_bars)
bars_closed_before_lem_example =
    bars_closed_before_lem day_of close_of (λ a b h. omega arith) three_bars 60 (omega arith)

-- New York in winter, on UTC dates.
abbrev winter_midnight : ℕ → ℕ
winter_midnight d = day_seconds * d + 18_000

abbrev winter_day : ℕ → ℕ
winter_day t = (t - 18_000) / day_seconds

winter-IsBehindUtc : IsBehindUtc winter_day winter_midnight
winter-IsBehindUtc d = (omega arith, omega arith)

winter-EndsBefore : EndsBefore winter_day winter_midnight
winter-EndsBefore d t h = omega (arith, h)

abbrev dated : ℕ → HeadlineRow
dated t = record { id = pos 1; symbol = codes "AAPL"; published_at = t; headline = []; source = [] }

abbrev two_stamps : List HeadlineRow
two_stamps = dated (day_seconds * 8) ∷ dated (day_seconds * 9) ∷ []

get_recent_headlines_lem_example :
    (get_recent_headlines winter_day winter_midnight
        (codes "AAPL")
        (day_seconds * 9 + 43_200)
        3
        two_stamps
      ≡ sorted published_later (
          select
            (is_available winter_day winter_midnight (codes "AAPL") (day_seconds * 9 + 43_200) 3)
            two_stamps))
    × All (NoLookAhead winter_day winter_midnight (day_seconds * 9 + 43_200)) (
        get_recent_headlines winter_day winter_midnight
          (codes "AAPL")
          (day_seconds * 9 + 43_200)
          3
          two_stamps)
get_recent_headlines_lem_example =
    get_recent_headlines_lem winter_day winter_midnight winter-IsBehindUtc winter-EndsBefore
      (codes "AAPL") (day_seconds * 9 + 43_200) 3 two_stamps

abbrev two_bars : Text → ℕ → ℕ → List PriceBar
two_bars symbol as_of lookback_days = bar_at 5 100 ∷ bar_at 29 101 ∷ []

abbrev questions : List (Text × ℕ)
questions = (codes "AAPL", 1) ∷ (codes "MSFT", 0) ∷ (codes "AAPL", 0) ∷ []
