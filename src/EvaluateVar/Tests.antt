-- ===== src/EvaluateVar/Tests.antt =====
-- Forecasts of scripts/evaluate_var.py over 255 days, and what its verdict says.
use paper_trading_agent.Base.{
  ℕ, zero, suc, ◌+◌, ◌*◌, ◌%◌, ◌≤◌, ◌<◌, ◌≡◌, refl, List, [], ◌∷◌, select, drop, All, ok, pos,
  negsuc, arith,
}
use paper_trading_agent.Numbers.Ratio.{Ratio}
use paper_trading_agent.RiskMath.{var_window}
use paper_trading_agent.RiskMath.Returns.{Priced}
use paper_trading_agent.RiskManager.Figures.{closes_of, ny_days}
use paper_trading_agent.DataSources.{PriceBar}
use paper_trading_agent.EvaluateVar.{
  noon, naive_var, DayForecast, is_within, forecasts_of, breaches, beats_naive, no_difference,
  rejected, verdict,
}
use paper_trading_agent.EvaluateVar.Round.{RisingDays}
use paper_trading_agent.EvaluateVar.Agreement.{Agrees, days_in, forecasts_of_lem}

abbrev bar_at : ℕ → PriceBar
bar_at t = record {
  symbol = 65 ∷ [];
  timestamp = t;
  open_price = 100;
  high = 110;
  low = 90;
  close = 100 + t % 7;
  volume = 0;
}

abbrev bars_from : ℕ → ℕ → List PriceBar
bars_from day zero = []
bars_from day (suc n) = bar_at day ∷ bars_from (suc day) n

bars_from-Priced : (day n : ℕ) → Priced (closes_of (bars_from day n))
bars_from-Priced day zero = tt
bars_from-Priced day (suc n) = (omega arith, bars_from-Priced (suc day) n)

-- A session closes at 21:00 UTC.
abbrev session_close : ℕ → ℕ
session_close day = day * 86_400 + 75_600

closed : (d day : ℕ) → d < day → session_close d ≤ noon day
closed d day h = omega arith

running : (d day : ℕ) → day ≤ d → noon day < session_close d
running d day h = omega arith

bars_from-All :
    (day first n : ℕ) → day < first → All (λ (c : PriceBar). day < c.timestamp) (bars_from first n)
bars_from-All day first zero h = tt
bars_from-All day first (suc n) h = (h, bars_from-All day (suc first) n (omega arith))

bars_from-RisingDays : (day n : ℕ) → RisingDays (λ t. t) (bars_from day n)
bars_from-RisingDays day zero = tt
bars_from-RisingDays day (suc n) =
    (bars_from-All day (suc day) n (omega arith), bars_from-RisingDays (suc day) n)

forecasts_of_lem_example :
    (rows : List DayForecast) × (forecasts_of (λ t. t) (bars_from 1000 255) 1252 1300 ≡ ok rows)
    × All (Agrees (λ t. t) session_close closed running (bars_from 1000 255)) rows
    × (days_in rows
        ≡ select
            (is_within 1252 1300)
            (drop (suc var_window) (ny_days (λ t. t) (bars_from 1000 255))))
forecasts_of_lem_example =
    forecasts_of_lem (λ t. t) session_close closed running 1252 1300 (bars_from 1000 255)
      (bars_from-Priced 1000 255) (bars_from-RisingDays 1000 255)

-- A loss of exactly 2% is no breach, and one of 3% is.
abbrev two_days : List DayForecast
two_days =
    record {
      day = 1;
      historical = record { num = pos 3; den_pred = 99 };
      naive = naive_var;
      realized = record { num = negsuc 1; den_pred = 99 };
    }
    ∷ record {
      day = 2;
      historical = record { num = pos 3; den_pred = 99 };
      naive = naive_var;
      realized = record { num = negsuc 2; den_pred = 99 };
    }
    ∷ []

breaches_counted :
    (breaches two_days (λ (r : DayForecast). r.naive) ≡ 1)
    × (breaches two_days (λ (r : DayForecast). r.historical) ≡ 0)
unfolding breaches
breaches_counted = (refl, refl)

abbrev percent : ℕ → Ratio
percent n = record { num = pos n; den_pred = 99 }

verdicts :
    (verdict (percent 5) (percent 4) ≡ beats_naive)
    × (verdict (percent 5) (percent 5) ≡ no_difference)
    × (verdict (percent 4) (percent 4) ≡ rejected)
unfolding verdict
verdicts = (refl, refl, refl)
