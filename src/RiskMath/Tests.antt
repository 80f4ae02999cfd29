-- ===== src/RiskMath/Tests.antt =====
-- The figures of app/agent/risk_math.py over a short window.
use mathlib.Core.List.{zip}
use paper_trading_agent.Base.{
  ℕ, Bool, true, false, ◌≤◌, ◌<◌, ◌≡◌, ◌↔◌, refl, ok, err, none, OnEnd, leb, codes, some, List, [],
  ◌∷◌, not, pos, negsuc, count_if, arith,
}
use paper_trading_agent.Numbers.Ratio.{Ratio, leb_R, add_R, div_R}
use paper_trading_agent.Numbers.Sorting.{sorted, IsSorted}
use paper_trading_agent.RiskMath.{
  tail_count, window_losses, historical_var, historical_cvar, mean_R, sum_R,
}
use paper_trading_agent.RiskMath.Tail.{losses_in, historical_var_rank}
use paper_trading_agent.Base.Dict.{holds_key}
use paper_trading_agent.State.{Symbol}
use paper_trading_agent.RiskMath.Correlation.{
  Closes, same_day, in_all, common_days, aligned_returns, pearson, correlation, co_sum, exceeds,
}
use paper_trading_agent.RiskMath.Correlation.Aligned.{
  shared_days, Aligned, AtZeroClose, aligned_returns_lem,
}

-- -1%, +2%, -3%, -4%.
abbrev four_returns : List Ratio
four_returns =
    record { num = negsuc 0; den_pred = 99 }
    ∷ record { num = pos 2; den_pred = 99 }
    ∷ record { num = negsuc 2; den_pred = 99 }
    ∷ record { num = negsuc 3; den_pred = 99 }
    ∷ []

historical_var_rank_example :
    (var : Ratio) × (historical_var four_returns 5000 4 ≡ some var)
    × (tail_count 4 5000 ≤ count_if (λ l. leb_R var l) (losses_in four_returns 4))
    × (count_if (λ l. not (leb_R l var)) (losses_in four_returns 4) < tail_count 4 5000)
historical_var_rank_example = historical_var_rank four_returns 5000 4 (omega arith) (omega arith)

var_run : historical_var four_returns 5000 4 ≡ some (record { num = pos 3; den_pred = 99 })
unfolding historical_var window_losses sorted tail_count
var_run = refl

cvar_run : historical_cvar four_returns 5000 4 ≡ some (record { num = pos 700; den_pred = 19_999 })
unfolding historical_cvar window_losses sorted tail_count mean_R sum_R add_R div_R
cvar_run = refl

-- The second symbol has no close on day 5.
abbrev listed_first : Symbol × Closes
listed_first = (codes "AAPL", (4, 100) ∷ (5, 102) ∷ (6, 99) ∷ [])

abbrev listed_second : Symbol × Closes
listed_second = (codes "MSFT", (6, 310) ∷ (4, 300) ∷ [])

aligned_returns_lem_example :
    let days = shared_days (listed_first ∷ listed_second ∷ []) in
    IsSorted leb days
    × ((day : ℕ)
        → (0 < count_if (same_day day) days)
          ↔ (in_all (listed_first ∷ listed_second ∷ []) day ≡ true))
    × OnEnd
        (AtZeroClose days (listed_first ∷ listed_second ∷ []))
        (Aligned days (listed_first ∷ listed_second ∷ []))
        (aligned_returns (listed_first ∷ listed_second ∷ []))
aligned_returns_lem_example = aligned_returns_lem listed_first (listed_second ∷ [])

two_days_are_shared : shared_days (listed_first ∷ listed_second ∷ []) ≡ 4 ∷ 6 ∷ []
unfolding sorted common_days in_all holds_key
two_days_are_shared = refl

abbrev gains : List Ratio
gains =
    record { num = pos 1; den_pred = 99 }
    ∷ record { num = pos 2; den_pred = 99 }
    ∷ record { num = pos 4; den_pred = 99 }
    ∷ []

abbrev double_gains : List Ratio
double_gains =
    record { num = pos 2; den_pred = 99 }
    ∷ record { num = pos 4; den_pred = 99 }
    ∷ record { num = pos 8; den_pred = 99 }
    ∷ []

-- Whether two series have a correlation above a limit, in hundredths.
above_limit : ℕ → List Ratio → List Ratio → Bool
unfolding correlation exceeds
above_limit limit a b = elim (correlation a b) [
  | err e ↦ false
  | ok none ↦ false
  | ok (some c) ↦ exceeds limit c
]

proportional_series :
    (above_limit 99 gains double_gains ≡ true) × (above_limit 100 gains double_gains ≡ false)
unfolding above_limit pearson co_sum mean_R sum_R add_R div_R zip
proportional_series = (refl, refl)
