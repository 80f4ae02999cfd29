-- ===== src/RiskManager/Tests.antt =====
-- The risk manager and its limits on single proposals.
use paper_trading_agent.Base.{
  ◌+◌, ◌*◌, ◌≤◌, ◌<◌, ◌≡◌, ◌⊎◌, ℕ, refl, Option, none, some, List, [], ◌∷◌, codes, same_text, OnEnd,
  pos, int_laws,
}
use paper_trading_agent.Numbers.Ratio.{Ratio}
use paper_trading_agent.State.{buy, Symbol, TentativeDecision}
use paper_trading_agent.DataSources.{PriceBar}
use paper_trading_agent.Positions.{Position}
use paper_trading_agent.RiskMath.Correlation.{zero_division, Correlation, exceeds}
use paper_trading_agent.RiskManager.Node.{risk_manager, flag_pairs, flag_pair, flag_other}
use paper_trading_agent.RiskManager.Node.Flags.{IsGated, risk_manager_lem}
use paper_trading_agent.RiskManager.{
  max_position_qty, billion, v1_rules, var_max_qty, high_correlation,
}
use paper_trading_agent.RiskManager.Limits.{Answers, v1_rules_answer}
use paper_trading_agent.RiskManager.Budget.{positive_var, var_max_qty_bounds}

abbrev buy_ten : TentativeDecision
buy_ten = record { action = buy; quantity = pos 10 }

-- A VaR of 3%.
abbrev three_percent : Ratio
three_percent = positive_var 2 99

v1_rules_answer_example : Answers buy_ten (v1_rules buy_ten (pos 15))
v1_rules_answer_example = v1_rules_answer buy_ten (pos 15) (omega int_laws) (omega int_laws)

var_max_qty_bounds_example :
    let q = var_max_qty (positive_var 2 99) in
    (q ≤ max_position_qty)
    × (10 * billion * (3 * q) ≤ 4 * billion * 100 + 5 * 3)
    × ((q ≡ max_position_qty) ⊎ (2 * 100 < 5 * (3 * (q + 1))))
var_max_qty_bounds_example = var_max_qty_bounds 2 99

abbrev aapl : Symbol
aapl = codes "AAPL"

abbrev msft : Symbol
msft = codes "MSFT"

abbrev close_bar : ℕ → ℕ → PriceBar
close_bar day close = record {
  symbol = aapl;
  timestamp = day;
  open_price = close;
  high = close;
  low = close;
  close = close;
  volume = 1;
}

abbrev two_days : Symbol → ℕ → List PriceBar
two_days s days = close_bar 4 100 ∷ close_bar 5 102 ∷ []

abbrev position_in : Symbol → Position
position_in s = record { symbol = s; quantity = 15; avg_entry_price = pos 900_000; opened_at = 2 }

-- Shares of both symbols are held.
abbrev both_held : Option Symbol → List Position
both_held none = position_in aapl ∷ position_in msft ∷ []
both_held (some s) = position_in s ∷ []

risk_manager_lem_example :
    OnEnd
      (λ x. x ≡ zero_division)
      (IsGated (λ t. t) (two_days aapl 400) (both_held none) aapl buy_ten 15)
      (risk_manager (λ t. t) two_days both_held aapl buy_ten)
risk_manager_lem_example = risk_manager_lem (λ t. t) two_days both_held aapl buy_ten

-- A covariance of 2% and variances of 2%: a correlation of 1.
abbrev two_percent : Ratio
two_percent = record { num = pos 2; den_pred = 99 }

abbrev linked : Correlation
linked = record { cov = two_percent; var_a = two_percent; var_b = two_percent }

-- A matrix entry that names the symbol second flags the first.
first_is_flagged :
    (flag_pairs msft (((aapl, msft), some linked) ∷ []) ([], [])).1 ≡ high_correlation aapl ∷ []
unfolding flag_pairs flag_pair flag_other exceeds same_text
first_is_flagged = refl
