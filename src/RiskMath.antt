-- ===== src/RiskMath.antt =====
-- app/agent/risk_math.py: simple returns, the tail count, historical VaR and CVaR, and the tail losses.
-- Closes are whole numbers of a price unit; a confidence is in basis points, so that 95% is 9500.
pub mod Tail
pub mod Returns
pub mod Correlation
mod Tests
use mathlib.Core.List.{zip}
use paper_trading_agent.Base.{
  Bool, ℕ, zero, suc, ◌+◌, ◌-◌, ◌*◌, ◌/◌, max, Option, none, some, List, [], ◌∷◌, map, ltb, ◌==◌,
  not, ◌||◌, if◌then◌else◌, sub_ℕ, length, get_elem?, take, last_n,
}
use paper_trading_agent.Numbers.Ratio.{Ratio, neg_R, add_R, div_R, zero_R, leb_R, larger_first}
use paper_trading_agent.Numbers.Sorting.{sorted}

abbrev pub confidence : ℕ
confidence = 9500

abbrev pub var_window : ℕ
var_window = 250

-- One day's return; `none` is Python's ZeroDivisionError.
unfoldable pub simple_return : ℕ → ℕ → Option Ratio
simple_return zero close = none
simple_return (suc p) close = some (record { num = sub_ℕ close (suc p); den_pred = p })

unfoldable pub simple_returns : List ℕ → Option (List Ratio)
unfolding simple_return
simple_returns [] = some []
simple_returns (c ∷ []) = some []
simple_returns (c ∷ d ∷ cs) = elim (simple_return c d) [
  | none ↦ none
  | some r ↦ elim (simple_returns (d ∷ cs)) [ none ↦ none | some rs ↦ some (r ∷ rs) ]
]

-- `max(1, ceil(n * (1 - confidence)))`, in whole basis points.
unfoldable pub tail_count : ℕ → ℕ → ℕ
tail_count n conf = max 1 ((n * (10_000 - conf) + 9_999) / 10_000)

-- The losses of the last `window` returns, largest first.
unfoldable pub window_losses : List Ratio → ℕ → List Ratio
unfolding sorted
window_losses returns window = sorted larger_first (map neg_R (last_n window returns))

unfoldable pub historical_var : List Ratio → ℕ → ℕ → Option Ratio
historical_var returns conf window =
    if ltb (length returns) window
    then none
    else get_elem? (window_losses returns window) (tail_count window conf - 1)

unfoldable pub sum_R : List Ratio → Ratio
unfolding add_R
sum_R [] = zero_R
sum_R (r ∷ rs) = add_R r (sum_R rs)

-- `sum(tail) / len(tail)`; `none` stands for the division by zero of an empty tail.
unfoldable pub mean_R : List Ratio → Option Ratio
unfolding sum_R div_R
mean_R [] = none
mean_R (r ∷ rs) = some (div_R (sum_R (r ∷ rs)) (length rs))

unfoldable pub historical_cvar : List Ratio → ℕ → ℕ → Option Ratio
historical_cvar returns conf window =
    if ltb (length returns) window
    then none
    else mean_R (take (tail_count window conf) (window_losses returns window))

-- The days behind the VaR figure, worst first, each with its return.
module _ {Label : Type 0} where
  abbrev pub worse_return : Ratio × Label → Ratio × Label → Bool
  worse_return (r, _) (s, _) = leb_R r s

  abbrev pub label_first : Ratio × Label → Label × Ratio
  label_first (r, label) = (label, r)

  unfoldable pub tail_losses : List Ratio → List Label → ℕ → ℕ → Option (List (Label × Ratio))
  tail_losses returns labels conf window =
      if ltb (length returns) window || not (length labels == length returns)
      then none
      else some (
          map label_first (
            take (tail_count window conf)
              (sorted worse_return (zip (last_n window returns) (last_n window labels)))))
