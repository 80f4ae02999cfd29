-- ===== src/Metrics.antt =====
-- compute_backtest_metrics of app/agent/backtest.py, over the rows of one backtest.
mod Tests
use paper_trading_agent.Base.{
  ℕ, zero, suc, ◌+◌, ◌≤◌, ◌<◌, ◌≡◌, refl, ◌↔◌, ◌⊎◌, inl, inr, Bool, true, false, not, ◌&&◌, Option,
  none, some, List, [], ◌∷◌, if◌then◌else◌, ℤ, pos, ◌+ℤ◌, ltb_ℤ, count_if, arith,
}
use paper_trading_agent.Numbers.Ratio.{Ratio, ◌≤R◌, zero_R}
use paper_trading_agent.Outcomes.{Row, Status, opened, closed, is_open, same_book}

abbrev pub in_backtest : ℕ → Row → Bool
in_backtest backtest_id r = same_book r.backtest_id (some backtest_id)

abbrev pub is_closed_trade : ℕ → Row → Bool
is_closed_trade backtest_id r = in_backtest backtest_id r && not (is_open r.status)

abbrev pub is_open_trade : ℕ → Row → Bool
is_open_trade backtest_id r = in_backtest backtest_id r && is_open r.status

-- `realized_pnl > 0`, which is not true of NULL.
abbrev pub is_gain : Option ℤ → Bool
is_gain none = false
is_gain (some pnl) = ltb_ℤ (pos 0) pnl

abbrev pub is_winning_trade : ℕ → Row → Bool
is_winning_trade backtest_id r = is_closed_trade backtest_id r && is_gain r.realized_pnl

abbrev pub pnl_or_zero : Option ℤ → ℤ
pnl_or_zero none = pos 0
pnl_or_zero (some pnl) = pnl

-- COALESCE(SUM(realized_pnl) FILTER (WHERE status = 'CLOSED'), 0)
unfoldable pub realized_sum : ℕ → List Row → ℤ
realized_sum backtest_id [] = pos 0
realized_sum backtest_id (r ∷ rs) =
    let rest = realized_sum backtest_id rs in
    if is_closed_trade backtest_id r then pnl_or_zero r.realized_pnl +ℤ rest else rest

pub record Metrics : Type 0 where
  pub closed_trades : ℕ
  pub open_trades_at_window_end : ℕ
  pub realized_pnl : ℤ
  pub win_rate : Option Ratio

-- `winning / closed if closed else None`
unfoldable pub win_rate_of : ℕ → ℕ → Option Ratio
win_rate_of winning zero = none
win_rate_of winning (suc c) = some (record { num = pos winning; den_pred = c })

unfoldable pub compute_backtest_metrics : ℕ → List Row → Metrics
compute_backtest_metrics backtest_id rows =
    let closed_rows = count_if (is_closed_trade backtest_id) rows in
    record {
      closed_trades = closed_rows;
      open_trades_at_window_end = count_if (is_open_trade backtest_id) rows;
      realized_pnl = realized_sum backtest_id rows;
      win_rate = win_rate_of (count_if (is_winning_trade backtest_id) rows) closed_rows;
    }

closed-or-open :
    (backtest_id : ℕ) (rows : List Row)
    → count_if (is_closed_trade backtest_id) rows + count_if (is_open_trade backtest_id) rows
      ≡ count_if (in_backtest backtest_id) rows
closed-or-open backtest_id [] = omega arith
closed-or-open backtest_id (r ∷ rs) = ground (arith, closed-or-open backtest_id rs)

winning-le-closed :
    (backtest_id : ℕ) (rows : List Row)
    → count_if (is_winning_trade backtest_id) rows ≤ count_if (is_closed_trade backtest_id) rows
winning-le-closed backtest_id [] = omega arith
winning-le-closed backtest_id (r ∷ rs) = ground (arith, winning-le-closed backtest_id rs)

win_rate_of-bounds :
    (winning c : ℕ)
    → winning ≤ c
    → ((c ≡ 0) × (win_rate_of winning c ≡ none))
      ⊎ ((w : Ratio) × (win_rate_of winning c ≡ some w)
          × (zero_R ≤R w)
          × (w ≤R record { num = pos 1; den_pred = 0 }))
unfolding win_rate_of
win_rate_of-bounds winning zero h = inl (refl, refl)
win_rate_of-bounds winning (suc c) h =
    inr (record { num = pos winning; den_pred = c }, refl, omega arith, omega arith)

-- The closed and the open trades are together the rows of the backtest, the win rate lies within 0 and 1,
-- and there is none exactly when no trade is closed.
compute_backtest_metrics_lem :
    (backtest_id : ℕ) (rows : List Row)
    → let m = compute_backtest_metrics backtest_id rows in
      (m.closed_trades + m.open_trades_at_window_end ≡ count_if (in_backtest backtest_id) rows)
      × (((m.closed_trades ≡ 0) × (m.win_rate ≡ none))
          ⊎ ((w : Ratio) × (m.win_rate ≡ some w)
              × (zero_R ≤R w)
              × (w ≤R record { num = pos 1; den_pred = 0 })))
unfolding compute_backtest_metrics
compute_backtest_metrics_lem backtest_id rows =
    (closed-or-open backtest_id rows, win_rate_of-bounds _ _ (winning-le-closed backtest_id rows))
