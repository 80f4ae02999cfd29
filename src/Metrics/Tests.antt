-- ===== src/Metrics/Tests.antt =====
-- The metrics of a backtest with one closed and one open trade.
use paper_trading_agent.Base.{◌≡◌, refl, none, some, [], ◌∷◌, pos}
use paper_trading_agent.Outcomes.{Row, opened, closed}
use paper_trading_agent.Metrics.{compute_backtest_metrics}

abbrev lot : Row
lot = record {
  id = 0;
  backtest_id = some 6;
  decision_id = 1;
  symbol = [];
  quantity = 4;
  entry_price = pos 100;
  opened_at = 12;
  status = opened;
  exit_price = none;
  closed_at = none;
  realized_pnl = none;
}

abbrev sold_lot : Row
sold_lot = record lot {
  id = 1;
  status = closed;
  exit_price = some (pos 120);
  closed_at = some 36;
  realized_pnl = some (pos 80);
}

closed_and_open :
    let m = compute_backtest_metrics 6 (lot ∷ sold_lot ∷ []) in
    (m.closed_trades ≡ 1) × (m.open_trades_at_window_end ≡ 1)
unfolding compute_backtest_metrics
closed_and_open = (refl, refl)
