-- ===== src/Live/Tests.antt =====
-- A live cycle over a watchlist of two symbols, of which one is active.
use paper_trading_agent.Base.{
  ◌≡◌, ◌≢◌, refl, ◌≤◌, true, false, Option, none, some, [], ◌∷◌, ℤ, pos, ◌≤ℤ◌, int_laws, err, All,
  codes, same_text, arith,
}
use paper_trading_agent.State.{Symbol, buy}
use paper_trading_agent.Numbers.Ratio.{Ratio}
use paper_trading_agent.Numbers.Sorting.{sorted}
use paper_trading_agent.Outcomes.{total_quantity}
use paper_trading_agent.Ledger.{oversold}
use paper_trading_agent.Trace.{new_recorder}
use paper_trading_agent.Backtest.Safety.{IsSound}
use paper_trading_agent.Backtest.Fills.{IsTicker, Apart}
use paper_trading_agent.Live.{
  Answer, LiveDatabase, trade, active_symbols, latest_close, run_decision_cycle, after_cycle,
}
use paper_trading_agent.Live.Cycle.{run_decision_cycle-IsSound}
use paper_trading_agent.Live.Prices.{latest_close_never_moves}

abbrev exact : ℤ → Option ℤ
exact x = some x

abbrev small : Ratio
small = record { num = pos 1; den_pred = 99 }

-- A purchase of 15 at a quote of 100 dollars.
abbrev eager : Symbol → Answer
eager s = record {
  proposal = record { action = buy; quantity = pos 15 };
  current_price = some 1_000_000;
  figures = record {
    var_confidence = small;
    var_window = 250;
    var_95 = none;
    cvar_95 = none;
    parametric_var_95 = none;
    parametric_cvar_95 = none;
    var_budget = small;
    var_max_qty = none;
    last_close = none;
    risk_flags = [];
  };
  recorder = new_recorder;
  explanation = none;
}

eager_nonneg : (s : Symbol) → pos 0 ≤ℤ (eager s).proposal.quantity
eager_nonneg s = omega int_laws

-- An empty book, with a price of 90 dollars for the active symbol.
abbrev priced : LiveDatabase
priced = record {
  watchlist =
      record { symbol = codes "MSFT"; active = false }
      ∷ record { symbol = codes "AAPL"; active = true }
      ∷ [];
  runs = [];
  next_run = 0;
  decisions = [];
  next_decision = 0;
  opinions = [];
  traces = [];
  forecasts = record { rows = []; next_id = 0 };
  explanations = [];
  snapshots = record { symbol = codes "AAPL"; captured_at = 3; close = pos 9_000_000_000 } ∷ [];
  outcomes = record { rows = []; next_id = 0 };
}

none_held : total_quantity [] ≤ 20
unfolding total_quantity
none_held = omega arith

priced-IsSound : IsSound none 0 priced.outcomes
priced-IsSound = record {
  ledgers = λ s. record { ids = omega arith; in_order = tt };
  capped = λ s. none_held;
  past = tt;
}

priced-Apart : Apart (active_symbols priced.watchlist)
unfolding active_symbols sorted
priced-Apart = (tt, tt)

priced-IsTicker : All IsTicker (active_symbols priced.watchlist)
unfolding active_symbols sorted
priced-IsTicker = (((λ e. cc), refl), tt)

run_decision_cycle-IsSound_example :
    (run_decision_cycle exact eager 30 31 priced ≢ err (trade oversold))
    × IsSound none 30 (after_cycle exact eager 30 31 priced).outcomes
run_decision_cycle-IsSound_example =
    run_decision_cycle-IsSound exact eager eager_nonneg 0 30 31 priced (omega arith) priced-Apart
      priced-IsTicker priced-IsSound

known_price : latest_close (codes "AAPL") priced.snapshots ≡ some (pos 9_000_000_000)
unfolding latest_close same_text
known_price = refl

latest_close_never_moves_example :
    latest_close (codes "AAPL") (after_cycle exact eager 30 31 priced).snapshots
    ≡ some (pos 9_000_000_000)
latest_close_never_moves_example =
    latest_close_never_moves exact (codes "AAPL") (pos 9_000_000_000) refl eager 30 31 priced
      known_price
