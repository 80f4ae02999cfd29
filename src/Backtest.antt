-- ===== src/Backtest.antt =====
-- app/agent/backtest.py: the days of a backtest, the fills, and the loop over days and symbols.
-- Days are counted from some Monday, times in hours. A quoted price is a whole number of 1/10000 dollar,
-- and an amount a whole number of 1/10000 of that, so that a fill at a whole number of basis points is
-- exact. What the nodes before the risk manager and the price source say of a symbol on a day is a
-- parameter, `market`; so is `store`, the conversion to a NUMERIC column, and whether the spending cap
-- stops the run before its n-th day.
pub mod Safety
pub mod Fills
pub mod Loop
pub mod Day
pub mod Runs
pub mod Resume
pub mod Finish
pub mod Usage
mod Tests
use paper_trading_agent.Base.{
  ℕ, zero, suc, ◌+◌, ◌-◌, ◌*◌, ◌%◌, Bool, true, false, ◌&&◌, ◌||◌, not, Option, none, some, List,
  [], ◌∷◌, ◌++◌, ltb, ◌==◌, if◌then◌else◌, ℤ, pos, sub_ℕ, eq_ℤ, select, Result, ok, err, ◌>>=◌,
  or_raise,
}
use paper_trading_agent.Numbers.Ratio.{Ratio}
use paper_trading_agent.State.{Symbol, Action, buy, sell, hold, TentativeDecision}
use paper_trading_agent.RiskManager.{Ruling, v1_rules, apply_budget}
use paper_trading_agent.Outcomes.{Outcomes}
use paper_trading_agent.Ledger.{TradeError, record_backtest_trade}
use paper_trading_agent.Positions.{list_positions, current_qty}

-- `price * (1 ± bps / 10000)`, for a quote and a whole number of basis points.
unfoldable pub apply_slippage : ℕ → Action → ℕ → ℤ
apply_slippage price buy bps = pos (price * (10_000 + bps))
apply_slippage price sell bps = sub_ℕ (price * 10_000) (price * bps)
apply_slippage price hold bps = pos (price * 10_000)

-- `date.weekday() < 5`, for a count of days from a Monday.
abbrev pub is_weekday : ℕ → Bool
is_weekday d = ltb (d % 7) 5

-- `current` and the number of days up to `window_end` that are left.
unfoldable pub weekdays_from : ℕ → ℕ → List ℕ
weekdays_from current zero = []
weekdays_from current (suc left) =
    let rest = weekdays_from (current + 1) left in
    if is_weekday current then current ∷ rest else rest

unfoldable pub trading_days : ℕ → ℕ → List ℕ
unfolding weekdays_from
trading_days window_start window_end = weekdays_from window_start (window_end + 1 - window_start)

-- Midday UTC of the day.
abbrev pub as_of_day : ℕ → ℕ
as_of_day d = 24 * d + 12

-- What is known of a symbol on a day: the Portfolio Manager's proposal, the VaR figure, the Technical
-- Analyst's `current_price` and the day's opening price; and whether `graph.ainvoke` raises, and whether an
-- INSERT of the decision and its opinions, record_trace, record_var_forecast or record_explanation does.
pub record Market : Type 0 where
  pub proposal : TentativeDecision
  pub var : Option Ratio
  pub current_price : Option ℕ
  pub open_price : Option ℕ
  pub graph_raises : Bool
  pub records_raise : Bool

pub record DecisionRow : Type 0 where
  pub id : ℕ
  pub day : ℕ
  pub symbol : Symbol
  pub action : Action
  pub execution_price : Option ℕ

pub record Database : Type 0 where
  pub outcomes : Outcomes
  pub decisions : List DecisionRow
  pub next_decision : ℕ
  pub finished_days : List ℕ

-- `no_open` is the ValueError of a session with no opening price, `graph_raised` whatever the graph raises,
-- and `record_raised` whatever the writing of the decision's rows before its fill raises.
pub data BacktestError : Type 0 where
  no_open graph_raised record_raised : BacktestError
  trade : TradeError → BacktestError

abbrev pub lift_trade : {A : Type 0} → Result TradeError A → Result BacktestError A
lift_trade (ok a) = ok a
lift_trade (err e) = err (trade e)

abbrev pub unless_raised : {A : Type 0} → BacktestError → Bool → A → Result BacktestError A
unless_raised e true a = err e
unless_raised e false a = ok a

-- The risk manager's node in the graph: the final action and quantity of its partial state.
unfoldable pub graph_ruling : Market → ℤ → Ruling
graph_ruling m held = (apply_budget m.var held (v1_rules m.proposal held)).final

-- `graph.ainvoke`: final_action and final_quantity of its result.
abbrev pub invoke_graph : Market → ℤ → Result BacktestError Ruling
invoke_graph m held = unless_raised graph_raised m.graph_raises (graph_ruling m held)

-- The writing of the rows of a decision, up to its fill.
abbrev pub write_records : Market → Result BacktestError Unit
write_records m = unless_raised record_raised m.records_raise tt

module _ (store : ℤ → Option ℤ) (market : Symbol → ℕ → Market) (bps : ℕ) (fill_at_open : Bool)
    (backtest_id : ℕ) where
  -- The opening price where the run fills at the open, `none` where it does not.
  abbrev pub execution_price : Market → Result BacktestError (Option ℕ)
  execution_price m =
      if fill_at_open
      then elim m.open_price [ none ↦ err no_open | some p ↦ ok (some p) ]
      else ok none

  -- The fill of a decision, if there is a price and anything to trade.
  unfoldable pub fill_trade :
      ℕ → ℕ → Symbol → Ruling → Option ℕ → Option ℕ → Outcomes → Result TradeError Outcomes
  fill_trade day decision symbol r exec none t = ok t
  fill_trade day decision symbol r exec (some raw) t =
      if eq_ℤ r.quantity (pos 0)
      then ok t
      else (let price : ℕ = elim exec [ none ↦ raw | some p ↦ p ] in
          record_backtest_trade store backtest_id decision symbol r.action r.quantity
            (apply_slippage price r.action bps) (as_of_day day) t)

  -- One symbol of a day. The positions are read over another connection, which sees only the days
  -- that are committed.
  unfoldable pub decide_symbol : ℕ → Outcomes → Symbol → Database → Result BacktestError Database
  decide_symbol day committed symbol db =
      let m = market symbol day in
      let held = current_qty (list_positions (some backtest_id) (some symbol) committed.rows) in
      invoke_graph m (pos held) >>= λ r. execution_price m >>= λ exec. write_records m >>= λ _.
      lift_trade (fill_trade day db.next_decision symbol r exec m.current_price db.outcomes)
      >>= λ t. ok (record {
        outcomes = t;
        decisions =
            db.decisions
            ++ record {
              id = db.next_decision;
              day = day;
              symbol = symbol;
              action = r.action;
              execution_price = exec;
            }
              ∷ [];
        next_decision = db.next_decision + 1;
        finished_days = db.finished_days;
      })

  unfoldable pub decide_symbols :
      ℕ → Outcomes → List Symbol → Database → Result BacktestError Database
  decide_symbols day committed [] db = ok db
  decide_symbols day committed (s ∷ ss) db =
      decide_symbol day committed s db >>= λ db'. decide_symbols day committed ss db'

  -- One day, in one transaction.
  unfoldable pub run_day : List Symbol → ℕ → Database → Result BacktestError Database
  run_day symbols day db = decide_symbols day db.outcomes symbols db >>= λ db'.
      ok (record db' { finished_days = db'.finished_days ++ day ∷ [] })

  -- The days in order, until one raises or the spending cap stops the run: what is committed, and
  -- whether all days are done. The test of the cap is skipped before the first day.
  unfoldable pub run_days : (ℕ → Bool) → List Symbol → ℕ → List ℕ → Database → Database × Bool
  run_days over_cap symbols done [] db = (db, true)
  run_days over_cap symbols done (d ∷ ds) db = elim (ltb 0 done && over_cap done) [
    | true ↦ (db, false)
    | false ↦ elim (run_day symbols d db) [
      | err e ↦ (db, false)
      | ok db' ↦ run_days over_cap symbols (done + 1) ds db'
    ]
  ]
