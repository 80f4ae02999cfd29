-- ===== src/Backtest/Loop.antt =====
-- The loop of app/agent/backtest.py, a day at a time, and the days that it has finished.
use paper_trading_agent.Base.{
  ℕ, ◌+◌, ◌≡◌, ap, sym, ◌∙◌, Bool, true, false, ◌&&◌, Option, some, List, [], ◌∷◌, ◌++◌, ltb, ℤ,
  pos, Result, ok, err, >>=-eq-ok, ok_injective, arith,
}
use paper_trading_agent.State.{Symbol}
use paper_trading_agent.Outcomes.{Outcomes}
use paper_trading_agent.Positions.{list_positions, current_qty}
use paper_trading_agent.Backtest.{
  Market, Database, BacktestError, lift_trade, invoke_graph, write_records, execution_price,
  decide_symbol, decide_symbols, run_day, run_days,
}
use paper_trading_agent.Backtest.Fills.{fill}

module _ (store : ℤ → Option ℤ) (market : Symbol → ℕ → Market) (bps : ℕ) (fill_at_open : Bool)
    (backtest_id : ℕ) where
  abbrev mine : Option ℕ
  mine = some backtest_id

  abbrev price_of : Symbol → ℕ → Result BacktestError (Option ℕ)
  price_of s d = execution_price store market bps fill_at_open backtest_id (market s d)

  decide_symbol-finished :
      (day : ℕ) (committed : Outcomes) (s : Symbol) (db : Database) {db' : Database}
      → decide_symbol store market bps fill_at_open backtest_id day committed s db ≡ ok db'
      → db'.finished_days ≡ db.finished_days
  unfolding decide_symbol
  decide_symbol-finished day committed s db e =
      let m = market s day in
      let (r, _, e1) =
        >>=-eq-ok (invoke_graph m (pos (current_qty (list_positions mine (some s) committed.rows))))
          _ e in
      let (exec, _, e2) = >>=-eq-ok (price_of s day) _ e1 in
      let (written, _, e3) = >>=-eq-ok (write_records m) _ e2 in
      let (t, _, done) =
        >>=-eq-ok
          (lift_trade (
            fill store market bps fill_at_open backtest_id day db.next_decision s r exec
              m.current_price db.outcomes))
          _ e3 in
      sym (ap (λ (x : Database). x.finished_days) (ok_injective done))

  decide_symbols-finished :
      (day : ℕ) (committed : Outcomes) (ss : List Symbol) (db : Database) {db' : Database}
      → decide_symbols store market bps fill_at_open backtest_id day committed ss db ≡ ok db'
      → db'.finished_days ≡ db.finished_days
  unfolding decide_symbols
  decide_symbols-finished day committed [] db e =
      sym (ap (λ (x : Database). x.finished_days) (ok_injective e))
  decide_symbols-finished day committed (s ∷ ss) db e =
      let (db1, first, later) =
        >>=-eq-ok (decide_symbol store market bps fill_at_open backtest_id day committed s db) _
          e in
      decide_symbols-finished day committed ss db1 later
      ∙ decide_symbol-finished day committed s db first

  pub run_day-finished :
      (symbols : List Symbol) (day : ℕ) (db : Database) {db' : Database}
      → run_day store market bps fill_at_open backtest_id symbols day db ≡ ok db'
      → db'.finished_days ≡ db.finished_days ++ day ∷ []
  unfolding run_day
  run_day-finished symbols day db e =
      let (db1, first, later) =
        >>=-eq-ok
          (decide_symbols store market bps fill_at_open backtest_id day db.outcomes symbols db) _
          e in
      sym (ap (λ (x : Database). x.finished_days) (ok_injective later))
      ∙ ap (λ x. x ++ day ∷ []) (decide_symbols-finished day db.outcomes symbols db first)

  module _ (over_cap : ℕ → Bool) (symbols : List Symbol) where
    abbrev days : ℕ → List ℕ → Database → Database × Bool
    days = run_days store market bps fill_at_open backtest_id over_cap symbols

    abbrev a_day : ℕ → Database → Result BacktestError Database
    a_day = run_day store market bps fill_at_open backtest_id symbols

    pub days-stop :
        (done d : ℕ) (ds : List ℕ) (db : Database)
        → (ltb 0 done && over_cap done) ≡ true
        → days done (d ∷ ds) db ≡ (db, false)
    unfolding run_days
    days-stop done d ds db h = ground arith

    pub days-raise :
        (done d : ℕ) (ds : List ℕ) (db : Database) {e : BacktestError}
        → (ltb 0 done && over_cap done) ≡ false
        → a_day d db ≡ err e
        → days done (d ∷ ds) db ≡ (db, false)
    unfolding run_days
    days-raise done d ds db h k = ground arith

    pub days-go :
        (done d : ℕ) (ds : List ℕ) (db : Database) {db' : Database}
        → (ltb 0 done && over_cap done) ≡ false
        → a_day d db ≡ ok db'
        → days done (d ∷ ds) db ≡ days (done + 1) ds db'
    unfolding run_days
    days-go done d ds db h k = ground arith
