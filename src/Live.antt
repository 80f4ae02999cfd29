-- ===== src/Live.antt =====
-- app/agent/runner.py: a live decision cycle over the watchlist, in one transaction.
-- Amounts are as in the trade recorders, and a quoted price is a whole number of 1/10000 dollar. What the
-- decision graph answers for a symbol is an argument, up to the risk manager, whose rules are applied to
-- the position that it reads over another connection, which sees what is committed. Confidence and texts
-- of opinions are left out.
pub mod Cycle
pub mod Prices
mod Tests
use paper_trading_agent.Base.{
  ℕ, ◌+◌, ◌*◌, ◌≡◌, Bool, true, false, ◌&&◌, ◌||◌, Option, none, some, List, [], ◌∷◌, ◌++◌, map,
  if◌then◌else◌, ltb, leb, ◌==◌, ℤ, pos, same_text, upper, select, Result, ok, err, ◌>>=◌, or_raise,
}
use paper_trading_agent.Numbers.Sorting.{sorted}
use paper_trading_agent.State.{Symbol, Action, TentativeDecision}
use paper_trading_agent.RiskManager.{Ruling, v1_rules, apply_budget}
use paper_trading_agent.VarForecasts.Recording.{RiskFigures, Forecasts, record_var_forecast}
use paper_trading_agent.Outcomes.{Row, Outcomes, is_open_lot, total_quantity}
use paper_trading_agent.Ledger.{TradeError, out_of_range, record_paper_trade}
use paper_trading_agent.Explainer.{text_le}
use paper_trading_agent.Explainer.Node.{RiskExplanation}
use paper_trading_agent.Trace.{TraceRecorder, TraceRow, TraceError, record_trace}

-- A row of `watchlist`.
pub record Watched : Type 0 where
  pub symbol : Symbol
  pub active : Bool

-- SELECT symbol FROM watchlist WHERE active = true ORDER BY symbol
unfoldable pub active_symbols : List Watched → List Symbol
active_symbols watchlist =
    sorted text_le (map (λ (w : Watched). w.symbol) (select (λ (w : Watched). w.active) watchlist))

-- A row of `price_snapshots`; the other columns stay NULL.
pub record Snapshot : Type 0 where
  pub symbol : Symbol
  pub captured_at : ℕ
  pub close : ℤ

abbrev pub is_snapshot : Symbol → ℕ → List Snapshot → Bool
is_snapshot symbol as_of [] = false
is_snapshot symbol as_of (p ∷ ps) =
    same_text p.symbol symbol && p.captured_at == as_of || is_snapshot symbol as_of ps

-- INSERT … ON CONFLICT (symbol, captured_at) DO NOTHING
unfoldable pub record_price_snapshot : Symbol → ℤ → ℕ → List Snapshot → List Snapshot
record_price_snapshot symbol close as_of table =
    if is_snapshot symbol as_of table
    then table
    else table ++ record { symbol = symbol; captured_at = as_of; close = close } ∷ []

-- The later of two snapshots.
abbrev pub later_of : Snapshot → Option Snapshot → Snapshot
later_of p none = p
later_of p (some q) = if ltb p.captured_at q.captured_at then q else p

unfoldable pub latest_snapshot : Symbol → List Snapshot → Option Snapshot
latest_snapshot symbol [] = none
latest_snapshot symbol (p ∷ ps) =
    let rest = latest_snapshot symbol ps in
    if same_text p.symbol symbol then some (later_of p rest) else rest

abbrev pub close_of : Option Snapshot → Option ℤ
close_of none = none
close_of (some p) = some p.close

-- SELECT close … WHERE symbol = … ORDER BY captured_at DESC LIMIT 1
unfoldable pub latest_close : Symbol → List Snapshot → Option ℤ
unfolding latest_snapshot
latest_close symbol table = close_of (latest_snapshot symbol table)

-- The `positions` view's quantity for a symbol, as PostgresRepository.list_positions looks it up, or 0.
abbrev pub live_qty : Symbol → List Row → ℕ
live_qty symbol rows = total_quantity (select (is_open_lot none (upper symbol)) rows)

-- What the nodes before the risk manager say, the risk manager's figures, the recorder after the run of
-- the graph, and the explanation.
pub record Answer : Type 0 where
  pub proposal : TentativeDecision
  pub current_price : Option ℕ
  pub figures : RiskFigures
  pub recorder : TraceRecorder
  pub explanation : Option RiskExplanation

pub data AgentName : Type 0 where
  technical_analyst sentiment_analyst portfolio_manager risk_manager : AgentName

pub data LiveStatus : Type 0 where
  running success : LiveStatus

pub record LiveRun : Type 0 where
  pub id : ℕ
  pub status : LiveStatus
  pub started_at : ℕ
  pub finished_at : Option ℕ

pub record LiveDecision : Type 0 where
  pub id : ℕ
  pub run_id : ℕ
  pub symbol : Symbol
  pub final : Ruling

pub record LiveDatabase : Type 0 where
  pub watchlist : List Watched
  pub runs : List LiveRun
  pub next_run : ℕ
  pub decisions : List LiveDecision
  pub next_decision : ℕ
  pub opinions : List (ℕ × AgentName)
  pub traces : List TraceRow
  pub forecasts : Forecasts
  pub explanations : List (ℕ × RiskExplanation)
  pub snapshots : List Snapshot
  pub outcomes : Outcomes

pub data LiveError : Type 0 where
  trace : TraceError → LiveError
  trade : TradeError → LiveError

abbrev pub lift_trace : {A : Type 0} → Result TraceError A → Result LiveError A
lift_trace (ok a) = ok a
lift_trace (err e) = err (trace e)

abbrev pub lift_trade : {A : Type 0} → Result TradeError A → Result LiveError A
lift_trade (ok a) = ok a
lift_trade (err e) = err (trade e)

-- The risk manager's final action and quantity.
unfoldable pub live_ruling : Answer → ℤ → Ruling
live_ruling a held = (apply_budget a.figures.var_95 held (v1_rules a.proposal held)).final

-- One agent_opinions row for each agent.
abbrev pub opinions_of : ℕ → List (ℕ × AgentName)
opinions_of decision_id =
    (decision_id, technical_analyst)
    ∷ (decision_id, sentiment_analyst)
    ∷ (decision_id, portfolio_manager)
    ∷ (decision_id, risk_manager)
    ∷ []

abbrev pub explained : ℕ → Option RiskExplanation → List (ℕ × RiskExplanation)
explained decision_id none = []
explained decision_id (some e) = (decision_id, e) ∷ []

-- The latest close, or else the Technical Analyst's price.
abbrev pub cycle_price : Option ℤ → Option ℕ → Option ℤ
cycle_price (some close) quote = some close
cycle_price none none = none
cycle_price none (some quote) = some (pos (quote * 10_000))

abbrev pub begin_run : ℕ → LiveDatabase → LiveDatabase
begin_run started_at db = record db {
  runs =
      db.runs
      ++ record { id = db.next_run; status = running; started_at = started_at; finished_at = none }
        ∷ [];
  next_run = db.next_run + 1;
}

-- UPDATE runs SET status = 'SUCCESS', finished_at = … WHERE id = …
unfoldable pub end_run : ℕ → ℕ → List LiveRun → List LiveRun
end_run run_id finished_at [] = []
end_run run_id finished_at (r ∷ rs) =
    (if r.id == run_id then record r { status = success; finished_at = some finished_at } else r)
    ∷ end_run run_id finished_at rs

-- What is committed at the end of the transaction.
abbrev pub committed_after : LiveDatabase → Result LiveError LiveDatabase → LiveDatabase
committed_after db (ok db') = db'
committed_after db (err e) = db

module _ (store : ℤ → Option ℤ) where
  -- The snapshot and the trade at a price, if there is one.
  unfoldable pub fill_live :
      ℕ
      → Symbol
      → Ruling
      → Option ℤ
      → ℕ
      → List Snapshot × Outcomes
      → Result LiveError (List Snapshot × Outcomes)
  fill_live decision_id symbol r none as_of tables = ok tables
  fill_live decision_id symbol r (some price) as_of tables = do
    close ← or_raise (store price) (trade out_of_range)
    t ←
        lift_trade
          (record_paper_trade store decision_id symbol r.action r.quantity price as_of tables.1)
    ok (record_price_snapshot symbol close as_of tables.0, t)

  module _ (answer : Symbol → Answer) where
    -- One symbol: its decision, opinions, trace, forecast and explanation, then the price and the trade.
    unfoldable pub cycle_symbol :
        ℕ → ℕ → Outcomes → Symbol → LiveDatabase → Result LiveError LiveDatabase
    cycle_symbol run_id started_at committed symbol db =
        let a = answer symbol in
        let held = pos (live_qty symbol committed.rows) in
        let r = live_ruling a held in
        let id = db.next_decision in
        lift_trace (record_trace id a.recorder db.traces) >>= λ traced.
        fill_live id symbol r (cycle_price (latest_close symbol db.snapshots) a.current_price)
          started_at (db.snapshots, db.outcomes)
        >>= λ filled. ok (record db {
          decisions =
              db.decisions ++ record { id = id; run_id = run_id; symbol = symbol; final = r } ∷ [];
          next_decision = id + 1;
          opinions = db.opinions ++ opinions_of id;
          traces = traced.0;
          forecasts =
              (record_var_forecast id none symbol started_at a.figures held r.action r.quantity
                db.forecasts).0;
          explanations = db.explanations ++ explained id a.explanation;
          snapshots = filled.0;
          outcomes = filled.1;
        })

    unfoldable pub cycle_symbols :
        ℕ → ℕ → Outcomes → List Symbol → LiveDatabase → Result LiveError LiveDatabase
    cycle_symbols run_id started_at committed [] db = ok db
    cycle_symbols run_id started_at committed (s ∷ ss) db =
        cycle_symbol run_id started_at committed s db >>= λ db'.
        cycle_symbols run_id started_at committed ss db'

    -- The whole cycle, in one transaction: an exception leaves the database as it was.
    unfoldable pub run_decision_cycle : ℕ → ℕ → LiveDatabase → Result LiveError LiveDatabase
    run_decision_cycle started_at finished_at db =
        cycle_symbols db.next_run started_at db.outcomes (active_symbols db.watchlist)
          (begin_run started_at db)
        >>= λ db'. ok (record db' { runs = end_run db.next_run finished_at db'.runs })

    -- What is committed after the cycle.
    abbrev pub after_cycle : ℕ → ℕ → LiveDatabase → LiveDatabase
    after_cycle started_at finished_at db =
        committed_after db (run_decision_cycle started_at finished_at db)
