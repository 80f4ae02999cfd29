-- ===== src/Lib.antt =====
-- A verification library for the paper-trading agent: the risk rules, the trade recorders, the backtest
-- that joins them, the live cycle, the replay of recorded proposals, the explainer with its checks, the
-- trace of a decision and its audit, the cost of language models, the scripts that explain recorded
-- decisions, evaluate the VaR and build the return dataset, the migrations of the database, and the
-- decision graph that runs the agents.
--
-- The program decides once a day, for each symbol, on a trade: a technical and a sentiment analyst give
-- opinions, the Portfolio Manager (a language model) proposes an action and a quantity, the risk manager
-- approves, vetoes or scales it, and the runner or the backtest loop records the fill as lots in a table.
-- The risk manager reads the quantity held back from that table.
--
-- Base, Numbers: shared names, ℤ and texts over the native ℕ, results, exact fractions and sorting.
-- State: Action of app/models.py, and the records of app/agent/state.py.
-- RiskMath: app/agent/risk_math.py (simple_returns, _tail_count, historical_var, historical_cvar,
--   tail_losses), on exact fractions; RiskMath/Correlation has aligned_returns, correlation (pearson
--   behind its check of the lengths) and correlation_matrix.
-- RiskManager: app/agent/risk_manager.py; v1_rules is _v1_rules, var_max_qty keeps its name, and
--   apply_budget is the part of the node from the VaR figure to the final action and quantity. The
--   whole node is risk_manager in RiskManager/Node, flag_others its part on correlations, ny_closes
--   is _ny_closes.
-- DecisionGraph: app/agent/graph.py with GraphState of app/agent/state.py; edges and nodes are the calls of
--   add_edge and add_node, run_node the nodes' functions, Runs LangGraph's supersteps, and decide the
--   same decision without a graph.
-- SentimentAnalyst, PortfolioManager: the nodes of app/agent/sentiment_analyst.py, with
--   app/agent/v1_categorical.py, and of app/agent/portfolio_manager.py.
-- VarForecasts: app/agent/var_forecasts.py, under its own names.
-- Outcomes: the tables `outcomes` and `backtest_outcomes` with the statements run on them.
-- Ledger: record_paper_trade is _record_paper_trade of app/agent/runner.py, record_backtest_trade is
--   _record_backtest_trade of app/agent/backtest.py; both are record_trade on one book.
-- Positions: list_positions of app/repository/backtest.py.
-- Backtest: app/agent/backtest.py; apply_slippage, trading_days, run_days for the loop of _run_backtest,
--   run_day for the transaction of one day, decide_symbol and fill_trade for its body, in which
--   invoke_graph is the graph's run with the ruling of the risk manager's node; Backtest/Resume
--   has start_resume for _start_resume, Backtest/Finish has finish, add_usage and end_backtest for _finish,
--   _add_usage and run_backtest.
-- Live: app/agent/runner.py; run_decision_cycle keeps its name, cycle_symbol is its loop's body,
--   latest_close and record_price_snapshot are _latest_close and _record_price_snapshot; live_qty is
--   the positions view as app/repository/postgres.py asks it.
-- Llm: app/agent/llm.py; provider, model_name, default_llm and usage_cost_usd keep their names, and
--   describe_role is one role of describe.
-- DataSources: bars_closed_before of app/agent/data_sources.py, and in Headlines the query of
--   HistoricalHeadlineSource, AlpacaPriceSource in DataSources/Alpaca and OpenPriceBook in
--   DataSources/OpenPrices; the New York date of an instant, the midnight of a date and the close of a
--   session, from zoneinfo, are parameters.
-- Indicators, TechnicalAnalyst: app/agent/indicators.py (sma, rsi) and the node of
--   app/agent/technical_analyst.py, judge for its four calls.
-- Replay: scripts/replay_risk_rules.py; replay, replay_day for one row of its tape, sell_fifo for
--   _sell_fifo; _slip is apply_slippage.
-- MemoryStore: app/repository/memory.py; list_store_positions is list_positions, the other methods
--   keep their names.
-- Metrics: compute_backtest_metrics of app/agent/backtest.py.
-- Explainer: app/agent/explainer.py; triggered and validate keep their names, Explainer/Retrieval has
--   HeadlineRetriever.around, and explain in Explainer/Node is the node.
-- ExplainRecorded: scripts/explain_recorded.py; explain_backtests is main's loop, var_tail_at one round
--   of var_tail_for, the other functions keep their names. RiskManager/Figures has the figures of the
--   risk manager's node (node_figures), which var_tail_at makes again.
-- EvaluateVar: scripts/evaluate_var.py (forecasts, the breaches of score, verdict); forecast_at is one
--   round of the loop of forecasts.
-- Migrate: db/migrate.py; migrate is main over a database, apply_file the block of one file.
-- ReturnDataset: scripts/build_return_dataset.py; bisect is the loop of forward_return, raw_of_all,
--   labelled and splits are the parts of main, write_files is the loop that writes, and build is main.
-- Trace: app/agent/trace.py; the methods of TraceRecorder keep their names, record_step is record(),
--   and Trace/Json has _jsonable with json.dumps.
-- TraceAudit: load_steps, rebuild_explanation_check and, in TraceAudit/Completeness, completeness of
--   app/agent/trace_audit.py.
--
-- State and errors. A table is a list of rows in the order of insertion with the next id; rows of one
-- opening time are read in that order, where PostgreSQL promises no order. An exception is a value: a
-- day that raises leaves the database as it was before the day, as its transaction does. The positions
-- are read from what was committed before the day.
-- Numbers. Quantities of a proposal are integers, those of rows naturals. An amount is a whole number of
-- a small money unit; the conversion to NUMERIC(12, 4), which rounds and may be out of range, is the
-- parameter `store`. A float is the exact fraction that it stands for, so rounding errors of float
-- arithmetic are not modelled; `round(x, 9)` and `round(x, 4)` are.
-- FitsColumns in Backtest/Day names a bound of the prices with which no amount is out of range.
-- Dates of ReturnDataset and EvaluateVar are numbers of days.
-- Loops are structural recursion over lists; the bisection of forward_return runs on as many rounds as
-- there are days, which is shown to be enough; _trading_days counts the days that are left of its window,
-- which is the number of rounds of its while loop. The decimal digits of n run on fuel n + 1, which is
-- more than their number.
--
-- Parameters. What the graph before the risk manager and the price source return for a symbol on a day
-- and whether the graph or the writing of a decision's rows raises (`market`), or what a live cycle is
-- told (`answer`); `store`; whether the spending cap stops a run before its n-th
-- day; what LangChain passes to a callback; the parser of a model's reply; PostgreSQL's rank of a
-- headline, and what it does with the text of a migration; the node that explains a recorded decision;
-- the models' replies in the decision graph.
-- LangGraph's documented behaviour is the relation Runs: a superstep runs each node whose predecessors have
-- all run, on the state before the superstep, and merges what the nodes return.
-- Not modelled: the texts of prompts and the language models; HTTP and MCP servers and SQL beyond the
-- statements above, which are calls of libraries; the rows that a backtest writes for opinions,
-- forecasts, explanations and traces; the trace record of the risk manager's node; the parametric and
-- Kupiec figures, which rest on square roots, logarithms and gamma functions of Python's libraries; the
-- live headlines; a process that is killed and a connection that fails between the statements of a day;
-- and the other scripts, which print or export.
pub mod Base
pub mod Numbers
pub mod RiskMath
pub mod State
pub mod ReturnDataset
pub mod RiskManager
pub mod VarForecasts
pub mod Outcomes
pub mod Ledger
pub mod Positions
pub mod Backtest
pub mod EvaluateVar
pub mod Explainer
pub mod Replay
pub mod ExplainRecorded
pub mod Indicators
pub mod SentimentAnalyst
pub mod PortfolioManager
pub mod DecisionGraph
pub mod Trace
pub mod TraceAudit
pub mod TechnicalAnalyst
pub mod MemoryStore
pub mod Metrics
pub mod Migrate
pub mod DataSources
pub mod Live
pub mod Llm
