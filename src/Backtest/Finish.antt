-- ===== src/Backtest/Finish.antt =====
-- The end of a backtest in app/agent/backtest.py: its status, its tokens, and the spending cap.
-- The usage handler is LangChain's; what it counted is an argument. Costs are in millionths of a dollar.
use paper_trading_agent.Base.{
  ℕ, ◌+◌, ◌*◌, Bool, true, false, Option, none, some, List, [], ◌∷◌, if◌then◌else◌, ltb, ◌==◌,
  same_text, Text, Result, ok, ◌>>=◌,
}
use paper_trading_agent.Llm.{Tokens, Usage, LlmError, usage_cost_usd}
use paper_trading_agent.Backtest.Resume.{RunStatus, running, failed, success, is_unfinished}

-- The columns of `backtests` that the end of a run sets.
pub record RunEnd : Type 0 where
  pub status : RunStatus
  pub finished_at : Option ℕ
  pub llm_usage : Option Usage

abbrev pub add_tokens : Tokens → Tokens → Tokens
add_tokens a b = record {
  input_tokens = a.input_tokens + b.input_tokens;
  output_tokens = a.output_tokens + b.output_tokens;
  total_tokens = a.total_tokens + b.total_tokens;
}

-- `slot = total.setdefault(model, {})`, and its keys added up.
unfoldable pub add_counts : Text → Tokens → Usage → Usage
add_counts model t [] = (model, t) ∷ []
add_counts model t ((m, old) ∷ total) =
    let rest = add_counts model t total in
    if same_text model m then (m, add_tokens old t) ∷ total else (m, old) ∷ rest

unfoldable pub add_all : Usage → Usage → Usage
unfolding add_counts
add_all total [] = total
add_all total ((model, t) ∷ usage) = add_all (add_counts model t total) usage

-- _add_usage
abbrev pub add_usage : Option Usage → Usage → Usage
add_usage none b = add_all [] b
add_usage (some a) b = add_all a b

abbrev pub is_running : RunStatus → Bool
is_running running = true
is_running _ = false

-- _finish: the update asks for a row that is still RUNNING.
unfoldable pub finish : RunStatus → Usage → ℕ → RunEnd → RunEnd
unfolding add_all
finish status usage now row =
    if is_running row.status
    then record {
      status = status;
      finished_at = some now;
      llm_usage = some (add_usage row.llm_usage usage);
    }
    else row

-- How the body of a run ended.
pub data BodyEnd : Type 0 where
  returned raised : BodyEnd

-- run_backtest: the body ends a run that returns with SUCCESS; one that raised is marked FAILED.
unfoldable pub end_backtest : BodyEnd → Usage → ℕ → RunEnd → RunEnd
unfolding finish
end_backtest returned usage now row = finish success usage now row
end_backtest raised usage now row = finish failed usage now row

-- What is recorded after the part's end.
abbrev pub status_of : BodyEnd → RunStatus
status_of returned = success
status_of raised = failed

-- The test before a day with `done` days behind it: spent so far and the average day's cost against the
-- cap. There is none before the first day or without a cap.
unfoldable pub exceeds_cap : Option ℕ → ℕ → Usage → Result LlmError Bool
exceeds_cap none done usage = ok false
exceeds_cap (some cap) done usage =
    if done == 0
    then ok false
    else usage_cost_usd usage >>= λ spent. ok (ltb (cap * done) (spent * done + spent))

-- A resumed run: the row is RUNNING again, with the usage of the earlier parts.
abbrev pub reopened : RunEnd → RunEnd
reopened row = record row { status = running; finished_at = none }

-- The parts of a run, each with its end, its tokens and the time. A part that continues a run asks for
-- one that is not finished, and opens it again.
unfoldable pub run_parts : List (BodyEnd × (Usage × ℕ)) → RunEnd → RunEnd
unfolding end_backtest
run_parts [] row = row
run_parts ((how, (usage, now)) ∷ parts) row =
    let next = run_parts parts (end_backtest how usage now (reopened row)) in
    if is_unfinished row.status then next else row
