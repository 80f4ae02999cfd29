-- ===== src/Backtest/Tests.antt =====
-- A short backtest: one symbol over a Friday, a Monday and a Tuesday.
use paper_trading_agent.Base.{
  ℕ, ◌≡◌, refl, ◌++◌, true, false, Option, none, some, List, [], ◌∷◌, ℤ, pos, neg_part, sub_ℕ, ◌*◌,
  ◌/◌, ◌≤ℤ◌, ltb, leb, if◌then◌else◌, int_laws, ok, Bool-cases, inl, inr, ◌≤◌, Text, codes, ◌+◌,
  arith,
}
use paper_trading_agent.State.{Symbol, buy, sell, hold}
use paper_trading_agent.Outcomes.{total_quantity}
use paper_trading_agent.Backtest.{Market, Database, apply_slippage, run_days}
use paper_trading_agent.Ledger.Sizes.{size}
use paper_trading_agent.Backtest.Safety.{IsSound, IsSafe}
use paper_trading_agent.Backtest.Day.{FitsColumns}
use paper_trading_agent.Backtest.Fills.{IsTicker, IsQuoteWithin}
use paper_trading_agent.Backtest.Runs.{run_days-IsSafe, run_days_finish}
use paper_trading_agent.Backtest.Resume.{
  Setting, BacktestRow, RunRow, running, failed, success, start_resume, resume_days, last_day,
  days_of, mismatched, unfinished, RunConfig,
}
use paper_trading_agent.Llm.{Usage}
use paper_trading_agent.Llm.Cost.{priced_cost}
use paper_trading_agent.Backtest.Finish.{RunEnd, returned, raised, run_parts}
use paper_trading_agent.Backtest.Usage.{Ended, parts_cost, run_parts_lem}
use paper_trading_agent.Backtest.Resume.Continues.{uncapped, resume_continues}

abbrev exact : ℤ → Option ℤ
exact x = some x

abbrev aapl : Symbol
aapl = 65 ∷ 65 ∷ 80 ∷ 76 ∷ []

-- A purchase of 15 every day but the last, at a quote of 100 dollars; then a sale of 30.
abbrev eager : Symbol → ℕ → Market
eager s d = record {
  proposal =
      if ltb d 8
      then record { action = buy; quantity = pos 15 }
      else record { action = sell; quantity = pos 30 };
  var = none;
  current_price = some 1_000_000;
  open_price = none;
  graph_raises = false;
  records_raise = false;
}

eager_nonneg : (s : Symbol) (d : ℕ) → pos 0 ≤ℤ (eager s d).proposal.quantity
eager_nonneg s d = elim (Bool-cases (ltb d 8)) [
  | inl h ↦ rw h (omega int_laws)
  | inr h ↦ rw h (omega int_laws)
]

abbrev fresh : Database
fresh = record {
  outcomes = record { rows = []; next_id = 0 };
  decisions = [];
  next_decision = 0;
  finished_days = [];
}

none_held : total_quantity [] ≤ 20
unfolding total_quantity
none_held = omega arith

fresh-IsSound : IsSound (some 1) 0 fresh.outcomes
fresh-IsSound = record {
  ledgers = λ s. record { ids = omega arith; in_order = tt };
  capped = λ s. none_held;
  past = tt;
}

aapl-IsTicker : IsTicker aapl
aapl-IsTicker = ((λ e. cc), refl)

run_days-IsSafe_example :
    IsSafe
      (some 1)
      (run_days exact eager 10 false 1 (λ n. false) (aapl ∷ []) 0 (4 ∷ 7 ∷ 8 ∷ []) fresh).0.outcomes
run_days-IsSafe_example =
    run_days-IsSafe exact eager 10 false 1 eager_nonneg (λ n. false) (aapl ∷ []) 0 0
      (4 ∷ 7 ∷ 8 ∷ []) fresh (tt, tt) (aapl-IsTicker, tt)
      (omega arith, (omega arith, (omega arith, tt))) fresh-IsSound

-- A NUMERIC(12, 4) column: amounts below 100 million dollars, rounded to the fourth place.
abbrev numeric : ℤ → Option ℤ
numeric x =
    if ltb (size x) 10_000_000_000_000_000
    then some (
        if leb (neg_part x) 0
        then pos (10_000 * ((size x + 5_000) / 10_000))
        else sub_ℕ 0 (10_000 * ((size x + 5_000) / 10_000)))
    else none

numeric-keeps : (x y : ℤ) → size x ≤ 20_000_000_000 → numeric x ≡ some y → size y ≤ 20_000_000_000
numeric-keeps x y h e = ground arith

eager_quotes : (s : Symbol) (d : ℕ) → IsQuoteWithin 10 20_000_000_000 (eager s d).current_price
unfolding apply_slippage
eager_quotes s d quote buy e = ground arith
eager_quotes s d quote sell e = ground arith
eager_quotes s d quote hold e = ground arith

eager-FitsColumns : FitsColumns numeric eager 10 false 1 20_000_000_000 fresh.outcomes
eager-FitsColumns = record {
  column = record { takes = λ x h e. ground arith; keeps = numeric-keeps };
  quotes = eager_quotes;
  opens = λ s d quote action e. cc;
  first = tt;
}

run_days_finish_example :
    let end = run_days numeric eager 10 false 1 (λ n. false) (aapl ∷ []) 0 (4 ∷ 7 ∷ 8 ∷ []) fresh in
    (end.1 ≡ true) × (end.0.finished_days ≡ [] ++ 4 ∷ 7 ∷ 8 ∷ [])
run_days_finish_example =
    run_days_finish numeric eager 10 false 1 eager_nonneg (λ n. false) (aapl ∷ []) 20_000_000_000 0
      0 (4 ∷ 7 ∷ 8 ∷ []) fresh (λ n. refl) (λ at_open s d. cc) (λ s d. (refl, refl))
      eager-FitsColumns (tt, tt) (aapl-IsTicker, tt) (omega arith, (omega arith, (omega arith, tt)))
      fresh-IsSound

-- Stopped by the cap before the second day.
resume_continues_example :
    let stopped =
      (run_days exact eager 10 false 1 (λ n. true) (aapl ∷ []) 0 (4 ∷ 7 ∷ 8 ∷ []) fresh).0 in
    uncapped exact eager 10 false 1
      (aapl ∷ [])
      0
      (resume_days (last_day stopped.finished_days) (4 ∷ 7 ∷ 8 ∷ []))
      stopped
    ≡ uncapped exact eager 10 false 1 (aapl ∷ []) 0 (4 ∷ 7 ∷ 8 ∷ []) fresh
resume_continues_example =
    resume_continues exact eager 10 false 1 (aapl ∷ []) (λ n. true) (4 ∷ 7 ∷ 8 ∷ [])
      (4 ∷ 7 ∷ 8 ∷ []) fresh ((omega arith, (omega arith, tt)), ((omega arith, tt), (tt, tt))) refl

abbrev settings : Setting → Option Text
settings k = none

abbrev broken_off : BacktestRow
broken_off = record {
  window_start = 4;
  window_end = 8;
  status = failed;
  finished_at = some 90;
  llm_usage = some [];
  config = record { settings = settings; resumes = [] };
}

abbrev run_config : RunConfig
run_config = record { settings = settings; git_commit = some (codes "1c2d"); git_dirty = none }

abbrev one_day : List RunRow
one_day = record { day = 4; run_status = success } ∷ []

-- It runs again, from after day 4, and has no end any more.
resume_run :
    start_resume (some broken_off) one_day 4 8 run_config 100
    ≡ ok (
      record {
        window_start = 4;
        window_end = 8;
        status = running;
        finished_at = none;
        llm_usage = some [];
        config = record {
          settings = settings;
          resumes =
              record {
                after_day = some 4;
                resumed_at = 100;
                git_commit = some (codes "1c2d");
                git_dirty = none;
                llm_usage_before = some [];
              }
              ∷ [];
        };
      },
      some 4,
    )
unfolding start_resume mismatched unfinished last_day days_of
resume_run = refl

-- A part that raised after 200 tokens, then one that returned.
abbrev some_tokens : ℕ → Usage
some_tokens n =
    (codes "claude-haiku-4-5", record { input_tokens = n; output_tokens = 0; total_tokens = n })
    ∷ []

abbrev just_started : RunEnd
just_started = record { status = running; finished_at = none; llm_usage = none }

run_parts_lem_example :
    Ended success
      (0 + parts_cost ((raised, (some_tokens 200, 6)) ∷ []) + priced_cost (some_tokens 100))
      (run_parts
        ((raised, (some_tokens 200, 6)) ∷ (returned, (some_tokens 100, 9)) ∷ [])
        just_started)
run_parts_lem_example =
    run_parts_lem ((raised, (some_tokens 200, 6)) ∷ []) returned (some_tokens 100) 9 just_started
      (refl, tt) refl
