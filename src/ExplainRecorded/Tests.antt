-- ===== src/ExplainRecorded/Tests.antt =====
-- The sample, the quantity, the tail and the loop of scripts/explain_recorded.py on small inputs.
use paper_trading_agent.Base.{
  ℕ, zero, suc, ◌+◌, ◌-◌, ◌%◌, ◌≡◌, ◌≢◌, refl, codes, err, none, true, Option, some, List, [], ◌∷◌,
  ◌++◌, pos, ◌+ℤ◌, ◌-ℤ◌, length, ok, arith, ◌==◌, if◌then◌else◌, Bool-cases, inl, inr, ap, map,
}
use paper_trading_agent.Numbers.Sorting.{sorted}
use paper_trading_agent.Numbers.Ratio.{round_half_even}
use paper_trading_agent.RiskMath.{simple_returns}
use paper_trading_agent.State.{buy, scaled, TentativeDecision}
use paper_trading_agent.RiskManager.{
  var_budget_scale, high_correlation, apply_budget, v1_rules, limit_buy, var_max_qty, budget_shares,
}
use paper_trading_agent.RiskManager.Budget.{positive_var}
use paper_trading_agent.RiskManager.Figures.{closes_of, ny_days, NodeFigures, node_figures}
use paper_trading_agent.DataSources.{PriceBar}
use paper_trading_agent.Explainer.Node.{RiskExplanation}
use paper_trading_agent.Explainer.Retrieval.{recent}
use paper_trading_agent.Llm.{Usage, usage_cost_usd}
use paper_trading_agent.Trace.{
  check, TraceRecorder, duplicate_step, add, new_recorder, record_trace, trace_rows, insert_rows,
}
use paper_trading_agent.Trace.Json.{end, dumps, jsonable_fields}
use paper_trading_agent.Trace.KeyPattern.{looks_like_key}
use paper_trading_agent.Trace.Writing.{row_of}
use paper_trading_agent.ExplainRecorded.{
  RecordedDecision, RecordedState, Invoked, ScriptRun, trace, raised, duplicate, evenly_spaced,
  final_quantity, tail_days, var_tail_at, explain_backtests, explain_backtest, decisions_of,
  explain_rows, explain_row, var_tail_for, store_explanation, record_explanation, check_cap,
  tail_at,
}
use paper_trading_agent.ExplainRecorded.Quantity.{Records, final_quantity_lem}
use paper_trading_agent.RiskMath.Returns.{Priced}
use paper_trading_agent.ExplainRecorded.Tails.{EarlierThan, var_tail_at_lem}
use paper_trading_agent.ExplainRecorded.Once.Tables.{ExplainedOnce, NoRepeat}
use paper_trading_agent.ExplainRecorded.Once.{explain_backtests_once}

abbrev five_rows : List ℕ
five_rows = 10 ∷ 11 ∷ 12 ∷ 13 ∷ 14 ∷ []

-- round(5 / 3) is 2 and round(10 / 3) is 3: 3 of 5 rows.
spaced : evenly_spaced five_rows 3 ≡ some (10 ∷ 12 ∷ 13 ∷ [])
unfolding evenly_spaced round_half_even
spaced = refl

abbrev buy_eight : TentativeDecision
buy_eight = record { action = buy; quantity = pos 8 }

-- A BUY of 8 on top of 9 shares, with a VaR of 3%, cut to 4.
abbrev cut : ℕ → RecordedDecision
cut id = record {
  decision_id = id;
  symbol = 65 ∷ [];
  as_of = 1000;
  final_action = buy;
  pm_action = buy;
  pm_qty = some (pos 8);
  risk_opinion = scaled;
  risk_flags = var_budget_scale ∷ high_correlation (66 ∷ []) ∷ [];
  var_max_qty = some 13;
  current_qty = pos 9;
}

cut-Records :
    Records buy_eight
      (pos 9)
      (apply_budget (some (positive_var 2 99)) (pos 9) (v1_rules buy_eight (pos 9)))
      (cut 1)
unfolding apply_budget v1_rules limit_buy ◌+ℤ◌ ◌-ℤ◌ var_max_qty budget_shares round_half_even
cut-Records = record {
  correlated = (66 ∷ []) ∷ [];
  flags = refl;
  opinion = refl;
  allowed = refl;
  proposed = refl;
  position = refl;
}

final_quantity_lem_example :
    final_quantity (cut 1)
    ≡ ok (
        some
          (apply_budget
            (some (positive_var 2 99))
            (pos 9)
            (v1_rules buy_eight (pos 9))).final.quantity)
final_quantity_lem_example =
    final_quantity_lem buy_eight (pos 9) (some (positive_var 2 99)) (cut 1) cut-Records refl

-- Bars of 251 days, 499 down to 249 days before day 1000, of which the closes go up and down.
abbrev bar_at : ℕ → PriceBar
bar_at t = record {
  symbol = 65 ∷ [];
  timestamp = t;
  open_price = 100;
  high = 100;
  low = 100;
  close = 100 + t % 7;
  volume = 0;
}

abbrev days_before : ℕ → List PriceBar
days_before zero = []
days_before (suc n) = bar_at (999 - n) ∷ days_before n

length-days_before : (n : ℕ) → length (days_before n) ≡ n
length-days_before zero = refl
length-days_before (suc n) = ap suc (length-days_before n)

days_before-EarlierThan : (n : ℕ) → EarlierThan 1000 (ny_days (λ t. t) (days_before n))
days_before-EarlierThan zero = tt
days_before-EarlierThan (suc n) = (ground arith, days_before-EarlierThan n)

days_before-Priced : (n : ℕ) → Priced (closes_of (days_before n))
days_before-Priced zero = tt
days_before-Priced (suc n) = (omega arith, days_before-Priced n)

var_tail_at_lem_example :
    (f : NodeFigures) × (node_figures (λ t. t) (days_before 251) ≡ some f)
    × (var_tail_at (λ t. t) (λ d. d ∷ []) ((bar_at 100 ∷ days_before 251) ++ bar_at 1000 ∷ []) 1000
        ≡ ok (tail_days (λ t. t) (λ d. d ∷ []) (some f.var_tail)))
var_tail_at_lem_example =
    var_tail_at_lem (λ t. t) (λ d. d ∷ []) (bar_at 100 ∷ []) (days_before 251) (bar_at 1000 ∷ [])
      1000 (refl, days_before-EarlierThan 251) (refl, tt) (omega arith, days_before-Priced 251)
      (omega (arith, length-days_before 251))

-- A node that explains everything, at no cost.
abbrev answer : RecordedState → Usage → Option Invoked
answer state usage = some (record {
  explanation = some (record {
    trigger_flags = state.risk_flags;
    retrieval_method = recent;
    retrieved = [];
    cited_headline_ids = [];
    citations_valid = true;
    validation_problems = [];
    summary = [];
    drivers = [];
  });
  usage = usage;
  recorder = new_recorder;
})

-- Backtest 7 has two such decisions, 1 and 2.
abbrev two_cut : ℕ → List RecordedDecision
two_cut id = if id == 7 then cut 1 ∷ cut 2 ∷ [] else []

two_cut-NoRepeat : (id : ℕ) → NoRepeat (two_cut id)
two_cut-NoRepeat id i = elim (Bool-cases (id == 7)) [
  | inl here ↦ rw here (ground arith)
  | inr there ↦ rw there (omega arith)
]

-- No call made yet.
abbrev start : ScriptRun
start = record { done = 0; usage = []; explanations = []; traces = [] }

explain_backtests_once_example :
    let end =
      explain_backtests 5_000_000 true answer
        (λ t. t)
        (λ d. d ∷ [])
        two_cut
        (λ s e d. days_before 3)
        10
        (7 ∷ 7 ∷ [])
        start in
    (end.1 ≢ some (raised duplicate)) × ExplainedOnce end.0.explanations
explain_backtests_once_example =
    explain_backtests_once 5_000_000 true answer (λ t. t) (λ d. d ∷ []) two_cut
      (λ s e d. days_before 3) 10 two_cut-NoRepeat (7 ∷ 7 ∷ []) start (λ id. omega arith)

abbrev explained_ids : List (ℕ × RiskExplanation) → List ℕ
explained_ids = map (λ (entry : ℕ × RiskExplanation). entry.0)

run_explains_both :
    explained_ids
      (explain_backtests 5_000_000 true answer
        (λ t. t)
        (λ d. d ∷ [])
        two_cut
        (λ s e d. days_before 3)
        10
        (7 ∷ 7 ∷ [])
        start).0.explanations
    ≡ 1 ∷ 2 ∷ []
unfolding explain_backtests explain_backtest evenly_spaced decisions_of explain_rows explain_row
    var_tail_for var_tail_at store_explanation record_explanation check_cap final_quantity tail_at
    sorted simple_returns usage_cost_usd record_trace
run_explains_both = refl

-- A decision that its backtest has traced, and that has no explanation.
abbrev traced_once : TraceRecorder
traced_once = (add (codes "risk_manager") check end end none 5 new_recorder).0

abbrev traced_before : ScriptRun
traced_before = record start { traces = map (row_of 1) traced_once.steps }

-- With --trace, the steps of its explanation meet UNIQUE (decision_id, step).
traced_decision_stops :
    store_explanation 5_000_000 true answer 1
      (some (record {
        trigger_flags = [];
        retrieval_method = recent;
        retrieved = [];
        cited_headline_ids = [];
        citations_valid = true;
        validation_problems = [];
        summary = [];
        drivers = [];
      }))
      traced_once
      traced_before
    ≡ err (raised (trace duplicate_step))
unfolding store_explanation record_explanation record_trace trace_rows insert_rows add dumps
    jsonable_fields looks_like_key
traced_decision_stops = refl
