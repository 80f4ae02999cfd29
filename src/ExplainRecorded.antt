-- ===== src/ExplainRecorded.antt =====
-- scripts/explain_recorded.py: explanations, after the fact, of decisions that a backtest recorded.
-- A cost is in millionths of a dollar. What the price source and the explainer node answer, and the rows
-- that the joins of DECISIONS give for a backtest, are parameters. The report is left out, and so are the
-- texts and the confidence that are passed on to the node.
pub mod Sample
pub mod Once
pub mod Quantity
pub mod Tails
mod Tests
use paper_trading_agent.Base.{
  ℕ, zero, suc, ◌+◌, ◌-◌, ◌*◌, ◌/◌, Bool, true, false, not, ◌&&◌, ◌||◌, Option, none, some, List,
  [], ◌∷◌, ◌++◌, map, if◌then◌else◌, ltb, leb, ◌==◌, ℤ, pos, ◌-ℤ◌, Text, length, get_elem?, take,
  drop, select, count_if, Result, ok, err, ◌>>=◌, or_raise,
}
use paper_trading_agent.Numbers.Ratio.{Ratio, round_half_even}
use paper_trading_agent.Numbers.Sorting.{sorted}
use paper_trading_agent.State.{Symbol, Action, Opinion, approve, veto, scaled, TentativeDecision}
use paper_trading_agent.RiskMath.{confidence, var_window, simple_returns, tail_losses}
use paper_trading_agent.RiskManager.{Flag, var_budget_scale}
use paper_trading_agent.Explainer.{is_trigger}
use paper_trading_agent.Explainer.Node.{TailDay, RiskExplanation, is_empty}
use paper_trading_agent.Llm.{Usage, LlmError, usage_cost_usd}
use paper_trading_agent.Trace.{TraceRecorder, TraceRow, TraceError, record_trace}
use paper_trading_agent.DataSources.{PriceBar}
use paper_trading_agent.DataSources.Headlines.{day_seconds}

-- A row of DECISIONS. `var_max_qty` is None where the risk manager knew no VaR.
pub record RecordedDecision : Type 0 where
  pub decision_id : ℕ
  pub symbol : Symbol
  pub as_of : ℕ
  pub final_action : Action
  pub pm_action : Action
  pub pm_qty : Option ℤ
  pub risk_opinion : Opinion
  pub risk_flags : List Flag
  pub var_max_qty : Option ℕ
  pub current_qty : ℤ

-- What the script's exceptions are: an IndexError of the sample, a
-- KeyError of the tails, the TypeError of a missing VaR figure, the
-- ZeroDivisionError of a return, a model without a price, the node's exception, the UNIQUE constraint on
-- decision_id in risk_explanations, and the ValueError or UniqueViolation of record_trace.
pub data ScriptError : Type 0 where
  no_such_row no_tail no_var_max no_return node_raised duplicate : ScriptError
  llm : LlmError → ScriptError
  trace : TraceError → ScriptError

-- Why the run ends early.
pub data Stop : Type 0 where
  cap_reached : Stop
  raised : ScriptError → Stop

abbrev pub lift_llm : {A : Type 0} → Result LlmError A → Result Stop A
lift_llm (ok a) = ok a
lift_llm (err e) = err (raised (llm e))

abbrev pub lift_trace : {A : Type 0} → Result TraceError A → Result Stop A
lift_trace (ok a) = ok a
lift_trace (err e) = err (raised (trace e))

-- `round(i * len(rows) / n)`
abbrev pub spaced_index : ℕ → ℕ → ℕ → ℕ
spaced_index count n i = round_half_even (i * count) n

-- `[rows[index(i)] for i in range(i, i + left)]`
unfoldable pub pick_from {ℓ} : {A : Type ℓ} → List A → (ℕ → ℕ) → ℕ → ℕ → Option (List A)
pick_from rows index i zero = some []
pick_from rows index i (suc left) =
    let rest = pick_from rows index (i + 1) left in
    elim (get_elem? rows (index i)) [
      | none ↦ none
      | some row ↦ elim rest [ none ↦ none | some picked ↦ some (row ∷ picked) ]
    ]

unfoldable pub evenly_spaced {ℓ} : {A : Type ℓ} → List A → ℕ → Option (List A)
unfolding pick_from
evenly_spaced rows n =
    if leb (length rows) n then some rows else pick_from rows (spaced_index (length rows) n) 0 n

abbrev pub has_scale : List Flag → Bool
has_scale [] = false
has_scale (var_budget_scale ∷ flags) = true
has_scale (flag ∷ flags) = has_scale flags

abbrev pub is_veto : Opinion → Bool
is_veto veto = true
is_veto _ = false

-- `none` is SQL's NULL, passed on.
unfoldable pub final_quantity : RecordedDecision → Result Stop (Option ℤ)
final_quantity row =
    if is_veto row.risk_opinion
    then ok (some (pos 0))
    else if has_scale row.risk_flags
    then (or_raise row.var_max_qty (raised no_var_max) >>= λ allowed.
        ok (some (pos allowed -ℤ row.current_qty)))
    else ok row.pm_qty

-- The rows of a trigger flag that are not explained yet, in the order of their times.
abbrev pub has_trigger : List Flag → Bool
has_trigger [] = false
has_trigger (flag ∷ flags) = is_trigger flag || has_trigger flags

abbrev pub is_explained : ℕ → List (ℕ × RiskExplanation) → Bool
is_explained id [] = false
is_explained id ((i, e) ∷ rest) = (i == id) || is_explained id rest

abbrev pub earlier : RecordedDecision → RecordedDecision → Bool
earlier a b = leb a.as_of b.as_of

-- DECISIONS, for the rows that the joins give.
unfoldable pub decisions_of :
    List RecordedDecision → List (ℕ × RiskExplanation) → List RecordedDecision
decisions_of joined explanations = sorted earlier (
    select
      (λ (row : RecordedDecision).
        has_trigger row.risk_flags && not (is_explained row.decision_id explanations))
      joined)

-- record_explanation: decision_id is UNIQUE in risk_explanations.
unfoldable pub record_explanation :
    ℕ → RiskExplanation → List (ℕ × RiskExplanation) → Result Stop (List (ℕ × RiskExplanation))
record_explanation id e table =
    if is_explained id table then err (raised duplicate) else ok (table ++ (id, e) ∷ [])

-- The state that the explainer node is called on.
pub record RecordedState : Type 0 where
  pub symbol : Symbol
  pub as_of : ℕ
  pub proposal : TentativeDecision
  pub risk_opinion : Opinion
  pub risk_flags : List Flag
  pub var_tail : List TailDay
  pub final_action : Action
  pub final_quantity : Option ℤ

-- What a call of the node leaves: its explanation, the tokens counted so far and its steps.
pub record Invoked : Type 0 where
  pub explanation : Option RiskExplanation
  pub usage : Usage
  pub recorder : TraceRecorder

-- The calls made, the tokens counted, and the two tables.
pub record ScriptRun : Type 0 where
  pub done : ℕ
  pub usage : Usage
  pub explanations : List (ℕ × RiskExplanation)
  pub traces : List TraceRow

-- `row["pm_qty"] or 0`
abbrev pub quantity_or_zero : Option ℤ → ℤ
quantity_or_zero none = pos 0
quantity_or_zero (some q) = q

-- `tails[decision_id]`, of the dict as the list of its assignments: the last one counts.
unfoldable pub tail_at : ℕ → List (ℕ × List TailDay) → Option (List TailDay)
tail_at id [] = none
tail_at id ((i, tail) ∷ rest) = elim (tail_at id rest) [
  | some later ↦ some later
  | none ↦ if i == id then some tail else none
]

module _ (ny_day : ℕ → ℕ) (iso : ℕ → Text) where
  -- The `or []` of a tail that tail_losses does not give.
  abbrev pub tail_days : Option (List (ℕ × Ratio)) → List TailDay
  tail_days none = []
  tail_days (some losses) =
      map (λ (entry : ℕ × Ratio). record { date = iso entry.0; loss = entry.1 }) losses

  -- The loop's body of var_tail_for, for one row: the bars before the decision's date.
  unfoldable pub var_tail_at : List PriceBar → ℕ → Result Stop (List TailDay)
  var_tail_at bars as_of =
      let days = map (λ (b : PriceBar). ny_day b.timestamp) bars in
      let closes = map (λ (b : PriceBar). b.close) bars in
      let n = count_if (λ d. ltb d (ny_day as_of)) days in
      or_raise (simple_returns (take n closes)) (raised no_return) >>= λ returns.
      ok (tail_days (tail_losses returns (drop 1 (take n days)) confidence var_window))

  unfoldable pub var_tail_for :
      List PriceBar → List RecordedDecision → Result Stop (List (ℕ × List TailDay))
  var_tail_for bars [] = ok []
  var_tail_for bars (row ∷ rows) = var_tail_at bars row.as_of >>= λ tail.
      var_tail_for bars rows >>= λ tails. ok ((row.decision_id, tail) ∷ tails)

-- The test before a call: what is spent so far and the average call's cost against the cap.
unfoldable pub check_cap : ℕ → ScriptRun → Result Stop (Unit {0})
check_cap cap st = lift_llm (usage_cost_usd st.usage) >>= λ spent.
    if not (st.done == 0) && ltb (cap * st.done) (spent * st.done + spent)
    then err cap_reached
    else ok tt

module _ (cap : ℕ) (traced : Bool) (invoke : RecordedState → Usage → Option Invoked) where
  abbrev pub state_of : RecordedDecision → List TailDay → Option ℤ → RecordedState
  state_of row tail quantity = record {
    symbol = row.symbol;
    as_of = row.as_of;
    proposal = record { action = row.pm_action; quantity = quantity_or_zero row.pm_qty };
    risk_opinion = row.risk_opinion;
    risk_flags = row.risk_flags;
    var_tail = tail;
    final_action = row.final_action;
    final_quantity = quantity;
  }

  -- The explanation and its trace, in one transaction.
  unfoldable pub store_explanation :
      ℕ → Option RiskExplanation → TraceRecorder → ScriptRun → Result Stop ScriptRun
  store_explanation id none recorder st = ok st
  store_explanation id (some e) recorder st =
      record_explanation id e st.explanations >>= λ explanations.
      if traced
      then (lift_trace (record_trace id recorder st.traces) >>= λ written.
          ok (record st { explanations = explanations; traces = written.0 }))
      else ok (record st { explanations = explanations })

  unfoldable pub explain_row :
      List (ℕ × List TailDay) → RecordedDecision → ScriptRun → Result Stop ScriptRun
  explain_row tails row st = check_cap cap st >>= λ _.
      or_raise (tail_at row.decision_id tails) (raised no_tail) >>= λ tail.
      final_quantity row >>= λ quantity.
      or_raise (invoke (state_of row tail quantity) st.usage) (raised node_raised) >>= λ out.
      store_explanation row.decision_id out.explanation out.recorder
        (record st { done = st.done + 1; usage = out.usage })

  -- What is committed, and why the loop ended early, if it did.
  unfoldable pub explain_rows :
      List (ℕ × List TailDay) → List RecordedDecision → ScriptRun → ScriptRun × Option Stop
  explain_rows tails [] st = (st, none)
  explain_rows tails (row ∷ rows) st = elim (explain_row tails row st) [
    | err stop ↦ (st, some stop)
    | ok st' ↦ explain_rows tails rows st'
  ]

  module _ (ny_day : ℕ → ℕ) (iso : ℕ → Text) (joined : ℕ → List RecordedDecision)
      (get_recent_bars : Symbol → ℕ → ℕ → List PriceBar) (per_backtest : ℕ) where
    abbrev last_decision_at : RecordedDecision → List RecordedDecision → ℕ
    last_decision_at row [] = row.as_of
    last_decision_at row (next ∷ rows) = last_decision_at next rows

    -- The bars of the first row's symbol, to the day after the last row, from 420 days before the first.
    abbrev pub bars_for : RecordedDecision → List RecordedDecision → List PriceBar
    bars_for row rows =
        let last = last_decision_at row rows in
        get_recent_bars row.symbol (last + day_seconds) ((last - row.as_of) / day_seconds + 420)

    abbrev pub explain_tailed :
        Result Stop (List (ℕ × List TailDay))
        → List RecordedDecision
        → ScriptRun
        → ScriptRun × Option Stop
    explain_tailed (err stop) rows st = (st, some stop)
    explain_tailed (ok tails) rows st = explain_rows tails rows st

    -- The rows of one backtest, whose tails are all made before the first call.
    abbrev pub explain_picked : Option (List RecordedDecision) → ScriptRun → ScriptRun × Option Stop
    explain_picked none st = (st, some (raised no_such_row))
    explain_picked (some []) st = (st, none)
    explain_picked (some (row ∷ rows)) st =
        explain_tailed (var_tail_for ny_day iso (bars_for row rows) (row ∷ rows)) (row ∷ rows) st

    unfoldable pub explain_backtest : ℕ → ScriptRun → ScriptRun × Option Stop
    explain_backtest id st =
        explain_picked (evenly_spaced (decisions_of (joined id) st.explanations) per_backtest) st

    -- main, over the ids on the command line.
    unfoldable pub explain_backtests : List ℕ → ScriptRun → ScriptRun × Option Stop
    explain_backtests [] st = (st, none)
    explain_backtests (id ∷ ids) st =
        let (st', end) = explain_backtest id st in
        elim end [ some stop ↦ (st', some stop) | none ↦ explain_backtests ids st' ]
