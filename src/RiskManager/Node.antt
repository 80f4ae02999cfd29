-- ===== src/RiskManager/Node.antt =====
-- The node of app/agent/risk_manager.py: the V1 rules, the VaR budget and the correlation flags. The
-- repository's list_positions and the bars that the price source returns at `as_of` are arguments;
-- `ny_day` is the New York date of an instant. The reasoning texts, the parametric figures, the constants
-- in raw_output and the trace record are left out.
pub mod Flags
use paper_trading_agent.Base.{
  ℕ, Bool, true, false, not, ◌&&◌, ◌||◌, Option, none, some, List, [], ◌∷◌, ◌++◌, map, ltb,
  if◌then◌else◌, ℤ, pos, select, same_text, Result, ok, or_raise, ◌>>=◌, ◌==◌,
}
use paper_trading_agent.Base.Dict.{set_item}
use paper_trading_agent.Numbers.Ratio.{Ratio}
use paper_trading_agent.State.{Symbol, TentativeDecision}
use paper_trading_agent.DataSources.{PriceBar}
use paper_trading_agent.Positions.{Position, current_qty}
use paper_trading_agent.RiskMath.Correlation.{
  MathError, zero_division, Closes, Correlation, Matrix, correlation_window, aligned_returns,
  correlation_matrix, exceeds,
}
use paper_trading_agent.RiskManager.{Ruling, v1_rules, Flag, high_correlation, Gated, apply_budget}
use paper_trading_agent.RiskManager.Figures.{NodeFigures, node_figures}

-- The flag's limit, in hundredths.
abbrev pub correlation_flag : ℕ
correlation_flag = 80

abbrev pub var_lookback_days : ℕ
var_lookback_days = 400

abbrev pub correlation_lookback_days : ℕ
correlation_lookback_days = 100

abbrev pub Correlations : Type 0
Correlations = List (Symbol × Correlation)

-- What a priced ruling adds to raw_output.
pub record PricedOutput : Type 0 where
  pub figures : NodeFigures
  pub var_max_qty : Option ℕ
  pub correlations : Correlations
  pub risk_flags : List Flag

pub record RawOutput : Type 0 where
  pub held : ℕ
  pub requested : TentativeDecision
  pub priced : Option PricedOutput

pub record RiskReply : Type 0 where
  pub final : Ruling
  pub raw_output : RawOutput

-- The other symbols that are held.
unfoldable pub others_held : Symbol → List Position → List Symbol
others_held symbol positions =
    map (λ (p : Position). p.symbol)
      (select (λ (p : Position). not (same_text p.symbol symbol) && ltb 0 p.quantity) positions)

-- `correlations` and the flags, told of the correlation with another symbol.
unfoldable pub flag_other :
    Symbol → Correlation → Correlations × List Flag → Correlations × List Flag
flag_other other rho found = (
  set_item same_text other rho found.0,
  found.1 ++ (if exceeds correlation_flag rho then high_correlation other ∷ [] else []),
)

-- One entry of the matrix, which counts if it names the symbol.
unfoldable pub flag_pair :
    Symbol
    → Symbol × Symbol
    → Option Correlation
    → Correlations × List Flag
    → Correlations × List Flag
unfolding flag_other
flag_pair symbol pair none found = found
flag_pair symbol pair (some rho) found =
    if same_text pair.0 symbol
    then flag_other pair.1 rho found
    else if same_text pair.1 symbol
    then flag_other pair.0 rho found
    else found

unfoldable pub flag_pairs : Symbol → Matrix → Correlations × List Flag → Correlations × List Flag
unfolding flag_pair
flag_pairs symbol [] found = found
flag_pairs symbol ((pair, rho) ∷ rest) found =
    flag_pairs symbol rest (flag_pair symbol pair rho found)

-- `matrix or {}`
abbrev pub entries_of : Option Matrix → Matrix
entries_of none = []
entries_of (some matrix) = matrix

module _ (ny_day : ℕ → ℕ) where
  -- {b.timestamp's date: b.close for b in bars}
  unfoldable pub closes_by_day : Closes → List PriceBar → Closes
  closes_by_day closes [] = closes
  closes_by_day closes (b ∷ bars) =
      closes_by_day (set_item (λ a b. a == b) (ny_day b.timestamp) b.close closes) bars

  abbrev pub ny_closes : List PriceBar → Closes
  ny_closes = closes_by_day []

  module _ (bars_of : Symbol → ℕ → List PriceBar) where
    unfoldable pub add_closes : List (Symbol × Closes) → List Symbol → List (Symbol × Closes)
    unfolding closes_by_day
    add_closes closes [] = closes
    add_closes closes (other ∷ others) =
        add_closes
          (set_item same_text other (ny_closes (bars_of other correlation_lookback_days)) closes)
          others

    -- The correlations with the others, and the flags.
    unfoldable pub flag_others :
        Symbol → List PriceBar → List Symbol → Result MathError (Correlations × List Flag)
    unfolding add_closes flag_pairs aligned_returns correlation_matrix
    flag_others symbol bars [] = ok ([], [])
    flag_others symbol bars (other ∷ others) = do
      returns ← aligned_returns (add_closes ((symbol, ny_closes bars) ∷ []) (other ∷ others))
      matrix ← correlation_matrix correlation_window returns
      ok (flag_pairs symbol (entries_of matrix) ([], []))

    -- The block under `if price_source is not None`.
    unfoldable pub priced_ruling :
        Symbol → ℤ → List Position → Ruling → Result MathError (Ruling × PricedOutput)
    unfolding flag_others others_held node_figures apply_budget
    priced_ruling symbol held positions r =
        let bars = bars_of symbol var_lookback_days in
        or_raise (node_figures ny_day bars) zero_division >>= λ figures.
        flag_others symbol bars (others_held symbol positions) >>= λ correlated.
        let gated = apply_budget figures.var_95 held r in
        ok (
          gated.final,
          record {
            figures = figures;
            var_max_qty = gated.var_max;
            correlations = correlated.0;
            risk_flags = gated.flags ++ correlated.1;
          },
        )

    -- The node, with a price source.
    unfoldable pub risk_manager :
        (Option Symbol → List Position) → Symbol → TentativeDecision → Result MathError RiskReply
    unfolding priced_ruling v1_rules
    risk_manager list_positions symbol t =
        let held = current_qty (list_positions (some symbol)) in
        priced_ruling symbol (pos held) (list_positions none) (v1_rules t (pos held)) >>= λ ruled.
        ok (record {
          final = ruled.0;
          raw_output = record { held = held; requested = t; priced = some ruled.1 };
        })

-- The node without a price source.
unfoldable pub risk_manager_v1 :
    (Option Symbol → List Position) → Symbol → TentativeDecision → RiskReply
unfolding v1_rules
risk_manager_v1 list_positions symbol t =
    let held = current_qty (list_positions (some symbol)) in
    record {
      final = v1_rules t (pos held);
      raw_output = record { held = held; requested = t; priced = none };
    }
