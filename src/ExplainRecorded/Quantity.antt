-- ===== src/ExplainRecorded/Quantity.antt =====
-- final_quantity of scripts/explain_recorded.py against what app/agent/risk_manager.py decided.
use paper_trading_agent.Base.{
  ℕ, ◌≡◌, refl, inl, inr, Bool-cases, true, false, Option, none, some, List, [], ◌∷◌, ◌++◌, map, ℤ,
  ok, arith,
}
use paper_trading_agent.Numbers.Ratio.{Ratio}
use paper_trading_agent.State.{Symbol, is_buy, TentativeDecision}
use paper_trading_agent.RiskManager.{
  high_correlation, Ruling, Gated, var_max_qty, v1_rules, limit_buy, apply_budget,
}
use paper_trading_agent.ExplainRecorded.{RecordedDecision, has_scale, has_trigger, final_quantity}

-- What is recorded of a ruling, with the flags of the correlations behind the budget's.
pub record Records (t : TentativeDecision) (held : ℤ) (g : Gated) (row : RecordedDecision)
    : Type 0 where
  pub correlated : List Symbol
  pub flags : row.risk_flags ≡ g.flags ++ map high_correlation correlated
  pub opinion : row.risk_opinion ≡ g.final.verdict.opinion
  pub allowed : row.var_max_qty ≡ g.var_max
  pub proposed : row.pm_qty ≡ some t.quantity
  pub position : row.current_qty ≡ held

no_trigger : (symbols : List Symbol) → has_trigger (map high_correlation symbols) ≡ false
no_trigger [] = refl
no_trigger (s ∷ symbols) = no_trigger symbols

no_scale : (symbols : List Symbol) → has_scale (map high_correlation symbols) ≡ false
no_scale [] = refl
no_scale (s ∷ symbols) = no_scale symbols

final_quantity-limit_buy :
    (allowed : ℕ) (held : ℤ) (before : Ruling) (row : RecordedDecision) (symbols : List Symbol)
    → row.risk_flags ≡ (limit_buy allowed held before).flags ++ map high_correlation symbols
    → row.risk_opinion ≡ (limit_buy allowed held before).final.verdict.opinion
    → row.var_max_qty ≡ (limit_buy allowed held before).var_max
    → row.current_qty ≡ held
    → has_trigger row.risk_flags ≡ true
    → final_quantity row ≡ ok (some (limit_buy allowed held before).final.quantity)
unfolding limit_buy final_quantity
final_quantity-limit_buy allowed held before row symbols flags opinion var_max position h =
    elim (Bool-cases (is_buy before.action)) [
      | inl buys ↦ ground (arith, no_trigger symbols, no_scale symbols)
      | inr other ↦ ground (arith, no_trigger symbols, no_scale symbols)
    ]

-- For a ruling that the VaR budget changed, the final quantity is made again from what was recorded.
pub final_quantity_lem :
    (t : TentativeDecision) (held : ℤ) (var : Option Ratio) (row : RecordedDecision)
    → Records t held (apply_budget var held (v1_rules t held)) row
    → has_trigger row.risk_flags ≡ true
    → final_quantity row ≡ ok (some (apply_budget var held (v1_rules t held)).final.quantity)
unfolding apply_budget
final_quantity_lem t held none row r h = ground (arith, no_trigger r.correlated)
final_quantity_lem t held (some var) row r h =
    final_quantity-limit_buy (var_max_qty var) held (v1_rules t held) row r.correlated r.flags
      r.opinion r.allowed r.position h
