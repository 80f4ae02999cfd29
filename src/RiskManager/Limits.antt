-- ===== src/RiskManager/Limits.antt =====
-- The position limit: what app/agent/risk_manager.py lets through, on every branch.
use paper_trading_agent.Base.{
  ℕ, ◌≡◌, ◌⊎◌, Option, none, some, arith, ℤ, pos, ◌+ℤ◌, ◌-ℤ◌, ◌≤ℤ◌, ◌<ℤ◌,
}
use paper_trading_agent.State.{Action, hold, Opinion, approve, veto, scaled, TentativeDecision}
use paper_trading_agent.VarForecasts.{position_after}
use paper_trading_agent.RiskManager.{
  max_position_qty, Ruling, v1_rules, limit_buy, apply_budget, var_max_qty,
}
use paper_trading_agent.Numbers.Ratio.{Ratio}

abbrev pub limit : ℤ
limit = pos max_position_qty

-- What each opinion says about the trade that it comes with.
abbrev pub Means : Opinion → TentativeDecision → Option ℤ → Action → ℤ → Type 0
Means approve t adjusted a q =
    (adjusted ≡ none)
    × (((a ≡ t.action) × (q ≡ t.quantity))
        ⊎ ((a ≡ hold) × (q ≡ pos 0) × ((t.action ≡ hold) ⊎ (t.quantity ≡ pos 0))))
Means veto t adjusted a q = (adjusted ≡ none) × (a ≡ hold) × (q ≡ pos 0)
Means scaled t adjusted a q =
    (adjusted ≡ some q) × (a ≡ t.action) × (pos 0 <ℤ q) × (q <ℤ t.quantity)

abbrev pub Answers : TentativeDecision → Ruling → Type 0
Answers t r = Means r.verdict.opinion t r.verdict.adjusted_quantity r.action r.quantity

abbrev pub InLimit : ℤ → Type 0
InLimit held = (pos 0 ≤ℤ held) × (held ≤ℤ limit)

-- From a position within the limit, and a proposal of a quantity that is not negative, the V1 rules
-- lead to a position within the limit again.
pub v1_rules_keep_limit :
    (t : TentativeDecision) (held : ℤ)
    → pos 0 ≤ℤ t.quantity
    → InLimit held
    → InLimit (position_after held (v1_rules t held).action (v1_rules t held).quantity)
unfolding v1_rules position_after ◌+ℤ◌ ◌-ℤ◌
v1_rules_keep_limit t held h k = ground arith

-- For a proposal and a position that are not negative, an approval passes the proposal on as it is, or
-- says HOLD 0 where there is nothing to trade; a scaling cuts it to a smaller positive quantity, the
-- verdict's own; a veto trades nothing.
pub v1_rules_answer :
    (t : TentativeDecision) (held : ℤ)
    → pos 0 ≤ℤ t.quantity
    → pos 0 ≤ℤ held
    → Answers t (v1_rules t held)
unfolding v1_rules ◌+ℤ◌ ◌-ℤ◌
v1_rules_answer t held h k = ground arith

v1_rules_nonneg :
    (t : TentativeDecision) (held : ℤ)
    → pos 0 ≤ℤ t.quantity
    → pos 0 ≤ℤ held
    → pos 0 ≤ℤ (v1_rules t held).quantity
unfolding v1_rules ◌+ℤ◌ ◌-ℤ◌
v1_rules_nonneg t held h k = ground arith

limit_buy_keeps_limit :
    (allowed : ℕ) (held : ℤ) (r : Ruling)
    → pos 0 ≤ℤ r.quantity
    → InLimit held
    → InLimit (position_after held r.action r.quantity)
    → let final = (limit_buy allowed held r).final in
      InLimit (position_after held final.action final.quantity)
unfolding limit_buy position_after ◌+ℤ◌ ◌-ℤ◌
limit_buy_keeps_limit allowed held r h k l = ground arith

-- From a position within 0 and the limit, for a proposal of a quantity that is not negative, the final
-- trade, with a VaR figure or without one, leads to a position within 0 and the limit again.
pub apply_budget_keeps_limit :
    (var : Option Ratio) (t : TentativeDecision) (held : ℤ)
    → pos 0 ≤ℤ t.quantity
    → InLimit held
    → let final = (apply_budget var held (v1_rules t held)).final in
      InLimit (position_after held final.action final.quantity)
unfolding apply_budget
apply_budget_keeps_limit none t held h k = v1_rules_keep_limit t held h k
apply_budget_keeps_limit (some var) t held h k =
    limit_buy_keeps_limit (var_max_qty var) held (v1_rules t held) (v1_rules_nonneg t held h k.0) k
      (v1_rules_keep_limit t held h k)
