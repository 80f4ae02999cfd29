-- ===== src/RiskManager.antt =====
-- app/agent/risk_manager.py: the position-limit rules of V1, the VaR budget, and the part of the node that
-- applies it. VaR is the exact fraction that the float stands for. `round(x, 9)` is kept.
pub mod Limits
pub mod Budget
pub mod Figures
pub mod Node
mod Tests
use paper_trading_agent.Base.{
  ℕ, zero, suc, ◌+◌, ◌*◌, ◌/◌, ◌^◌, min, Bool, ◌||◌, Option, none, some, List, [], ◌∷◌, ◌++◌,
  if◌then◌else◌, ℤ, pos, negsuc, ◌+ℤ◌, ◌-ℤ◌, ltb_ℤ, leb_ℤ, eq_ℤ,
}
use paper_trading_agent.Numbers.Ratio.{Ratio, den, round_half_even}
use paper_trading_agent.State.{
  Action, buy, sell, hold, is_buy, is_hold, approve, veto, scaled, TentativeDecision, RiskVerdict,
  Symbol,
}

abbrev pub max_position_qty : ℕ
max_position_qty = 20

-- What the node has decided so far: `verdict`, `final_action` and `final_quantity`.
pub record Ruling : Type 0 where
  pub verdict : RiskVerdict
  pub action : Action
  pub quantity : ℤ

abbrev pub approval : RiskVerdict
approval = record { opinion = approve; adjusted_quantity = none }

abbrev pub refusal : RiskVerdict
refusal = record { opinion = veto; adjusted_quantity = none }

abbrev pub scaling : ℤ → RiskVerdict
scaling q = record { opinion = scaled; adjusted_quantity = some q }

abbrev pub ruling : RiskVerdict → Action → ℤ → Ruling
ruling v a q = record { verdict = v; action = a; quantity = q }

unfoldable pub v1_rules : TentativeDecision → ℤ → Ruling
v1_rules t held =
    let limit = pos max_position_qty in
    if is_hold t.action || eq_ℤ t.quantity (pos 0)
    then ruling approval hold (pos 0)
    else if is_buy t.action
    then (if leb_ℤ limit held
        then ruling refusal hold (pos 0)
        else if ltb_ℤ limit (held +ℤ t.quantity)
        then ruling (scaling (limit -ℤ held)) buy (limit -ℤ held)
        else ruling approval buy t.quantity)
    else if eq_ℤ held (pos 0)
    then ruling refusal hold (pos 0)
    else if ltb_ℤ held t.quantity
    then ruling (scaling held) sell held
    else ruling approval sell t.quantity

-- `floor(round(20 * 0.02 / var, 9))`: 0.4 over the fraction is 2 * den / (5 * num), and the rounding
-- is to whole billionths.
abbrev pub billion : ℕ
billion = 1_000_000_000

unfoldable pub budget_shares : ℕ → ℕ → ℕ
budget_shares num d = round_half_even (2 * d * billion) (5 * num) / billion

unfoldable pub shares_by_sign : ℤ → ℕ → ℕ
shares_by_sign (pos (suc n)) d = min max_position_qty (budget_shares (suc n) d)
shares_by_sign _ d = max_position_qty

unfoldable pub var_max_qty : Ratio → ℕ
unfolding shares_by_sign
var_max_qty var = shares_by_sign var.num (den var)

-- `risk_flags`
pub data Flag : Type 0 where
  var_unavailable over_var_budget var_budget_veto var_budget_scale : Flag
  high_correlation : Symbol → Flag

-- The ruling after the budget, the flags so far and `raw_output["var_max_qty"]`.
pub record Gated : Type 0 where
  pub final : Ruling
  pub flags : List Flag
  pub var_max : Option ℕ

abbrev pub over_flag : ℤ → ℕ → List Flag
over_flag held allowed = if ltb_ℤ (pos allowed) held then over_var_budget ∷ [] else []

-- The budget's say on a ruling, for a known VaR that allows `allowed` shares.
unfoldable pub limit_buy : ℕ → ℤ → Ruling → Gated
limit_buy allowed held r =
    let room = pos allowed -ℤ held in
    let over = over_flag held allowed in
    if is_buy r.action
    then (if leb_ℤ room (pos 0)
        then record {
          final = ruling refusal hold (pos 0);
          flags = over ++ var_budget_veto ∷ [];
          var_max = some allowed;
        }
        else if ltb_ℤ room r.quantity
        then record {
          final = ruling (scaling room) buy room;
          flags = over ++ var_budget_scale ∷ [];
          var_max = some allowed;
        }
        else record { final = r; flags = over; var_max = some allowed })
    else record { final = r; flags = over; var_max = some allowed }

unfoldable pub apply_budget : Option Ratio → ℤ → Ruling → Gated
apply_budget none held r = record { final = r; flags = var_unavailable ∷ []; var_max = none }
apply_budget (some var) held r = limit_buy (var_max_qty var) held r
