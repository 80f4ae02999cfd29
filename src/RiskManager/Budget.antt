-- ===== src/RiskManager/Budget.antt =====
-- The VaR budget: how many shares var_max_qty of app/agent/risk_manager.py allows.
use paper_trading_agent.Base.{ℕ, suc, ◌+◌, ◌*◌, ◌/◌, ◌≤◌, ◌<◌, ◌≡◌, ◌⊎◌, inl, inr, arith, min, pos}
use native.Mathlib.Decide.{dec_le}
use paper_trading_agent.Numbers.Ratio.{Ratio, round_half_even}
use paper_trading_agent.Numbers.Rounding.{round_half_even_near}
use paper_trading_agent.RiskManager.{max_position_qty, billion, budget_shares, var_max_qty}

mul_mono_left : (n x y : ℕ) → x ≤ y → n * x ≤ n * y
mul_mono_left n x y h = grind arith

lt_of_mul_lt : (n x y : ℕ) → n * x < n * y → x < y
lt_of_mul_lt n x y h = grind arith

-- A VaR of num / d that is positive, and the shares that 2% of a full position's value carries.
budget_shares_bounds :
    (num d : ℕ)
    → 0 < num
    → let n = budget_shares num d in
      (10 * billion * (num * n) ≤ 4 * billion * d + 5 * num) × (2 * d < 5 * (num * (n + 1)))
unfolding budget_shares
budget_shares_bounds num d h =
    let x = round_half_even (2 * d * billion) (5 * num) in
    let n = x / billion in
    let near = round_half_even_near (2 * d * billion) (5 * num) (omega arith) in
    omega (
      arith,
      mul_mono_left num (n * billion) x (omega arith),
      mul_mono_left num (x + 1) ((n + 1) * billion) (omega arith),
    )

-- A VaR of `(n + 1) / (d + 1)`.
abbrev pub positive_var : ℕ → ℕ → Ratio
positive_var n d = record { num = pos (suc n); den_pred = d }

-- For a positive VaR the shares allowed are at most 20; their number times the VaR is at most 20 times
-- 2%, but for half a billionth of the VaR that `round(x, 9)` may add; and it is the largest number like
-- this: one share more, unless the limit of 20 is met, would be over 20 times 2%.
pub var_max_qty_bounds :
    (n d : ℕ)
    → let q = var_max_qty (positive_var n d) in
      (q ≤ max_position_qty)
      × (10 * billion * (suc n * q) ≤ 4 * billion * suc d + 5 * suc n)
      × ((q ≡ max_position_qty) ⊎ (2 * suc d < 5 * (suc n * (q + 1))))
unfolding var_max_qty
var_max_qty_bounds n d =
    let s = budget_shares (suc n) (suc d) in
    let bounds = budget_shares_bounds (suc n) (suc d) (omega arith) in
    (
      omega arith,
      omega (arith, mul_mono_left (suc n) (min max_position_qty s) s (omega arith)),
      elim (dec_le max_position_qty s) [
        | yes full ↦ inl (omega arith)
        | no less ↦ inr (let e : min max_position_qty s ≡ s = omega arith in rw e bounds.1)
      ],
    )
