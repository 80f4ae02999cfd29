-- ===== src/Explainer/Trigger.antt =====
-- The trigger of app/agent/explainer.py, for the flags that app/agent/risk_manager.py raises.
use paper_trading_agent.Base.{ℕ, ◌≡◌, refl, ◌↔◌, Option, none, some, [], ℤ, ◌-ℤ◌, arith}
use paper_trading_agent.Numbers.Ratio.{Ratio}
use paper_trading_agent.RiskManager.{Ruling, limit_buy, apply_budget, var_max_qty}
use paper_trading_agent.Explainer.{triggered}

limit_buy-triggered :
    (allowed : ℕ) (held : ℤ) (r : Ruling)
    → (triggered (limit_buy allowed held r).flags ≡ []) ↔ ((limit_buy allowed held r).final ≡ r)
unfolding triggered limit_buy ◌-ℤ◌
limit_buy-triggered allowed held r = ground arith

-- The flags of a ruling ask for no explanation exactly when the VaR budget left the ruling as it was.
pub triggered_iff_changed :
    (var : Option Ratio) (held : ℤ) (r : Ruling)
    → (triggered (apply_budget var held r).flags ≡ []) ↔ ((apply_budget var held r).final ≡ r)
unfolding apply_budget triggered
triggered_iff_changed none held r = (λ e. refl, λ e. refl)
triggered_iff_changed (some var) held r = limit_buy-triggered (var_max_qty var) held r
