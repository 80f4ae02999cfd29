-- ===== src/Indicators/Bounds.antt =====
-- The range of the figures of app/agent/indicators.py.
use paper_trading_agent.Base.{
  ℕ, zero, suc, ◌+◌, ◌≤◌, ◌<◌, ◌≡◌, refl, inl, inr, ◌⊎◌, Bool-cases, none, some, List, ltb, pos,
  length, last_n, arith,
}
use paper_trading_agent.Numbers.Ratio.{Ratio, ◌≤R◌}
use paper_trading_agent.Indicators.{sum_closes, sma, rsi_of, averages, rsi}

abbrev pub whole : ℕ → Ratio
whole n = record { num = pos n; den_pred = 0 }

rsi_of-bounds :
    (gains losses : ℕ) → (whole 0 ≤R rsi_of gains losses) × (rsi_of gains losses ≤R whole 100)
unfolding rsi_of
rsi_of-bounds gains zero = (omega arith, omega arith)
rsi_of-bounds gains (suc l) = (ground arith, ground arith)

-- The RSI of a period exists exactly when there are more closes than the period's days, and lies within
-- 0 and 100.
pub rsi_bounds :
    (closes : List ℕ) (p : ℕ)
    → ((length closes ≤ suc p) × (rsi closes (suc p) ≡ none))
      ⊎ ((suc p < length closes)
          × ((r : Ratio) × (rsi closes (suc p) ≡ some r) × (whole 0 ≤R r) × (r ≤R whole 100)))
unfolding rsi
rsi_bounds closes p = elim (Bool-cases (ltb (length closes) (suc p + 1))) [
  | inl short ↦ inl (ground arith, rw short refl)
  | inr full ↦
      (let a = averages closes (suc p) in
        let bounds = rsi_of-bounds a.gains a.losses in
        inr (ground arith, (rsi_of a.gains a.losses, rw full refl, bounds.0, bounds.1)))
]

pub sma_exists :
    (closes : List ℕ) (p : ℕ)
    → ((length closes < suc p) × (sma closes (suc p) ≡ none))
      ⊎ ((suc p ≤ length closes) × ((a : Ratio) × (sma closes (suc p) ≡ some a)))
unfolding sma
sma_exists closes p = elim (Bool-cases (ltb (length closes) (suc p))) [
  | inl short ↦ inl (ground arith, rw short refl)
  | inr full ↦ inr (
    ground arith,
    (record { num = pos (sum_closes (last_n (suc p) closes)); den_pred = p }, rw full refl),
  )
]
