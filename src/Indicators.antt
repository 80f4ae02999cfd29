-- ===== src/Indicators.antt =====
-- app/agent/indicators.py: the simple moving average and Wilder's RSI. Closes are whole numbers of a price
-- unit, and a quotient is an exact fraction, where Python's Decimal keeps 28 digits.
pub mod Bounds
use paper_trading_agent.Base.{
  ℕ, zero, suc, ◌+◌, ◌-◌, ◌*◌, Option, none, some, List, [], ◌∷◌, ltb, ◌==◌, if◌then◌else◌, pos,
  sub_ℕ, length, take, drop, last_n,
}
use paper_trading_agent.Numbers.Ratio.{Ratio}

unfoldable pub sum_closes : List ℕ → ℕ
sum_closes [] = 0
sum_closes (c ∷ cs) = c + sum_closes cs

-- For a period of 1 or more; `none` for 0 stands for the division by zero.
unfoldable pub sma : List ℕ → ℕ → Option Ratio
sma closes zero = none
sma closes (suc p) =
    if ltb (length closes) (suc p)
    then none
    else some (record { num = pos (sum_closes (last_n (suc p) closes)); den_pred = p })

-- A day's entries of `gains` and `losses`.
pub record Change : Type 0 where
  pub gain : ℕ
  pub loss : ℕ

unfoldable pub changes : List ℕ → List Change
changes [] = []
changes (c ∷ []) = []
changes (c ∷ d ∷ cs) = record { gain = d - c; loss = c - d } ∷ changes (d ∷ cs)

unfoldable pub sum_gains : List Change → ℕ
sum_gains [] = 0
sum_gains (c ∷ cs) = c.gain + sum_gains cs

unfoldable pub sum_losses : List Change → ℕ
sum_losses [] = 0
sum_losses (c ∷ cs) = c.loss + sum_losses cs

-- `avg_gain` and `avg_loss`, over one denominator.
pub record Averages : Type 0 where
  pub gains : ℕ
  pub losses : ℕ
  pub over : ℕ

-- `(avg * (period - 1) + change) / period`
abbrev pub smooth : ℕ → Averages → Change → Averages
smooth period a c = record {
  gains = a.gains * (period - 1) + c.gain * a.over;
  losses = a.losses * (period - 1) + c.loss * a.over;
  over = a.over * period;
}

unfoldable pub smoothed : ℕ → Averages → List Change → Averages
smoothed period a [] = a
smoothed period a (c ∷ cs) = smoothed period (smooth period a c) cs

-- `100 - 100 / (1 + avg_gain / avg_loss)`
unfoldable pub rsi_of : ℕ → ℕ → Ratio
rsi_of gains zero = record { num = pos 100; den_pred = 0 }
rsi_of gains (suc l) = record {
  num = sub_ℕ (100 * (suc l + gains)) (100 * suc l);
  den_pred = l + gains;
}

-- The averages of the first `period` changes, smoothed by the others.
unfoldable pub averages : List ℕ → ℕ → Averages
averages closes period =
    let cs = changes closes in
    let seed : Averages = record {
      gains = sum_gains (take period cs);
      losses = sum_losses (take period cs);
      over = period;
    } in
    smoothed period seed (drop period cs)

-- For a period of 1 or more; `none` for 0 stands for the division by zero.
unfoldable pub rsi : List ℕ → ℕ → Option Ratio
rsi closes zero = none
rsi closes (suc p) =
    let a = averages closes (suc p) in
    if ltb (length closes) (suc p + 1) then none else some (rsi_of a.gains a.losses)
