-- ===== src/Replay/Fifo.antt =====
-- What _sell_fifo of scripts/replay_risk_rules.py leaves.
use paper_trading_agent.Base.{ℕ, ◌-◌, min, ◌≡◌, List, [], ◌∷◌, ℤ, arith}
use paper_trading_agent.Replay.{Lot, held_qty, sell_fifo}

pub held_qty-sell_fifo :
    (lots : List Lot) (q : ℕ) (price : ℤ)
    → held_qty (sell_fifo lots q price).left ≡ held_qty lots - q
unfolding held_qty sell_fifo
held_qty-sell_fifo [] q price = omega arith
held_qty-sell_fifo (lot ∷ lots) q price =
    ground (arith, held_qty-sell_fifo lots (q - min q lot.quantity) price)
