-- ===== src/Replay/Limit.antt =====
-- The position limit under every rule of scripts/replay_risk_rules.py.
use paper_trading_agent.Base.{
  ℕ, ◌+◌, ◌-◌, ◌≤◌, min, ◌≡◌, inl, inr, List, [], ◌∷◌, ◌++◌, Option-cases, pos_part, arith,
}
use paper_trading_agent.State.{sell}
use paper_trading_agent.RiskManager.{max_position_qty}
use paper_trading_agent.Backtest.{apply_slippage}
use paper_trading_agent.Replay.{
  Lot, TapeRow, Rules, Replay, held_qty, track_peak, budget_cap, forced_exit, purchase, propose_buy,
  propose_sell, propose, replay_day, replay,
}
use paper_trading_agent.Replay.Fifo.{held_qty-sell_fifo}

held_qty-append :
    (lots : List Lot) (lot : Lot) → held_qty (lots ++ lot ∷ []) ≡ held_qty lots + lot.quantity
unfolding held_qty
held_qty-append [] lot = omega arith
held_qty-append (x ∷ xs) lot = omega (arith, held_qty-append xs lot)

pub held_qty-purchase :
    (rules : Rules) (row : TapeRow) (quantity cap : ℕ) (r : Replay)
    → held_qty (purchase rules row quantity cap r).lots
      ≡ held_qty r.lots + min quantity (cap - held_qty r.lots)
unfolding purchase
held_qty-purchase rules row quantity cap r = held_qty-append r.lots _

pub held_qty-propose_sell :
    (rules : Rules) (row : TapeRow) (quantity : ℕ) (r : Replay)
    → held_qty (propose_sell rules row quantity r).lots ≡ held_qty r.lots - quantity
unfolding propose_sell
held_qty-propose_sell rules row quantity r = ground (
  arith,
  held_qty-sell_fifo r.lots (min quantity (held_qty r.lots))
      (apply_slippage row.price sell rules.slippage_bps),
)

held_qty-forced_exit :
    (rules : Rules) (price : ℕ) (r : Replay)
    → held_qty (forced_exit rules price r).lots ≤ held_qty r.lots
unfolding forced_exit
held_qty-forced_exit rules price r = ground (
  arith,
  held_qty-sell_fifo r.lots (held_qty r.lots) (apply_slippage price sell rules.slippage_bps),
)

propose_buy-limit :
    (rules : Rules) (row : TapeRow) (quantity : ℕ) (r : Replay)
    → held_qty r.lots ≤ max_position_qty
    → held_qty (propose_buy rules row quantity r).lots ≤ max_position_qty
unfolding propose_buy
propose_buy-limit rules row quantity r h =
    elim (Option-cases (budget_cap rules.var_budget row.var_max_qty)) [
      | inl free ↦ ground (arith, held_qty-purchase rules row quantity max_position_qty r)
      | inr (limit, tight) ↦
          ground (arith, held_qty-purchase rules row quantity (min max_position_qty limit) r)
    ]

propose-limit :
    (rules : Rules) (row : TapeRow) (r : Replay)
    → held_qty r.lots ≤ max_position_qty
    → held_qty (propose rules row r).lots ≤ max_position_qty
unfolding propose
propose-limit rules row r h =
    let q = pos_part row.proposed_qty in
    ground (arith, propose_buy-limit rules row q r h, held_qty-propose_sell rules row q r)

-- Under every choice of rules, a replay that starts within the limit of 20 shares stays within it.
pub replay_keeps_limit :
    (rules : Rules) (tape : List TapeRow) (r : Replay)
    → held_qty r.lots ≤ max_position_qty
    → held_qty (replay rules tape r).lots ≤ max_position_qty
unfolding replay replay_day
replay_keeps_limit rules [] r h = h
replay_keeps_limit rules (row ∷ tape) r h =
    let exit = held_qty-forced_exit rules row.price (track_peak row.price r) in
    replay_keeps_limit rules tape (replay_day rules row r) (
      propose-limit rules row (forced_exit rules row.price (track_peak row.price r))
        (omega (arith, exit)))
