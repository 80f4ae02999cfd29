-- ===== src/Replay/Tests.antt =====
-- The replay on a short tape.
use paper_trading_agent.Base.{◌≤◌, ◌≡◌, true, none, some, [], ◌∷◌, pos, int_laws, arith}
use paper_trading_agent.State.{buy}
use paper_trading_agent.VarForecasts.{position_after}
use paper_trading_agent.RiskManager.{max_position_qty}
use paper_trading_agent.Replay.{TapeRow, Rules, Replay, held_qty, budget_cap, replay_day, replay}
use paper_trading_agent.Replay.Limit.{replay_keeps_limit}
use paper_trading_agent.Replay.Gates.{plain, final_ruling, proposal, replay_day_position}

abbrev strict : Rules
strict = record {
  slippage_bps = 5;
  max_drawdown_pct = some 500;
  stop_loss_pct = some 1_000;
  trailing_stop_pct = none;
  min_days_between_buys = some 3;
  var_budget = true;
}

abbrev start : Replay
start = record {
  realized = pos 0;
  closed = 0;
  buys = 0;
  sells = 0;
  blocked = 0;
  lots =
      record { quantity = 12; entry_price = pos 10_000 }
      ∷ record { quantity = 3; entry_price = pos 12_000 }
      ∷ [];
  peak_since_open = none;
  last_buy_day = none;
}

abbrev buy_ten : TapeRow
buy_ten = record {
  day = 1;
  proposed_action = buy;
  proposed_qty = pos 10;
  price = 1;
  var_max_qty = some 18;
}

start_held : held_qty start.lots ≤ 20
unfolding held_qty
start_held = omega arith

replay_keeps_limit_example :
    held_qty (replay strict (buy_ten ∷ buy_ten ∷ []) start).lots ≤ max_position_qty
replay_keeps_limit_example = replay_keeps_limit strict (buy_ten ∷ buy_ten ∷ []) start start_held

replay_day_position_example :
    let final =
      final_ruling
        (budget_cap true buy_ten.var_max_qty)
        (proposal buy_ten)
        (pos (held_qty start.lots)) in
    pos (held_qty (replay_day (plain 5 true) buy_ten start).lots)
    ≡ position_after (pos (held_qty start.lots)) final.action final.quantity
replay_day_position_example = replay_day_position 5 true buy_ten start (omega int_laws) start_held

start_enough : 13 ≤ held_qty start.lots
unfolding held_qty
start_enough = omega arith
