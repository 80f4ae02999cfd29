-- ===== src/Replay.antt =====
-- scripts/replay_risk_rules.py: a recorded run of proposals, gated again by the rules of the risk manager
-- or by alternative ones. Prices are quotes and amounts as in Backtest; a percentage is a whole number of
-- basis points, and a quotient of amounts is compared without rounding. A missing quantity is 0.
pub mod Fifo
pub mod Limit
pub mod Gates
mod Tests
use paper_trading_agent.Base.{
  ℕ, ◌+◌, ◌-◌, ◌*◌, min, max, Bool, true, false, ◌&&◌, ◌||◌, Option, none, some, List, [], ◌∷◌,
  ◌++◌, ltb, leb, ◌==◌, if◌then◌else◌, ℤ, pos, pos_part, ◌+ℤ◌, ◌-ℤ◌, scale, ltb_ℤ, leb_ℤ, length,
}
use paper_trading_agent.State.{Action, buy, sell, hold, is_buy, is_hold}
use paper_trading_agent.RiskManager.{max_position_qty}
use paper_trading_agent.Backtest.{apply_slippage, weekdays_from}

pub record Lot : Type 0 where
  pub quantity : ℕ
  pub entry_price : ℤ

-- A row of the TAPE query, with the share limit that compare_var_node.py adds.
pub record TapeRow : Type 0 where
  pub day : ℕ
  pub proposed_action : Action
  pub proposed_qty : ℤ
  pub price : ℕ
  pub var_max_qty : Option ℕ

pub record Rules : Type 0 where
  pub slippage_bps : ℕ
  pub max_drawdown_pct : Option ℕ
  pub stop_loss_pct : Option ℕ
  pub trailing_stop_pct : Option ℕ
  pub min_days_between_buys : Option ℕ
  pub var_budget : Bool

-- The rule's outcome so far, and the loop's variables.
pub record Replay : Type 0 where
  pub realized : ℤ
  pub closed : ℕ
  pub buys : ℕ
  pub sells : ℕ
  pub blocked : ℕ
  pub lots : List Lot
  pub peak_since_open : Option ℕ
  pub last_buy_day : Option ℕ

unfoldable pub held_qty : List Lot → ℕ
held_qty [] = 0
held_qty (lot ∷ lots) = lot.quantity + held_qty lots

unfoldable pub entry_cost : List Lot → ℤ
entry_cost [] = pos 0
entry_cost (lot ∷ lots) = scale lot.entry_price lot.quantity +ℤ entry_cost lots

-- `(avg - price) / avg * 100 >= pct`, for an average entry that is positive.
abbrev pub down_from_entry : List Lot → ℕ → ℕ → Bool
down_from_entry lots price pct =
    let cost = entry_cost lots in
    ltb_ℤ (pos 0) cost
    && leb_ℤ (scale cost pct) (scale (cost -ℤ pos (price * 10_000 * held_qty lots)) 10_000)

-- `(peak - price) / peak * 100 >= pct`, for a peak that is not 0.
abbrev pub down_from_peak : Option ℕ → ℕ → ℕ → Bool
down_from_peak none price pct = false
down_from_peak (some peak) price pct =
    ltb 0 peak && leb (peak * pct + price * 10_000) (peak * 10_000)

abbrev pub when_set : Option ℕ → (ℕ → Bool) → Bool
when_set none test = false
when_set (some pct) test = test pct

-- Trading days since the last purchase, against the least number of them.
unfoldable pub blocked_by_spacing : ℕ → Option ℕ → Option ℕ → Bool
blocked_by_spacing today none min_days = false
blocked_by_spacing today (some last) none = false
blocked_by_spacing today (some last) (some min_days) =
    ltb (length (weekdays_from (last + 1) (today - last))) min_days

-- What a sale leaves, what it realizes and how many lots it touches.
pub record Sale : Type 0 where
  pub left : List Lot
  pub gain : ℤ
  pub count : ℕ

unfoldable pub sell_fifo : List Lot → ℕ → ℤ → Sale
sell_fifo [] remaining price = record { left = []; gain = pos 0; count = 0 }
sell_fifo (lot ∷ lots) remaining price =
    let n = min remaining lot.quantity in
    let rest = sell_fifo lots (remaining - n) price in
    let gain = scale (price -ℤ lot.entry_price) n in
    if remaining == 0
    then record { left = lot ∷ lots; gain = pos 0; count = 0 }
    else if n == lot.quantity
    then record { left = rest.left; gain = gain +ℤ rest.gain; count = rest.count + 1 }
    else record {
      left = record { quantity = lot.quantity - n; entry_price = lot.entry_price } ∷ lots;
      gain = gain;
      count = 1;
    }

-- One sale in the outcome.
abbrev pub sold : ℕ → ℤ → Replay → Replay
sold quantity fill r =
    let s = sell_fifo r.lots quantity fill in
    record r {
      realized = r.realized +ℤ s.gain;
      closed = r.closed + s.count;
      sells = r.sells + 1;
      lots = s.left;
    }

abbrev pub block : Replay → Replay
block r = record r { blocked = r.blocked + 1 }

abbrev pub higher : ℕ → Option ℕ → Option ℕ
higher price none = some price
higher price (some peak) = some (max peak price)

abbrev pub track_peak : ℕ → Replay → Replay
track_peak price r = record r {
  peak_since_open = if held_qty r.lots == 0 then none else higher price r.peak_since_open;
}

-- The forced exits, before the day's proposal.
unfoldable pub forced_exit : Rules → ℕ → Replay → Replay
forced_exit rules price r =
    if ltb 0 (held_qty r.lots)
      && (when_set rules.stop_loss_pct (down_from_entry r.lots price)
          || when_set rules.trailing_stop_pct (down_from_peak r.peak_since_open price))
    then record (sold (held_qty r.lots) (apply_slippage price sell rules.slippage_bps) r) {
      peak_since_open = none;
    }
    else r

abbrev pub budget_cap : Bool → Option ℕ → Option ℕ
budget_cap true cap = cap
budget_cap false cap = none

-- A purchase, up to the cap, at the day's fill.
unfoldable pub purchase : Rules → TapeRow → ℕ → ℕ → Replay → Replay
purchase rules row quantity cap r = record r {
  buys = r.buys + 1;
  lots =
      r.lots
      ++ record {
        quantity = min quantity (cap - held_qty r.lots);
        entry_price = apply_slippage row.price buy rules.slippage_bps;
      }
        ∷ [];
  last_buy_day = some row.day;
}

unfoldable pub propose_buy : Rules → TapeRow → ℕ → Replay → Replay
propose_buy rules row quantity r =
    let held = held_qty r.lots in
    if leb max_position_qty held
    then block r
    else if ltb 0 held && when_set rules.max_drawdown_pct (down_from_entry r.lots row.price)
    then block r
    else if blocked_by_spacing row.day r.last_buy_day rules.min_days_between_buys
    then block r
    else elim (budget_cap rules.var_budget row.var_max_qty) [
      | none ↦ purchase rules row quantity max_position_qty r
      | some limit ↦
          if leb (min max_position_qty limit) held
          then block r
          else purchase rules row quantity (min max_position_qty limit) r
    ]

unfoldable pub propose_sell : Rules → TapeRow → ℕ → Replay → Replay
propose_sell rules row quantity r =
    let held = held_qty r.lots in
    if held == 0
    then block r
    else sold (min quantity held) (apply_slippage row.price sell rules.slippage_bps) r

unfoldable pub propose : Rules → TapeRow → Replay → Replay
propose rules row r =
    if is_hold row.proposed_action || leb_ℤ row.proposed_qty (pos 0)
    then r
    else if is_buy row.proposed_action
    then propose_buy rules row (pos_part row.proposed_qty) r
    else propose_sell rules row (pos_part row.proposed_qty) r

unfoldable pub replay_day : Rules → TapeRow → Replay → Replay
replay_day rules row r = propose rules row (forced_exit rules row.price (track_peak row.price r))

unfoldable pub replay : Rules → List TapeRow → Replay → Replay
replay rules [] r = r
replay rules (row ∷ tape) r = replay rules tape (replay_day rules row r)
