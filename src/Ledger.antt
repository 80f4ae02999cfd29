-- ===== src/Ledger.antt =====
-- The trade recorders: _record_paper_trade of app/agent/runner.py on `outcomes`, and
-- _record_backtest_trade of app/agent/backtest.py on `backtest_outcomes`. They are one algorithm on two
-- tables; the live table is the one whose rows have no backtest id.
-- `store` is PostgreSQL's conversion of an amount to a NUMERIC(12, 4) column: a rounded amount, or
-- `none` where the amount is too large for the column.
pub mod Fifo
pub mod Step
pub mod Sale
pub mod Profit
pub mod Trade
pub mod Sizes
mod Tests
use paper_trading_agent.Base.{
  ℕ, ◌-◌, min, Bool, ◌||◌, Option, none, some, List, [], ◌∷◌, ltb, ◌==◌, if◌then◌else◌, ℤ, pos,
  pos_part, ◌-ℤ◌, scale, leb_ℤ, Result, ok, err, ◌>>=◌, or_raise,
}
use paper_trading_agent.State.{Symbol, Action, is_buy, is_hold}
use paper_trading_agent.Outcomes.{
  Row, Outcomes, opened, closed, open_lots, update_where, insert_row, total_quantity,
}

-- `oversold` is the ValueError of a SELL beyond the open position.
pub data TradeError : Type 0 where
  oversold out_of_range : TradeError

abbrev pub open_row : Option ℕ → ℕ → Symbol → ℕ → ℤ → ℕ → ℕ → Row
open_row book decision symbol quantity entry as_of id = record {
  id = id;
  backtest_id = book;
  decision_id = decision;
  symbol = symbol;
  quantity = quantity;
  entry_price = entry;
  opened_at = as_of;
  status = opened;
  exit_price = none;
  closed_at = none;
  realized_pnl = none;
}

-- SET status = 'CLOSED', exit_price, closed_at, realized_pnl
abbrev pub close_row : ℤ → ℕ → ℤ → Row → Row
close_row exit as_of pnl r = record r {
  status = closed;
  exit_price = some exit;
  closed_at = some as_of;
  realized_pnl = some pnl;
}

-- SET quantity = quantity - …
abbrev pub shrink_row : ℕ → Row → Row
shrink_row n r = record r { quantity = r.quantity - n }

-- The CLOSED row for the sold part of a lot.
abbrev pub sold_part : Option ℕ → ℕ → Symbol → Row → ℕ → ℤ → ℤ → ℕ → ℤ → ℕ → Row
sold_part book decision symbol lot n entry exit as_of pnl id =
    close_row exit as_of pnl (open_row book decision symbol n entry lot.opened_at id)

module _ (store : ℤ → Option ℤ) where
  abbrev pub stored : ℤ → Result TradeError ℤ
  stored x = or_raise (store x) out_of_range

  -- The loop's body for one lot, of which `n` shares are sold.
  unfoldable pub close_lot :
      Option ℕ → ℕ → Symbol → ℤ → ℕ → Row → ℕ → Outcomes → Result TradeError Outcomes
  close_lot book decision symbol price as_of lot n t =
      let pnl = scale (price -ℤ lot.entry_price) n in
      if n == lot.quantity
      then (do
        exit ← stored price
        gain ← stored pnl
        ok (record t { rows = update_where lot.id (close_row exit as_of gain) t.rows }))
      else (do
        entry ← stored lot.entry_price
        exit ← stored price
        gain ← stored pnl
        let shrunk = update_where lot.id (shrink_row n) t.rows
        ok (
            insert_row (sold_part book decision symbol lot n entry exit as_of gain)
              (record t { rows = shrunk })))

  unfoldable pub close_lots :
      Option ℕ → ℕ → Symbol → ℤ → ℕ → ℕ → List Row → Outcomes → Result TradeError Outcomes
  close_lots book decision symbol price as_of remaining [] t = ok t
  close_lots book decision symbol price as_of remaining (lot ∷ lots) t =
      let n = min remaining lot.quantity in
      if remaining == 0
      then ok t
      else (close_lot book decision symbol price as_of lot n t >>= λ t'.
          close_lots book decision symbol price as_of (remaining - n) lots t')

  unfoldable pub record_buy :
      Option ℕ → ℕ → Symbol → ℕ → ℤ → ℕ → Outcomes → Result TradeError Outcomes
  record_buy book decision symbol quantity price as_of t = do
    entry ← stored price
    ok (insert_row (open_row book decision symbol quantity entry as_of) t)

  unfoldable pub record_sell :
      Option ℕ → ℕ → Symbol → ℕ → ℤ → ℕ → Outcomes → Result TradeError Outcomes
  record_sell book decision symbol quantity price as_of t =
      let lots = open_lots book symbol t.rows in
      if ltb (total_quantity lots) quantity
      then err oversold
      else close_lots book decision symbol price as_of quantity lots t

  unfoldable pub record_trade :
      Option ℕ → ℕ → Symbol → Action → ℤ → ℤ → ℕ → Outcomes → Result TradeError Outcomes
  record_trade book decision symbol action quantity price as_of t =
      if is_hold action || leb_ℤ quantity (pos 0)
      then ok t
      else if is_buy action
      then record_buy book decision symbol (pos_part quantity) price as_of t
      else record_sell book decision symbol (pos_part quantity) price as_of t

  unfoldable pub record_paper_trade :
      ℕ → Symbol → Action → ℤ → ℤ → ℕ → Outcomes → Result TradeError Outcomes
  unfolding record_trade
  record_paper_trade = record_trade none

  unfoldable pub record_backtest_trade :
      ℕ → ℕ → Symbol → Action → ℤ → ℤ → ℕ → Outcomes → Result TradeError Outcomes
  unfolding record_trade
  record_backtest_trade backtest_id = record_trade (some backtest_id)
