-- ===== src/Ledger/Tests.antt =====
-- The trade recorders and the positions on a small table.
use mathlib.Core.Option.{some-injective}
use paper_trading_agent.Base.{
  ◌≡◌, ◌↔◌, refl, Option, some, [], ◌∷◌, ℤ, pos, scale, ◌-ℤ◌, same_text, ◌≤ℤ◌, ◌<ℤ◌, ok, err, ◌+ℤ◌,
  ◌*◌, length, int_laws, subst, arith,
}
use paper_trading_agent.State.{Symbol, buy, sell}
use paper_trading_agent.Outcomes.{Row, Outcomes, closed, total_quantity, open_lots, update_where}
use paper_trading_agent.Numbers.Sorting.{sorted}
use paper_trading_agent.Ledger.{
  oversold, record_trade, record_buy, record_sell, close_lots, close_lot, open_row,
}
use paper_trading_agent.Ledger.Fifo.{IsLedger}
use paper_trading_agent.Ledger.Sale.{Sold}
use paper_trading_agent.Ledger.Profit.{Booked, record_sell-Booked}
use paper_trading_agent.Ledger.Trade.{
  Bought, record_trade_buy, record_trade_sell, record_trade_oversold,
}

abbrev exact : ℤ → Option ℤ
exact x = some x

abbrev aapl : Symbol
aapl = 65 ∷ 65 ∷ 80 ∷ 76 ∷ []

abbrev first_lot : Row
first_lot = open_row (some 1) 7 aapl 10 (pos 100) 12 0

abbrev second_lot : Row
second_lot = open_row (some 1) 8 aapl 5 (pos 110) 36 1

abbrev two_lots : Outcomes
two_lots = record { rows = first_lot ∷ second_lot ∷ []; next_id = 2 }

two_lots-IsLedger : IsLedger (some 1) aapl two_lots
unfolding same_text
two_lots-IsLedger = record {
  ids = (omega arith, (omega arith, omega arith));
  in_order = ((refl, tt), (tt, tt));
}

abbrev three_lots : Outcomes
three_lots = record {
  rows = first_lot ∷ second_lot ∷ open_row (some 1) 9 aapl 2 (pos 120) 60 2 ∷ [];
  next_id = 3;
}

abbrev after_sale : Outcomes
after_sale = record {
  rows =
      record first_lot {
        status = closed;
        exit_price = some (pos 120);
        closed_at = some 60;
        realized_pnl = some (pos 200);
      }
      ∷ record second_lot { quantity = 3 }
      ∷ record {
        id = 2;
        backtest_id = some 1;
        decision_id = 9;
        symbol = aapl;
        quantity = 2;
        entry_price = pos 110;
        opened_at = 36;
        status = closed;
        exit_price = some (pos 120);
        closed_at = some 60;
        realized_pnl = some (pos 20);
      }
      ∷ [];
  next_id = 3;
}

bought_run : record_trade exact (some 1) 9 aapl buy (pos 2) (pos 120) 60 two_lots ≡ ok three_lots
unfolding record_trade record_buy
bought_run = refl

sold_run : record_trade exact (some 1) 9 aapl sell (pos 12) (pos 120) 60 two_lots ≡ ok after_sale
unfolding record_trade record_sell total_quantity open_lots sorted same_text close_lots close_lot
    update_where scale ◌-ℤ◌
sold_run = refl

record_trade_buy_example : Bought exact (some 1) 9 aapl (pos 120) 60 2 two_lots three_lots
record_trade_buy_example =
    record_trade_buy exact (some 1) 9 aapl (pos 120) 60 1 two_lots two_lots-IsLedger
      (omega arith, (omega arith, tt)) bought_run

record_trade_sell_example : Sold exact (some 1) 9 aapl (pos 120) 60 12 two_lots after_sale
record_trade_sell_example =
    record_trade_sell exact (some 1) 9 aapl (pos 120) 60 11 two_lots two_lots-IsLedger sold_run

record_trade_oversold_example :
    (record_trade exact (some 1) 9 aapl sell (pos 16) (pos 120) 60 two_lots ≡ err oversold)
    ↔ ((sell ≡ sell) × (pos (total_quantity (open_lots (some 1) aapl two_lots.rows)) <ℤ pos 16))
record_trade_oversold_example =
    record_trade_oversold exact (some 1) 9 aapl (pos 120) 60 sell (pos 16) two_lots

two_lots_enough : pos 12 ≤ℤ pos (total_quantity (open_lots (some 1) aapl two_lots.rows))
unfolding total_quantity open_lots sorted same_text
two_lots_enough = omega arith

exact_near : (x y : ℤ) → exact x ≡ some y → (x ≤ℤ y +ℤ pos 0) × (y ≤ℤ x +ℤ pos 0)
exact_near x y e =
    subst (λ z. (x ≤ℤ z +ℤ pos 0) × (z ≤ℤ x +ℤ pos 0)) (some-injective _ _ e)
      (omega int_laws, omega int_laws)

sale_run : record_sell exact (some 1) 9 aapl 12 (pos 120) 60 two_lots ≡ ok after_sale
unfolding record_sell total_quantity open_lots sorted same_text close_lots close_lot update_where
    scale ◌-ℤ◌
sale_run = refl

record_sell-Booked_example :
    Booked exact
      (some 1)
      9
      aapl
      (pos 120)
      60
      0
      exact_near
      12
      (0 * length (open_lots (some 1) aapl two_lots.rows))
      two_lots
      after_sale
record_sell-Booked_example =
    record_sell-Booked exact (some 1) 9 aapl (pos 120) 60 0 exact_near 12 two_lots two_lots-IsLedger
      sale_run
