-- ===== src/Outcomes.antt =====
-- The tables `outcomes` and `backtest_outcomes` (db/migrations/001_init.sql, 005_backtest_outcomes.sql)
-- with the statements that the trade recorders run on them. A row of `outcomes` has no backtest id.
-- Amounts are whole numbers of a small money unit, times are whole numbers.
pub mod Updates
use paper_trading_agent.Base.{
  ℕ, zero, suc, ◌+◌, ◌-◌, Bool, true, false, ◌&&◌, Option, none, some, List, [], ◌∷◌, ◌++◌, leb,
  ◌==◌, if◌then◌else◌, ℤ, pos, ◌+ℤ◌, same_text, select,
}
use paper_trading_agent.Numbers.Sorting.{sorted}
use paper_trading_agent.State.{Symbol}

pub data Status : Type 0 where
  opened closed : Status

pub record Row : Type 0 where
  pub id : ℕ
  pub backtest_id : Option ℕ
  pub decision_id : ℕ
  pub symbol : Symbol
  pub quantity : ℕ
  pub entry_price : ℤ
  pub opened_at : ℕ
  pub status : Status
  pub exit_price : Option ℤ
  pub closed_at : Option ℕ
  pub realized_pnl : Option ℤ

-- The rows in the order of their insertion, and the next value of the id sequence.
pub record Outcomes : Type 0 where
  pub rows : List Row
  pub next_id : ℕ

abbrev pub same_book : Option ℕ → Option ℕ → Bool
same_book none none = true
same_book none (some b) = false
same_book (some a) none = false
same_book (some a) (some b) = a == b

abbrev pub is_open : Status → Bool
is_open opened = true
is_open closed = false

-- WHERE backtest_id = … AND symbol = … AND status = 'OPEN'
abbrev pub is_open_lot : Option ℕ → Symbol → Row → Bool
is_open_lot book symbol r =
    same_book r.backtest_id book && (same_text r.symbol symbol && is_open r.status)

abbrev pub opened_earlier : Row → Row → Bool
opened_earlier a b = leb a.opened_at b.opened_at

-- SELECT … ORDER BY opened_at ASC; lots of one instant come in the order of insertion.
unfoldable pub open_lots : Option ℕ → Symbol → List Row → List Row
open_lots book symbol rows = sorted opened_earlier (select (is_open_lot book symbol) rows)

-- UPDATE … WHERE id = …
unfoldable pub update_where : ℕ → (Row → Row) → List Row → List Row
update_where id f [] = []
update_where id f (r ∷ rs) = (if r.id == id then f r else r) ∷ update_where id f rs

-- INSERT, which takes the next id.
abbrev pub insert_row : (ℕ → Row) → Outcomes → Outcomes
insert_row row t = record { rows = t.rows ++ row t.next_id ∷ []; next_id = t.next_id + 1 }

unfoldable pub total_quantity : List Row → ℕ
total_quantity [] = 0
total_quantity (r ∷ rs) = r.quantity + total_quantity rs
