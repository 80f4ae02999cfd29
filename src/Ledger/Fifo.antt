-- ===== src/Ledger/Fifo.antt =====
-- First in, first out: the specification of a sale, share by share, and the loop of the trade recorders
-- against it.
use paper_trading_agent.Base.{
  ℕ, zero, suc, ◌-◌, ◌≤◌, ◌≡◌, refl, ap, sym, ◌∙◌, false, Option, List, [], ◌∷◌, ◌++◌, ℤ, length,
  drop, replicate, drop-append, length-append, length-replicate, select, arith,
}
use paper_trading_agent.Numbers.Sorting.{IsSorted, sorted_of_IsSorted}
use paper_trading_agent.State.{Symbol}
use paper_trading_agent.Outcomes.{
  Row, Outcomes, is_open_lot, opened_earlier, open_lots, total_quantity,
}
use paper_trading_agent.Outcomes.Updates.{IdsRise}
use paper_trading_agent.Ledger.{close_row, shrink_row}

-- One share: what it cost and when it was bought.
abbrev pub Share : Type 0
Share = ℤ × ℕ

-- The shares of some lots, one by one, in the order of the lots.
unfoldable pub shares : List Row → List Share
shares [] = []
shares (r ∷ rs) = replicate r.quantity (r.entry_price, r.opened_at) ++ shares rs

pub length-shares : (rs : List Row) → length (shares rs) ≡ total_quantity rs
unfolding shares total_quantity
length-shares [] = refl
length-shares (r ∷ rs) =
    let share : Share = (r.entry_price, r.opened_at) in
    omega (
      arith,
      length-append (replicate r.quantity share) (shares rs),
      length-replicate r.quantity share,
      length-shares rs,
    )

drop-replicate : {A : Type 0} (n m : ℕ) (a : A) → drop n (replicate m a) ≡ replicate (m - n) a
drop-replicate zero m a = let e : m - 0 ≡ m = omega arith in rw e
drop-replicate (suc n) zero a = let e : 0 - suc n ≡ 0 = omega arith in rw e
drop-replicate (suc n) (suc m) a =
    let e : suc m - suc n ≡ m - n = omega arith in rw e (drop-replicate n m a)

pub drop-lot :
    {A : Type 0} (n m : ℕ) (a : A) (ys : List A)
    → drop n (replicate m a ++ ys) ≡ replicate (m - n) a ++ drop (n - m) ys
drop-lot n m a ys =
    drop-append n (replicate m a) ys
    ∙ ap (λ k. drop n (replicate m a) ++ drop (n - k) ys) (length-replicate m a)
    ∙ ap (λ xs. xs ++ drop (n - m) ys) (drop-replicate n m a)

-- What the table must satisfy for a portfolio's lots of one symbol: the ids are those of a sequence,
-- and the open lots stand in the order in which they were opened.
pub record IsLedger (book : Option ℕ) (symbol : Symbol) (t : Outcomes) : Type 0 where
  pub ids : IdsRise 0 t.next_id t.rows
  pub in_order : IsSorted opened_earlier (select (is_open_lot book symbol) t.rows)

-- The open lots of a well-formed table, as the query returns them.
pub open_lots-eq :
    (book : Option ℕ) (symbol : Symbol) (t : Outcomes)
    → IsLedger book symbol t
    → open_lots book symbol t.rows ≡ select (is_open_lot book symbol) t.rows
unfolding open_lots
open_lots-eq book symbol t w = sorted_of_IsSorted opened_earlier _ w.in_order

pub closed_not_selected :
    (book : Option ℕ) (symbol : Symbol) (exit : ℤ) (as_of : ℕ) (gain : ℤ) (r : Row)
    → is_open_lot book symbol (close_row exit as_of gain r) ≡ false
closed_not_selected book symbol exit as_of gain r = ground arith

pub shares-drop_lot :
    (q : ℕ) (l : Row) (ls : List Row)
    → l.quantity ≤ q
    → drop q (shares (l ∷ ls)) ≡ drop (q - l.quantity) (shares ls)
unfolding shares
shares-drop_lot q l ls h =
    let e : l.quantity - q ≡ 0 = omega arith in
    drop-lot q l.quantity (l.entry_price, l.opened_at) (shares ls) ∙ rw e refl

pub shares-shrink :
    (q : ℕ) (l : Row) (ls : List Row)
    → q ≤ l.quantity
    → shares (shrink_row q l ∷ ls) ≡ drop q (shares (l ∷ ls))
unfolding shares
shares-shrink q l ls h =
    let e : q - l.quantity ≡ 0 = omega arith in
    sym (drop-lot q l.quantity (l.entry_price, l.opened_at) (shares ls) ∙ rw e refl)
