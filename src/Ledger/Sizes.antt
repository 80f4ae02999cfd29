-- ===== src/Ledger/Sizes.antt =====
-- The sizes of the amounts that the trade recorders write: entry prices stay within a bound, and with it
-- the amounts of a sale.
use paper_trading_agent.Base.{
  ℕ, ◌+◌, ◌-◌, ◌*◌, ◌≤◌, min, ◌≡◌, ◌≢◌, refl, inl, inr, ◌||◌, ◌==◌, Bool-cases, Option,
  Option-cases, none, some, List, [], ◌∷◌, ◌++◌, ℤ, pos, negsuc, pos_part, neg_part, ◌-ℤ◌, scale,
  leb_ℤ, ltb, Result, OnEnd, OnEnd->>=, All, All-append, arith,
}
use paper_trading_agent.State.{Symbol, Action, is_buy, is_hold}
use paper_trading_agent.Outcomes.{Row, Outcomes, update_where, open_lots, total_quantity}
use paper_trading_agent.Ledger.{
  TradeError, open_row, shrink_row, sold_part, out_of_range, close_lot, close_lots, record_buy,
  record_sell, record_trade,
}

-- The absolute value.
abbrev pub size : ℤ → ℕ
size x = pos_part x + neg_part x

size-sub : (a b : ℤ) → size (a -ℤ b) ≤ size a + size b
unfolding ◌-ℤ◌
size-sub a b = ground arith

size-scale : (a : ℤ) (n : ℕ) → size (scale a n) ≡ size a * n
unfolding scale
size-scale (pos m) n = grind arith
size-scale (negsuc m) n = grind arith

-- The entry prices of the rows are no larger than a bound.
abbrev pub Sized : ℕ → List Row → Type 0
Sized bound rows = All (λ (r : Row). size r.entry_price ≤ bound) rows

Sized-update :
    (bound id : ℕ) (f : Row → Row) (rows : List Row)
    → ((r : Row) → (f r).entry_price ≡ r.entry_price)
    → Sized bound rows
    → Sized bound (update_where id f rows)
unfolding update_where
Sized-update bound id f [] k h = tt
Sized-update bound id f (r ∷ rs) k (h, hs) = elim (Bool-cases (r.id == id)) [
  | inl e ↦ rw e (rw (k r) h, Sized-update bound id f rs k hs)
  | inr e ↦ rw e (h, Sized-update bound id f rs k hs)
]

Sized-insert :
    (bound : ℕ) (rows : List Row) (r : Row)
    → Sized bound rows
    → size r.entry_price ≤ bound
    → Sized bound (rows ++ r ∷ [])
Sized-insert bound rows r h k = All-append _ rows (r ∷ []) h (k, tt)

-- A column whose amounts stay within a bound, and that takes the profit on up to 20 shares between two
-- prices within it.
pub record TakesUpTo (bound : ℕ) (store : ℤ → Option ℤ) : Type 0 where
  pub takes : (x : ℤ) → size x ≤ 40 * bound → store x ≢ none
  pub keeps : (x y : ℤ) → size x ≤ bound → store x ≡ some y → size y ≤ bound

-- A lot of at most 20 shares, at a price within the bound.
abbrev pub IsSmall : ℕ → Row → Type 0
IsSmall bound lot = (size lot.entry_price ≤ bound) × (lot.quantity ≤ 20)

profit-fits :
    (bound n : ℕ) (price entry : ℤ)
    → size price ≤ bound
    → size entry ≤ bound
    → n ≤ 20
    → size (scale (price -ℤ entry) n) ≤ 40 * bound
profit-fits bound n price entry h k few =
    let apart : size (price -ℤ entry) ≤ 2 * bound = omega (arith, size-sub price entry) in
    rw (size-scale (price -ℤ entry) n) (grind arith)

module _ (store : ℤ → Option ℤ) (bound : ℕ) (column : TakesUpTo bound store) where
  abbrev pub NotRange : TradeError → Type 0
  NotRange e = e ≢ out_of_range

  stored-some : (x : ℤ) → size x ≤ 40 * bound → (y : ℤ) × (store x ≡ some y)
  stored-some x h = elim (Option-cases (store x)) [
    | inl e ↦ absurd (column.takes x h e)
    | inr found ↦ found
  ]

  module _ (book : Option ℕ) (decision : ℕ) (symbol : Symbol) (price : ℤ) (as_of : ℕ)
      (small : size price ≤ bound) where
    abbrev SizedEnd : Result TradeError Outcomes → Type 0
    SizedEnd = OnEnd NotRange (λ (t : Outcomes). Sized bound t.rows)

    close_lot-Sized :
        (lot : Row) (n : ℕ) (t : Outcomes)
        → n ≤ lot.quantity
        → IsSmall bound lot
        → Sized bound t.rows
        → SizedEnd (close_lot store book decision symbol price as_of lot n t)
    unfolding close_lot
    close_lot-Sized lot n t part (entry_small, few) h =
        let profit = scale (price -ℤ lot.entry_price) n in
        let (exit, p) = stored-some price (omega arith) in
        let (gain, g) =
          stored-some profit
            (profit-fits bound n price lot.entry_price small entry_small (omega arith)) in
        let (entry, q) = stored-some lot.entry_price (omega arith) in
        elim (Bool-cases (n == lot.quantity)) [
          | inl whole ↦ rw whole (rw p (rw g (Sized-update bound lot.id _ t.rows (λ r. refl) h)))
          | inr some_left ↦ rw some_left (
              rw q (
                rw p (
                  rw g (
                    Sized-insert bound (update_where lot.id (shrink_row n) t.rows)
                      (sold_part book decision symbol lot n entry exit as_of gain t.next_id)
                      (Sized-update bound lot.id (shrink_row n) t.rows (λ r. refl) h)
                      (column.keeps lot.entry_price entry entry_small q)))))
        ]

    close_lots-Sized :
        (remaining : ℕ) (lots : List Row) (t : Outcomes)
        → All (IsSmall bound) lots
        → Sized bound t.rows
        → SizedEnd (close_lots store book decision symbol price as_of remaining lots t)
    unfolding close_lots
    close_lots-Sized remaining [] t smalls h = h
    close_lots-Sized remaining (lot ∷ lots) t (lot_small, smalls) h =
        let n = min remaining lot.quantity in
        elim (Bool-cases (remaining == 0)) [
          | inl done ↦ rw done h
          | inr more ↦ rw more (
              OnEnd->>= NotRange _ _ _ _ (close_lot-Sized lot n t (omega arith) lot_small h)
                λ t' h'. close_lots-Sized (remaining - n) lots t' smalls h')
        ]

    -- A trade at a price within the bound, over small lots, does not raise for an amount that is too
    -- large, and keeps the entry prices within the bound.
    pub record_trade-Sized :
        (action : Action) (quantity : ℤ) (t : Outcomes)
        → All (IsSmall bound) (open_lots book symbol t.rows)
        → Sized bound t.rows
        → OnEnd NotRange
            (λ (t' : Outcomes). Sized bound t'.rows)
            (record_trade store book decision symbol action quantity price as_of t)
    unfolding record_trade record_sell record_buy
    record_trade-Sized action quantity t lots h =
        elim (Bool-cases (is_hold action || leb_ℤ quantity (pos 0))) [
          | inl idle ↦ rw idle h
          | inr trades ↦ rw trades (elim (Bool-cases (is_buy action)) [
            | inl buys ↦
                (let (entry, p) = stored-some price (omega arith) in
                  rw buys (
                    rw p (
                      Sized-insert bound t.rows
                        (open_row book decision symbol (pos_part quantity) entry as_of t.next_id) h
                        (column.keeps price entry small p))))
            | inr sells ↦
                rw sells
                  (elim (Bool-cases
                    (ltb (total_quantity (open_lots book symbol t.rows)) (pos_part quantity))) [
                      | inl short ↦ rw short (λ e. cc)
                      | inr enough ↦ rw enough (
                          close_lots-Sized (pos_part quantity) (open_lots book symbol t.rows) t lots
                            h)
                    ])
          ])
        ]
