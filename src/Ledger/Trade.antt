-- ===== src/Ledger/Trade.antt =====
-- Every trade: what record_trade does to the shares of a portfolio, and when it raises.
use native.Mathlib.Nat.{le_refl}
use paper_trading_agent.Base.{
  ℕ, suc, ◌-◌, ◌≤◌, min, ◌≡◌, ◌≢◌, ◌↔◌, refl, ap, sym, ◌∙◌, subst, inl, inr, true, false, ◌&&◌,
  Option, none, some, List, [], ◌∷◌, ◌++◌, Option-cases, ℤ, pos, pos_part, ◌≤ℤ◌, ◌<ℤ◌, ◌⊎◌, ◌-ℤ◌,
  scale, same_text, same_text_refl, Result-cases, ok, err, select, select-append, All, All-append,
  All-select, replicate, arith,
}
use mathlib.Core.List.{append-nil, append_assoc}
use paper_trading_agent.Numbers.Sorting.{IsSorted, IsSorted-append_one}
use paper_trading_agent.State.{Symbol, Action, buy, sell, hold}
use paper_trading_agent.Outcomes.{
  Row, Outcomes, same_book, is_open_lot, opened_earlier, open_lots, total_quantity, insert_row,
}
use paper_trading_agent.Outcomes.Updates.{OpenedBy, IdsRise-append}
use paper_trading_agent.Ledger.{
  oversold, out_of_range, open_row, close_lot, close_lots, record_buy, record_sell, record_trade,
}
use paper_trading_agent.Ledger.Fifo.{Share, shares, IsLedger}
use paper_trading_agent.Ledger.Step.{same_book_refl, select_unsold, other_owner}
use paper_trading_agent.Ledger.Sale.{Sold, record_sell-Sold}

module _ (store : ℤ → Option ℤ) (book : Option ℕ) (decision : ℕ) (symbol : Symbol) (price : ℤ)
    (as_of : ℕ) where
  -- What a purchase of `q` shares has done to a table.
  pub record Bought (q : ℕ) (t t' : Outcomes) : Type 0 where
    pub entry : ℤ
    pub entry_stored : store price ≡ some entry
    pub shares_added :
        shares (select (is_open_lot book symbol) t'.rows)
        ≡ shares (select (is_open_lot book symbol) t.rows) ++ replicate q (entry, as_of)
    pub ledger : IsLedger book symbol t'
    pub no_later : OpenedBy as_of t'.rows
    pub others :
        (book' : Option ℕ) (symbol' : Symbol)
        → (same_book book book' && same_text symbol symbol') ≡ false
        → select (is_open_lot book' symbol') t'.rows ≡ select (is_open_lot book' symbol') t.rows

  fresh_selected :
      (rows : List Row) (r : Row)
      → is_open_lot book symbol r ≡ true
      → select (is_open_lot book symbol) (rows ++ r ∷ [])
        ≡ select (is_open_lot book symbol) rows ++ r ∷ []
  fresh_selected rows r h = select-append (is_open_lot book symbol) rows (r ∷ []) ∙ rw h refl

  shares-append_one :
      (rs : List Row) (r : Row)
      → shares (rs ++ r ∷ []) ≡ shares rs ++ replicate r.quantity (r.entry_price, r.opened_at)
  unfolding shares
  shares-append_one [] r = append-nil _
  shares-append_one (x ∷ xs) r =
      let first : List Share = replicate x.quantity (x.entry_price, x.opened_at) in
      ap (λ ys. first ++ ys) (shares-append_one xs r) ∙ sym (append_assoc first (shares xs) _)

  All-opened :
      (rs : List Row) (r : Row)
      → r.opened_at ≡ as_of
      → All (λ (x : Row). x.opened_at ≤ as_of) rs
      → All (λ x. opened_earlier x r ≡ true) rs
  All-opened [] r e h = tt
  All-opened (x ∷ xs) r e (h, hs) = (ground arith, All-opened xs r e hs)

  pub record_buy-Bought :
      (q : ℕ) (t : Outcomes) {t' : Outcomes}
      → IsLedger book symbol t
      → OpenedBy as_of t.rows
      → record_buy store book decision symbol q price as_of t ≡ ok t'
      → Bought q t t'
  unfolding record_buy
  record_buy-Bought q t {t'} w past e = elim (Option-cases (store price)) [
    | inl too_large ↦ absurd (ground arith)
    | inr (entry, stored) ↦
        (let fresh = open_row book decision symbol q entry as_of t.next_id in
          let passes : is_open_lot book symbol fresh ≡ true =
            ground (arith, same_book_refl book, same_text_refl symbol) in
          let now = fresh_selected t.rows fresh passes in
          let done : insert_row (open_row book decision symbol q entry as_of) t ≡ t' =
            ground arith in
          subst (λ x. Bought q t x) done
            (record {
              entry = entry;
              entry_stored = stored;
              shares_added = ap shares now ∙ shares-append_one _ fresh;
              ledger = record {
                ids = IdsRise-append 0 t.next_id t.rows fresh refl w.ids;
                in_order = subst (IsSorted opened_earlier) (sym now) (
                    IsSorted-append_one opened_earlier _ fresh w.in_order (
                      All-opened _ fresh refl
                        (All-select _ (is_open_lot book symbol) t.rows past)));
              };
              no_later = All-append _ t.rows (fresh ∷ []) past (le_refl as_of, tt);
              others = λ book' symbol' d.
                  select_unsold (is_open_lot book' symbol') t.rows fresh
                    (other_owner book book' symbol symbol' fresh refl refl d);
            }))
  ]

  -- A trade of no shares, or a HOLD, leaves the table as it is.
  pub record_trade_nothing :
      (action : Action) (quantity : ℤ) (t : Outcomes)
      → (action ≡ hold) ⊎ (quantity ≤ℤ pos 0)
      → record_trade store book decision symbol action quantity price as_of t ≡ ok t
  unfolding record_trade
  record_trade_nothing action quantity t h = ground arith

  record_trade-buy_eq :
      (q : ℕ) (t : Outcomes)
      → record_trade store book decision symbol buy (pos (suc q)) price as_of t
        ≡ record_buy store book decision symbol (suc q) price as_of t
  unfolding record_trade
  record_trade-buy_eq q t = ground arith

  record_trade-sell_eq :
      (q : ℕ) (t : Outcomes)
      → record_trade store book decision symbol sell (pos (suc q)) price as_of t
        ≡ record_sell store book decision symbol (suc q) price as_of t
  unfolding record_trade
  record_trade-sell_eq q t = ground arith

  -- To a well-formed portfolio, a purchase that is recorded adds its shares behind those held, at the stored price and the time of
  -- the trade; the portfolio stays well-formed, and no other portfolio or symbol changes. The table's
  -- rows must have been opened by then.
  pub record_trade_buy :
      (q : ℕ) (t : Outcomes) {t' : Outcomes}
      → IsLedger book symbol t
      → OpenedBy as_of t.rows
      → record_trade store book decision symbol buy (pos (suc q)) price as_of t ≡ ok t'
      → Bought (suc q) t t'
  record_trade_buy q t w past e =
      record_buy-Bought (suc q) t w past (sym (record_trade-buy_eq q t) ∙ e)

  -- From a well-formed portfolio, a sale that is recorded takes the oldest shares away, in the order of their purchase, splitting the
  -- lot that it ends in; the portfolio stays well-formed, and no other portfolio or symbol changes.
  pub record_trade_sell :
      (q : ℕ) (t : Outcomes) {t' : Outcomes}
      → IsLedger book symbol t
      → record_trade store book decision symbol sell (pos (suc q)) price as_of t ≡ ok t'
      → Sold store book decision symbol price as_of (suc q) t t'
  record_trade_sell q t w e =
      record_sell-Sold store book decision symbol price as_of (suc q) t w
        (sym (record_trade-sell_eq q t) ∙ e)

  close_lot-ne-oversold :
      (lot : Row) (n : ℕ) (t : Outcomes)
      → close_lot store book decision symbol price as_of lot n t ≢ err oversold
  unfolding close_lot
  close_lot-ne-oversold lot n t = ground arith

  close_lots-ne-oversold :
      (remaining : ℕ) (lots : List Row) (t : Outcomes)
      → close_lots store book decision symbol price as_of remaining lots t ≢ err oversold
  unfolding close_lots
  close_lots-ne-oversold remaining [] t e = cc
  close_lots-ne-oversold remaining (lot ∷ lots) t e =
      let n = min remaining lot.quantity in
      elim (Result-cases (close_lot store book decision symbol price as_of lot n t)) [
        | inl (m, done) ↦ ground (arith, close_lots-ne-oversold (remaining - n) lots m)
        | inr (raised, failed) ↦ ground (arith, close_lot-ne-oversold lot n t)
      ]

  -- The ValueError is raised for a sale of more shares than the portfolio's open lots hold, and for no
  -- other trade.
  pub record_trade_oversold :
      (action : Action) (quantity : ℤ) (t : Outcomes)
      → (record_trade store book decision symbol action quantity price as_of t ≡ err oversold)
        ↔ ((action ≡ sell) × (pos (total_quantity (open_lots book symbol t.rows)) <ℤ quantity))
  unfolding record_trade record_sell record_buy
  record_trade_oversold buy quantity t = ground arith
  record_trade_oversold hold quantity t = ground arith
  record_trade_oversold sell quantity t =
      let lots = open_lots book symbol t.rows in
      ground (arith, close_lots-ne-oversold (pos_part quantity) lots t)

  -- The column takes the amounts that the sale of a lot, or of a part of it, writes: its entry price and
  -- the profit.
  abbrev pub LotFits : Row → Type 0
  LotFits lot =
      (store lot.entry_price ≢ none)
      × ((n : ℕ) → n ≤ lot.quantity → store (scale (price -ℤ lot.entry_price) n) ≢ none)

  pub open_lots-LotFits : ((x : ℤ) → store x ≢ none) → (lots : List Row) → All LotFits lots
  open_lots-LotFits fits [] = tt
  open_lots-LotFits fits (lot ∷ lots) = (
    (fits lot.entry_price, λ n h. fits (scale (price -ℤ lot.entry_price) n)),
    open_lots-LotFits fits lots,
  )

  module _ (price_fits : store price ≢ none) where
    close_lot-ne-range :
        (lot : Row) (n : ℕ) (t : Outcomes)
        → n ≤ lot.quantity
        → LotFits lot
        → close_lot store book decision symbol price as_of lot n t ≢ err out_of_range
    unfolding close_lot
    close_lot-ne-range lot n t part (entry_fits, profit_fits) =
        ground (arith, price_fits, entry_fits, profit_fits n part)

    close_lots-ne-range :
        (remaining : ℕ) (lots : List Row) (t : Outcomes)
        → All LotFits lots
        → close_lots store book decision symbol price as_of remaining lots t ≢ err out_of_range
    unfolding close_lots
    close_lots-ne-range remaining [] t h e = cc
    close_lots-ne-range remaining (lot ∷ lots) t (h, hs) e =
        let n = min remaining lot.quantity in
        elim (Result-cases (close_lot store book decision symbol price as_of lot n t)) [
          | inl (m, done) ↦ ground (arith, close_lots-ne-range (remaining - n) lots m hs)
          | inr (raised, failed) ↦
              (let whole : n ≤ lot.quantity = omega arith in
                ground (arith, close_lot-ne-range lot n t whole h))
        ]

    record_trade-ne-range :
        (action : Action) (quantity : ℤ) (t : Outcomes)
        → All LotFits (open_lots book symbol t.rows)
        → record_trade store book decision symbol action quantity price as_of t ≢ err out_of_range
    unfolding record_trade record_sell record_buy
    record_trade-ne-range action quantity t h =
        let lots = open_lots book symbol t.rows in
        ground (arith, price_fits, close_lots-ne-range (pos_part quantity) lots t h)

    -- Where the column takes the price and the amounts of the open lots, every trade but a sale of more
    -- than is held is recorded.
    pub record_trade_succeeds :
        (action : Action) (quantity : ℤ) (t : Outcomes)
        → All LotFits (open_lots book symbol t.rows)
        → (action ≢ sell) ⊎ (quantity ≤ℤ pos (total_quantity (open_lots book symbol t.rows)))
        → (t' : Outcomes) × (record_trade store book decision symbol action quantity price as_of t
            ≡ ok t')
    record_trade_succeeds action quantity t lots_fit enough =
        elim (Result-cases
          (record_trade store book decision symbol action quantity price as_of t)) [
            | inl done ↦ done
            | inr (oversold, e) ↦
                absurd (ground (arith, (record_trade_oversold action quantity t).0 e))
            | inr (out_of_range, e) ↦ absurd (record_trade-ne-range action quantity t lots_fit e)
          ]
