-- ===== src/Ledger/Profit.antt =====
-- The accounting of a sale by the trade recorders (app/agent/runner.py, app/agent/backtest.py): booked profit
-- against proceeds and cost, with the rounding of the column.
use native.Mathlib.Decide.{dec_le}
use paper_trading_agent.Base.{
  ok_injective, ℕ, zero, suc, ◌+◌, ◌-◌, ◌*◌, ◌≤◌, ◌<◌, min, ◌≡◌, ap, sym, ◌∙◌, subst, inl, inr,
  Option, some, List, [], ◌∷◌, ltb, Bool-cases, ℤ, pos, ◌+ℤ◌, ◌≤ℤ◌, scale, scale-zero, scale-add,
  scale-sub, int_laws, same_parts, ok, select, length, arith,
}
use paper_trading_agent.State.{Symbol}
use paper_trading_agent.Outcomes.{Row, Outcomes, is_open_lot, open_lots, total_quantity}
use paper_trading_agent.Ledger.{close_lots, record_sell}
use paper_trading_agent.Ledger.Fifo.{IsLedger, open_lots-eq}
use paper_trading_agent.Ledger.Step.{realized, Round, close_lot-Round}
use paper_trading_agent.Ledger.Sale.{
  whole_left, part_left, close_lots_done, close_lots_ended, close_lots_step, IsLedger-whole,
}

-- What the shares of some lots cost.
unfoldable pub cost : List Row → ℤ
cost [] = pos 0
cost (r ∷ rs) = scale r.entry_price r.quantity +ℤ cost rs

module _ (store : ℤ → Option ℤ) (book : Option ℕ) (decision : ℕ) (symbol : Symbol) (price : ℤ)
    (as_of : ℕ) (half : ℕ)
    (near : (x y : ℤ) → store x ≡ some y → (x ≤ℤ y +ℤ pos half) × (y ≤ℤ x +ℤ pos half)) where
  abbrev open_cost : Outcomes → ℤ
  open_cost t = cost (select (is_open_lot book symbol) t.rows)

  -- The profit booked for `q` shares against their price less their cost, within `slack`.
  pub record Booked (q slack : ℕ) (t t' : Outcomes) : Type 0 where
    pub low :
        realized book symbol t.rows +ℤ scale price q +ℤ open_cost t'
        ≤ℤ realized book symbol t'.rows +ℤ open_cost t +ℤ pos slack
    pub high :
        realized book symbol t'.rows +ℤ open_cost t
        ≤ℤ realized book symbol t.rows +ℤ scale price q +ℤ open_cost t' +ℤ pos slack

  Booked-trans :
      (q r s s' : ℕ) (t m t' : Outcomes)
      → Booked q s t m
      → Booked r s' m t'
      → Booked (q + r) (s + s') t t'
  Booked-trans q r s s' t m t' a b =
      let split = same_parts (scale-add price q r) in
      record {
        low = omega (int_laws, a.low, b.low, split);
        high = omega (int_laws, a.high, b.high, split);
      }

  Booked-nothing : (s : ℕ) (t : Outcomes) → Booked 0 s t t
  Booked-nothing s t =
      let none_sold = same_parts (scale-zero price) in
      record { low = omega (int_laws, none_sold); high = omega (int_laws, none_sold) }

  Booked-ended :
      (q s : ℕ) (lots : List Row) (m t' : Outcomes)
      → q ≡ 0
      → close_lots store book decision symbol price as_of q lots m ≡ ok t'
      → Booked q s m t'
  Booked-ended q s lots m t' z e =
      subst (λ x. Booked q s m x)
        (close_lots_ended store book decision symbol price as_of q lots m t' z e)
        (subst (λ k. Booked k s m m) (sym z) (Booked-nothing s m))

  Booked-whole :
      (lot : Row) (lots : List Row) (q : ℕ) (t m : Outcomes)
      → lot.quantity ≤ q
      → select (is_open_lot book symbol) t.rows ≡ lot ∷ lots
      → Round store book decision symbol price as_of lot lots (min q lot.quantity) t m
      → Booked (min q lot.quantity) half t m
  unfolding cost
  Booked-whole lot lots q t m h at round =
      let bound = near _ _ round.gain_stored in
      let left = same_parts (ap cost (whole_left q lot lots m h round.left)) in
      let before = same_parts (ap cost at) in
      let gained = same_parts round.gained in
      let n : lot.quantity ≡ min q lot.quantity = omega arith in
      let paid = same_parts (ap (scale lot.entry_price) n) in
      let profit = same_parts (scale-sub price lot.entry_price (min q lot.quantity)) in
      record {
        low = omega (int_laws, bound.0, bound.1, left, before, gained, paid, profit);
        high = omega (int_laws, bound.0, bound.1, left, before, gained, paid, profit);
      }

  Booked-part :
      (lot : Row) (lots : List Row) (q : ℕ) (t m : Outcomes)
      → q < lot.quantity
      → select (is_open_lot book symbol) t.rows ≡ lot ∷ lots
      → Round store book decision symbol price as_of lot lots (min q lot.quantity) t m
      → Booked (min q lot.quantity) half t m
  unfolding cost
  Booked-part lot lots q t m h at round =
      let bound = near _ _ round.gain_stored in
      let left = same_parts (ap cost (part_left q lot lots m h round.left)) in
      let before = same_parts (ap cost at) in
      let gained = same_parts round.gained in
      let n : lot.quantity ≡ min q lot.quantity + (lot.quantity - q) = omega arith in
      let paid = same_parts (
        ap (scale lot.entry_price) n
        ∙ scale-add lot.entry_price (min q lot.quantity) (lot.quantity - q)) in
      let profit = same_parts (scale-sub price lot.entry_price (min q lot.quantity)) in
      record {
        low = omega (int_laws, bound.0, bound.1, left, before, gained, paid, profit);
        high = omega (int_laws, bound.0, bound.1, left, before, gained, paid, profit);
      }

  close_lots-Booked :
      (q : ℕ) (lots : List Row) (t : Outcomes) {t' : Outcomes}
      → IsLedger book symbol t
      → select (is_open_lot book symbol) t.rows ≡ lots
      → q ≤ total_quantity lots
      → close_lots store book decision symbol price as_of q lots t ≡ ok t'
      → Booked q (half * length lots) t t'
  unfolding total_quantity
  close_lots-Booked zero lots t w at h e =
      subst (λ x. Booked 0 (half * length lots) t x)
        (ok_injective (sym (close_lots_done store book decision symbol price as_of lots t) ∙ e))
        (Booked-nothing (half * length lots) t)
  close_lots-Booked (suc q) [] t w at h e = absurd (omega arith)
  close_lots-Booked (suc q) (lot ∷ lots) t {t'} w at h e =
      let (m, e₁, e₂) =
        close_lots_step store book decision symbol price as_of (suc q) lot lots t (omega arith) e in
      let round =
        close_lot-Round store book decision symbol price as_of lot lots (suc q) t w.ids at e₁ in
      let n = min (suc q) lot.quantity in
      let spent : half + half * length lots ≡ half * length (lot ∷ lots) = omega arith in
      let count : n + (suc q - n) ≡ suc q = omega arith in
      subst (λ k. Booked k (half * length (lot ∷ lots)) t t') count
        (subst (λ s. Booked (n + (suc q - n)) s t t') spent
          (elim (dec_le lot.quantity (suc q)) [
            | yes all ↦
                Booked-trans n (suc q - n) half (half * length lots) t m t'
                  (Booked-whole lot lots (suc q) t m all at round)
                  (close_lots-Booked (suc q - n) lots m
                    (IsLedger-whole store book decision symbol price as_of (suc q) lot lots t m all
                      w at round)
                    (whole_left (suc q) lot lots m all round.left) (omega arith) e₂)
            | no some_left ↦
                Booked-trans n (suc q - n) half (half * length lots) t m t'
                  (Booked-part lot lots (suc q) t m (omega arith) at round)
                  (Booked-ended (suc q - n) (half * length lots) lots m t' (omega arith) e₂)
          ]))

  -- A sale of `q` shares books, as realized profit of the portfolio's symbol, the price of `q` shares
  -- less what the lots lost in cost, to within `half` for each open lot there was: for a well-formed
  -- portfolio, and a column that stores an amount to within `half`.
  pub record_sell-Booked :
      (q : ℕ) (t : Outcomes) {t' : Outcomes}
      → IsLedger book symbol t
      → record_sell store book decision symbol q price as_of t ≡ ok t'
      → Booked q (half * length (open_lots book symbol t.rows)) t t'
  unfolding record_sell
  record_sell-Booked q t w e =
      let lots-eq = open_lots-eq book symbol t w in
      elim (Bool-cases (ltb (total_quantity (open_lots book symbol t.rows)) q)) [
        | inl short ↦ absurd (ground arith)
        | inr enough ↦
            close_lots-Booked q (open_lots book symbol t.rows) t w (sym lots-eq) (ground arith)
              (rw enough at e)
      ]
