-- ===== src/Ledger/Sale.antt =====
-- A sale by the trade recorders, from its first lot to its last, against the share-by-share
-- specification.
use paper_trading_agent.Base.{
  ok_injective, ℕ, zero, suc, ◌-◌, ◌≤◌, ◌<◌, min, ◌≡◌, refl, ap, sym, ◌∙◌, subst, inl, inr, true,
  false, ◌&&◌, Option, List, [], ◌∷◌, ◌==◌, ltb, if◌then◌else◌, Bool-cases, ℤ, same_text, ok,
  >>=-eq-ok, select, drop, arith,
}
use native.Mathlib.Decide.{dec_le}
use paper_trading_agent.Numbers.Sorting.{IsSorted}
use paper_trading_agent.State.{Symbol}
use paper_trading_agent.Outcomes.{
  Row, Outcomes, same_book, is_open_lot, opened_earlier, open_lots, total_quantity,
}
use paper_trading_agent.Outcomes.Updates.{IdsRise, OpenedBy}
use paper_trading_agent.Ledger.{shrink_row, close_lot, close_lots, record_sell}
use paper_trading_agent.Ledger.Fifo.{shares, IsLedger, open_lots-eq, shares-drop_lot, shares-shrink}
use paper_trading_agent.Ledger.Step.{Round, close_lot-Round}

-- The lots that a round leaves, by whether it used up its lot.
pub whole_left :
    (q : ℕ) (lot : Row) (lots : List Row) (m : Outcomes) {left : List Row}
    → lot.quantity ≤ q
    → left ≡ (
        if min q lot.quantity == lot.quantity
        then lots
        else shrink_row (min q lot.quantity) lot ∷ lots)
    → left ≡ lots
whole_left q lot lots m h e =
    let same : (min q lot.quantity == lot.quantity) ≡ true = ground arith in e ∙ rw same refl

pub part_left :
    (q : ℕ) (lot : Row) (lots : List Row) (m : Outcomes) {left : List Row}
    → q < lot.quantity
    → left ≡ (
        if min q lot.quantity == lot.quantity
        then lots
        else shrink_row (min q lot.quantity) lot ∷ lots)
    → left ≡ shrink_row q lot ∷ lots
part_left q lot lots m h e =
    let differ : (min q lot.quantity == lot.quantity) ≡ false = ground arith in
    let all : min q lot.quantity ≡ q = omega arith in e ∙ rw differ (rw all refl)

module _ (store : ℤ → Option ℤ) (book : Option ℕ) (decision : ℕ) (symbol : Symbol) (price : ℤ)
    (as_of : ℕ) where
  abbrev mine : Outcomes → List Row
  mine t = select (is_open_lot book symbol) t.rows

  -- What a sale of `q` shares has done to a table.
  pub record Sold (q : ℕ) (t t' : Outcomes) : Type 0 where
    pub shares_left : shares (mine t') ≡ drop q (shares (mine t))
    pub ids : IdsRise 0 t'.next_id t'.rows
    pub in_order : IsSorted opened_earlier (mine t')
    pub no_later : (time : ℕ) → OpenedBy time t.rows → OpenedBy time t'.rows
    pub others :
        (book' : Option ℕ) (symbol' : Symbol)
        → (same_book book book' && same_text symbol symbol') ≡ false
        → select (is_open_lot book' symbol') t'.rows ≡ select (is_open_lot book' symbol') t.rows

  Sold-nothing : (t : Outcomes) → IsLedger book symbol t → Sold 0 t t
  Sold-nothing t w = record {
    shares_left = refl;
    ids = w.ids;
    in_order = w.in_order;
    no_later = λ time past. past;
    others = λ b s d. refl;
  }

  -- Nothing is left to sell.
  pub close_lots_done :
      (lots : List Row) (t : Outcomes)
      → close_lots store book decision symbol price as_of 0 lots t ≡ ok t
  unfolding close_lots
  close_lots_done [] t = refl
  close_lots_done (l ∷ ls) t = refl

  pub close_lots_ended :
      (remaining : ℕ) (lots : List Row) (t t' : Outcomes)
      → remaining ≡ 0
      → close_lots store book decision symbol price as_of remaining lots t ≡ ok t'
      → t ≡ t'
  close_lots_ended remaining lots t t' none_left e = ok_injective (
      sym (close_lots_done lots t)
      ∙ subst (λ k. close_lots store book decision symbol price as_of k lots t ≡ ok t') none_left e)

  -- The loop from an open lot on: one round, and the rest of the loop.
  pub close_lots_step :
      (remaining : ℕ) (lot : Row) (lots : List Row) (t : Outcomes) {t' : Outcomes}
      → 0 < remaining
      → close_lots store book decision symbol price as_of remaining (lot ∷ lots) t ≡ ok t'
      → (m : Outcomes) × (close_lot store book decision symbol price as_of lot
            (min remaining lot.quantity)
            t
          ≡ ok m)
        × (close_lots store book decision symbol price as_of
              (remaining - min remaining lot.quantity)
              lots
              m
            ≡ ok t')
  unfolding close_lots
  close_lots_step remaining lot lots t h e =
      let more : (remaining == 0) ≡ false = ground arith in
      >>=-eq-ok
        (close_lot store book decision symbol price as_of lot (min remaining lot.quantity) t) _
        (rw more at e)

  -- One round that used up its lot, and the sale that follows it.
  Sold-whole :
      (q : ℕ) (lot : Row) (lots : List Row) (t m : Outcomes) {t' : Outcomes}
      → lot.quantity ≤ q
      → mine t ≡ lot ∷ lots
      → Round store book decision symbol price as_of lot lots (min q lot.quantity) t m
      → Sold (q - min q lot.quantity) m t'
      → Sold q t t'
  Sold-whole q lot lots t m h at round rest =
      let n : min q lot.quantity ≡ lot.quantity = omega arith in
      record {
        shares_left =
            rest.shares_left
            ∙ ap (λ rs. drop (q - min q lot.quantity) (shares rs))
                (whole_left q lot lots m h round.left)
            ∙ ap (λ k. drop (q - k) (shares lots)) n
            ∙ sym (shares-drop_lot q lot lots h)
            ∙ ap (λ rs. drop q (shares rs)) (sym at);
        ids = rest.ids;
        in_order = rest.in_order;
        no_later = λ time past. rest.no_later time (round.no_later time past);
        others = λ b s d. rest.others b s d ∙ round.others b s d;
      }

  Sold-part :
      (q : ℕ) (lot : Row) (lots : List Row) (t m : Outcomes)
      → q < lot.quantity
      → IsLedger book symbol t
      → mine t ≡ lot ∷ lots
      → Round store book decision symbol price as_of lot lots (min q lot.quantity) t m
      → Sold q t m
  Sold-part q lot lots t m h w at round =
      let left = part_left q lot lots m h round.left in
      record {
        shares_left =
            ap shares left
            ∙ shares-shrink q lot lots (omega arith)
            ∙ ap (λ rs. drop q (shares rs)) (sym at);
        ids = round.ids;
        in_order =
            subst (IsSorted opened_earlier) (sym left)
              (subst (IsSorted opened_earlier) at w.in_order);
        no_later = round.no_later;
        others = round.others;
      }

  pub IsLedger-whole :
      (q : ℕ) (lot : Row) (lots : List Row) (t m : Outcomes)
      → lot.quantity ≤ q
      → IsLedger book symbol t
      → mine t ≡ lot ∷ lots
      → Round store book decision symbol price as_of lot lots (min q lot.quantity) t m
      → IsLedger book symbol m
  IsLedger-whole q lot lots t m h w at round =
      let order : IsSorted opened_earlier (lot ∷ lots) =
        subst (IsSorted opened_earlier) at w.in_order in
      record {
        ids = round.ids;
        in_order =
            subst (IsSorted opened_earlier) (sym (whole_left q lot lots m h round.left)) order.1;
      }

  -- The loop sells the oldest shares, for lots that hold enough of them.
  pub close_lots-Sold :
      (q : ℕ) (lots : List Row) (t : Outcomes) {t' : Outcomes}
      → IsLedger book symbol t
      → mine t ≡ lots
      → q ≤ total_quantity lots
      → close_lots store book decision symbol price as_of q lots t ≡ ok t'
      → Sold q t t'
  unfolding total_quantity
  close_lots-Sold zero lots t w at h e =
      subst (λ x. Sold 0 t x) (ok_injective (sym (close_lots_done lots t) ∙ e)) (Sold-nothing t w)
  close_lots-Sold (suc q) [] t w at h e = absurd (omega arith)
  close_lots-Sold (suc q) (lot ∷ lots) t {t'} w at h e =
      let (m, e₁, e₂) = close_lots_step (suc q) lot lots t (omega arith) e in
      let round =
        close_lot-Round store book decision symbol price as_of lot lots (suc q) t w.ids at e₁ in
      elim (dec_le lot.quantity (suc q)) [
        | yes all ↦ Sold-whole (suc q) lot lots t m all at round (
            close_lots-Sold (suc q - min (suc q) lot.quantity) lots m
              (IsLedger-whole (suc q) lot lots t m all w at round)
              (whole_left (suc q) lot lots m all round.left) (omega arith) e₂)
        | no some_left ↦
            subst (λ x. Sold (suc q) t x) (close_lots_ended _ lots m t' (omega arith) e₂)
              (Sold-part (suc q) lot lots t m (omega arith) w at round)
      ]

  -- The sale of a well-formed portfolio: refused exactly when it asks for more than is held, and else
  -- the oldest shares are gone.
  pub record_sell-Sold :
      (q : ℕ) (t : Outcomes) {t' : Outcomes}
      → IsLedger book symbol t
      → record_sell store book decision symbol q price as_of t ≡ ok t'
      → Sold q t t'
  unfolding record_sell
  record_sell-Sold q t w e =
      let lots-eq = open_lots-eq book symbol t w in
      elim (Bool-cases (ltb (total_quantity (open_lots book symbol t.rows)) q)) [
        | inl short ↦ absurd (ground arith)
        | inr enough ↦
            close_lots-Sold q (open_lots book symbol t.rows) t w (sym lots-eq) (ground arith)
              (rw enough at e)
      ]
