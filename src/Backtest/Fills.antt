-- ===== src/Backtest/Fills.antt =====
-- A fill of app/agent/backtest.py, after the risk manager's ruling on what the portfolio holds.
use paper_trading_agent.Base.{
  ℕ, ◌≤◌, ◌≡◌, ◌≢◌, refl, ap, sym, ◌∙◌, subst, ◌⊎◌, inl, inr, Bool, false, Option, none, some, List,
  [], ◌∷◌, Bool-cases, ℤ, pos, ◌+ℤ◌, ◌-ℤ◌, ◌≤ℤ◌, int_laws, eq_ℤ, same_text, upper, select, All,
  All-select, OnEnd, Result, ok, err, ok_injective, arith,
}
use paper_trading_agent.State.{Symbol, Action, buy, sell, hold}
use paper_trading_agent.VarForecasts.{position_after}
use paper_trading_agent.RiskManager.{max_position_qty, Ruling}
use paper_trading_agent.RiskManager.Limits.{InLimit, apply_budget_keeps_limit}
use paper_trading_agent.Outcomes.{Row, Outcomes, is_open_lot, total_quantity}
use paper_trading_agent.Outcomes.Updates.{OpenedBy}
use paper_trading_agent.Ledger.{
  TradeError, oversold, out_of_range, record_trade, record_backtest_trade,
}
use paper_trading_agent.Ledger.Fifo.{open_lots-eq}
use paper_trading_agent.Ledger.Trade.{record_trade_oversold}
use paper_trading_agent.Ledger.Sizes.{size, Sized, IsSmall, TakesUpTo, record_trade-Sized}
use paper_trading_agent.Positions.{list_positions, current_qty, current_qty-list_positions}
use paper_trading_agent.Backtest.{Market, as_of_day, apply_slippage, graph_ruling, fill_trade}
use paper_trading_agent.Backtest.Safety.{held, IsSound, Kept, record_trade-Kept}

-- A symbol in upper case that is not the empty text.
abbrev pub IsTicker : Symbol → Type 0
IsTicker s = (s ≢ []) × (upper s ≡ s)

-- The symbols differ from each other.
abbrev pub Apart : List Symbol → Type 0
Apart [] = Unit
Apart (s ∷ ss) = All (λ s'. same_text s s' ≡ false) ss × Apart ss

-- The days rise, from after `last`, and each is after `last`.
abbrev pub Rising : ℕ → List ℕ → Type 0
Rising last [] = Unit
Rising last (d ∷ ds) = (last ≤ as_of_day d) × Rising (as_of_day d) ds

graph_ruling-InLimit :
    (m : Market) (held : ℕ)
    → pos 0 ≤ℤ m.proposal.quantity
    → held ≤ max_position_qty
    → InLimit (
        position_after
          (pos held)
          (graph_ruling m (pos held)).action
          (graph_ruling m (pos held)).quantity)
unfolding graph_ruling
graph_ruling-InLimit m held h k =
    apply_budget_keeps_limit m.var m.proposal (pos held) h (ground arith)

-- A trade within the limit sells no more than is held.
pub enough_held :
    (h : ℕ) (action : Action) (quantity : ℤ)
    → InLimit (position_after (pos h) action quantity)
    → (action ≢ sell) ⊎ (quantity ≤ℤ pos h)
unfolding position_after ◌+ℤ◌ ◌-ℤ◌
enough_held h buy quantity l = inl (λ e. cc)
enough_held h hold quantity l = inl (λ e. cc)
enough_held h sell quantity l = inr (ground arith)

OpenedBy-later :
    (time later : ℕ) (rows : List Row) → time ≤ later → OpenedBy time rows → OpenedBy later rows
OpenedBy-later time later [] k h = tt
OpenedBy-later time later (r ∷ rs) k (h, hs) = (omega arith, OpenedBy-later time later rs k hs)

pub IsSound-later :
    (book : Option ℕ) (time later : ℕ) (t : Outcomes)
    → time ≤ later
    → IsSound book time t
    → IsSound book later t
IsSound-later book time later t h s = record {
  ledgers = s.ledgers;
  capped = s.capped;
  past = OpenedBy-later time later t.rows h s.past;
}

-- With slippage, the quote stays within the bound, whichever way the trade goes.
abbrev pub IsQuoteWithin : ℕ → ℕ → Option ℕ → Type 0
IsQuoteWithin bps bound price =
    (quote : ℕ) (action : Action)
    → price ≡ some quote
    → size (apply_slippage quote action bps) ≤ bound

module _ (store : ℤ → Option ℤ) (market : Symbol → ℕ → Market) (bps : ℕ) (fill_at_open : Bool)
    (backtest_id : ℕ) where
  abbrev pub portfolio : Option ℕ
  portfolio = some backtest_id

  abbrev pub fill :
      ℕ → ℕ → Symbol → Ruling → Option ℕ → Option ℕ → Outcomes → Result TradeError Outcomes
  fill = fill_trade store market bps fill_at_open backtest_id

  -- A fill changes nothing, or is a trade at the opening or the current price, with slippage.
  fill_trade-cases :
      (day decision : ℕ) (s : Symbol) (r : Ruling) (exec raw : Option ℕ) (t : Outcomes)
      → (fill day decision s r exec raw t ≡ ok t)
        ⊎ ((quote : ℕ) × ((exec ≡ some quote) ⊎ (raw ≡ some quote))
            × (fill day decision s r exec raw t
                ≡ record_trade store portfolio decision s r.action r.quantity
                    (apply_slippage quote r.action bps)
                    (as_of_day day)
                    t))
  unfolding fill_trade record_backtest_trade
  fill_trade-cases day decision s r exec none t = inl refl
  fill_trade-cases day decision s r none (some raw) t =
      elim (Bool-cases (eq_ℤ r.quantity (pos 0))) [
        | inl e ↦ inl (rw e refl)
        | inr e ↦ inr (raw, inr refl, rw e refl)
      ]
  fill_trade-cases day decision s r (some opening) (some raw) t =
      elim (Bool-cases (eq_ℤ r.quantity (pos 0))) [
        | inl e ↦ inl (rw e refl)
        | inr e ↦ inr (opening, inl refl, rw e refl)
      ]

  pub fill_trade-Kept :
      (day decision : ℕ) (s : Symbol) (r : Ruling) (exec raw : Option ℕ) (t : Outcomes)
      {t' : Outcomes}
      → IsSound portfolio (as_of_day day) t
      → InLimit (position_after (pos (held portfolio s t)) r.action r.quantity)
      → fill day decision s r exec raw t ≡ ok t'
      → Kept portfolio s (as_of_day day) t t'
  fill_trade-Kept day decision s r exec raw t {t'} sound l e =
      elim (fill_trade-cases day decision s r exec raw t) [
        | inl same ↦
            (let unchanged : t ≡ t' = ok_injective (sym same ∙ e) in
              subst (λ x. Kept portfolio s (as_of_day day) t x) unchanged
                (record { sound = sound; others = λ s' d. refl }))
        | inr (quote, _, traded) ↦
            record_trade-Kept portfolio store decision (apply_slippage quote r.action bps) s
              (as_of_day day) r.action r.quantity t sound l (sym traded ∙ e)
      ]

  pub fill_trade-ne-oversold :
      (day decision : ℕ) (s : Symbol) (r : Ruling) (exec raw : Option ℕ) (t : Outcomes)
      → IsSound portfolio (as_of_day day) t
      → InLimit (position_after (pos (held portfolio s t)) r.action r.quantity)
      → fill day decision s r exec raw t ≢ err oversold
  fill_trade-ne-oversold day decision s r exec raw t sound l e =
      elim (fill_trade-cases day decision s r exec raw t) [
        | inl same ↦ cc
        | inr (quote, _, traded) ↦
            (let (sells, short) =
                (record_trade_oversold store portfolio decision s
                    (apply_slippage quote r.action bps) (as_of_day day) r.action r.quantity t).0
                  (sym traded ∙ e) in
              elim (enough_held (held portfolio s t) r.action r.quantity l) [
                | inl other ↦ other sells
                | inr enough ↦
                    omega
                      (int_laws, ap total_quantity (open_lots-eq portfolio s t (sound.ledgers s)))
              ])
      ]

  IsSmall-of :
      (bound : ℕ) (lots : List Row)
      → Sized bound lots
      → total_quantity lots ≤ 20
      → All (IsSmall bound) lots
  unfolding total_quantity
  IsSmall-of bound [] h few = tt
  IsSmall-of bound (lot ∷ lots) (h, hs) few =
      ((h, omega arith), IsSmall-of bound lots hs (omega arith))

  -- A fill between prices within the bound raises for no amount that is too large, and keeps the entry
  -- prices within the bound.
  pub fill_trade-Sized :
      (bound : ℕ) (column : TakesUpTo bound store) (day decision : ℕ) (s : Symbol) (r : Ruling)
      (exec raw : Option ℕ) (t : Outcomes)
      → IsQuoteWithin bps bound exec
      → IsQuoteWithin bps bound raw
      → IsSound portfolio (as_of_day day) t
      → Sized bound t.rows
      → OnEnd
          (λ e. e ≢ out_of_range)
          (λ (t' : Outcomes). Sized bound t'.rows)
          (fill day decision s r exec raw t)
  fill_trade-Sized bound column day decision s r exec raw t opens quotes sound h =
      elim (fill_trade-cases day decision s r exec raw t) [
        | inl same ↦ rw same h
        | inr (quote, from, traded) ↦
            (let small : size (apply_slippage quote r.action bps) ≤ bound = elim from [
              | inl e ↦ opens quote r.action e
              | inr e ↦ quotes quote r.action e
            ] in
              let same = open_lots-eq portfolio s t (sound.ledgers s) in
              let lots =
                IsSmall-of bound (select (is_open_lot portfolio s) t.rows)
                  (All-select _ (is_open_lot portfolio s) t.rows h) (sound.capped s) in
              rw traded (
                record_trade-Sized store bound column portfolio decision s
                  (apply_slippage quote r.action bps) (as_of_day day) small r.action r.quantity t
                  (subst (All (IsSmall bound)) (sym same) lots) h))
      ]

  module _ (proposals_nonneg : (s : Symbol) (d : ℕ) → pos 0 ≤ℤ (market s d).proposal.quantity) where
    -- What the risk manager reads for a symbol of the day is what the portfolio holds of it.
    current_qty-held :
        (s : Symbol) (committed : Outcomes)
        → IsTicker s
        → current_qty (list_positions portfolio (some s) committed.rows)
          ≡ held portfolio s committed
    current_qty-held [] committed (named, up) = absurd (named refl)
    current_qty-held (c ∷ s) committed (named, up) =
        current_qty-list_positions portfolio c s committed.rows
        ∙ ap (λ x. held portfolio x committed) up

    abbrev pub Unread : Outcomes → Outcomes → Symbol → Type 0
    Unread committed t s =
        select (is_open_lot portfolio s) t.rows ≡ select (is_open_lot portfolio s) committed.rows

    -- The ruling on a symbol whose lots are as committed.
    pub day_ruling-InLimit :
        (day : ℕ) (committed t : Outcomes) (s : Symbol)
        → IsTicker s
        → IsSound portfolio (as_of_day day) t
        → Unread committed t s
        → let r =
            graph_ruling
              (market s day)
              (pos (current_qty (list_positions portfolio (some s) committed.rows))) in
          InLimit (position_after (pos (held portfolio s t)) r.action r.quantity)
    day_ruling-InLimit day committed t s named sound same =
        let read = current_qty-held s committed named ∙ ap total_quantity (sym same) in
        rw read (
          graph_ruling-InLimit (market s day) (held portfolio s t) (proposals_nonneg s day)
            (sound.capped s))
