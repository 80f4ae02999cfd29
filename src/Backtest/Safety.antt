-- ===== src/Backtest/Safety.antt =====
-- The risk manager (app/agent/risk_manager.py) and the trade recorder (app/agent/backtest.py) together: a
-- portfolio in order, and what one trade does to it.
use paper_trading_agent.Base.{
  ℕ, zero, suc, ◌+◌, ◌-◌, ◌≤◌, ◌≡◌, refl, ap, sym, ◌∙◌, subst, ◌⊎◌, inl, inr, false, Option,
  Bool-cases, ℤ, pos, negsuc, ◌≤ℤ◌, int_laws, same_text, same_text_iff, select, length, length-drop,
  length-append, length-replicate, ok, ok_injective, arith,
}
use paper_trading_agent.Numbers.Sorting.{IsSorted}
use paper_trading_agent.State.{Symbol, Action, buy, sell, hold}
use paper_trading_agent.VarForecasts.{position_after}
use paper_trading_agent.RiskManager.{max_position_qty}
use paper_trading_agent.RiskManager.Limits.{InLimit}
use paper_trading_agent.Outcomes.{Outcomes, is_open_lot, opened_earlier, total_quantity}
use paper_trading_agent.Outcomes.Updates.{OpenedBy}
use paper_trading_agent.Ledger.{record_trade}
use paper_trading_agent.Ledger.Fifo.{Share, shares, length-shares, IsLedger}
use paper_trading_agent.Ledger.Sale.{Sold}
use paper_trading_agent.Ledger.Trade.{
  Bought, record_trade_nothing, record_trade_buy, record_trade_sell,
}

module _ (book : Option ℕ) where
  abbrev pub held : Symbol → Outcomes → ℕ
  held s t = total_quantity (select (is_open_lot book s) t.rows)

  -- A portfolio in order: its lots of each symbol are well-formed and within the limit, and no row was
  -- opened after `time`.
  pub record IsSound (time : ℕ) (t : Outcomes) : Type 0 where
    pub ledgers : (s : Symbol) → IsLedger book s t
    pub capped : (s : Symbol) → held s t ≤ max_position_qty
    pub past : OpenedBy time t.rows

  -- The portfolio's lots are well-formed and no position is beyond the limit.
  abbrev pub IsSafe : Outcomes → Type 0
  IsSafe t = (s : Symbol) → IsLedger book s t × (held s t ≤ max_position_qty)

  -- What a fill of one symbol keeps.
  pub record Kept (s : Symbol) (time : ℕ) (t t' : Outcomes) : Type 0 where
    pub sound : IsSound time t'
    pub others :
        (s' : Symbol)
        → same_text s s' ≡ false
        → select (is_open_lot book s') t'.rows ≡ select (is_open_lot book s') t.rows

  -- A change of one symbol's lots, within the limit, keeps the portfolio in order.
  Kept-of :
      (s : Symbol) (time : ℕ) (t t' : Outcomes)
      → IsSound time t
      → IsLedger book s t'
      → held s t' ≤ max_position_qty
      → OpenedBy time t'.rows
      → ((s' : Symbol)
          → same_text s s' ≡ false
          → select (is_open_lot book s') t'.rows ≡ select (is_open_lot book s') t.rows)
      → Kept s time t t'
  Kept-of s time t t' sound ledger cap past others = record {
    sound = record {
      ledgers = λ s'. elim (Bool-cases (same_text s s')) [
        | inl e ↦ subst (λ x. IsLedger book x t') ((same_text_iff s s').0 e) ledger
        | inr e ↦ record {
          ids = ledger.ids;
          in_order =
              subst (IsSorted opened_earlier) (sym (others s' e)) (sound.ledgers s').in_order;
        }
      ];
      capped = λ s'. elim (Bool-cases (same_text s s')) [
        | inl e ↦ subst (λ x. held x t' ≤ max_position_qty) ((same_text_iff s s').0 e) cap
        | inr e ↦
            subst (λ rs. total_quantity rs ≤ max_position_qty) (sym (others s' e)) (sound.capped s')
      ];
      past = past;
    };
    others = others;
  }

  module _ (store : ℤ → Option ℤ) (decision : ℕ) (price : ℤ) where
    held-Bought :
        (s : Symbol) (time q : ℕ) (t t' : Outcomes)
        → Bought store book decision s price time q t t'
        → held s t' ≡ held s t + q
    held-Bought s time q t t' b = omega (
      arith,
      length-shares (select (is_open_lot book s) t'.rows),
      length-shares (select (is_open_lot book s) t.rows),
      ap length b.shares_added,
      length-append (shares (select (is_open_lot book s) t.rows)) _,
      length-replicate {A = Share} q (b.entry, time),
    )

    held-Sold :
        (s : Symbol) (time q : ℕ) (t t' : Outcomes)
        → Sold store book decision s price time q t t'
        → held s t' ≡ held s t - q
    held-Sold s time q t t' d = omega (
      arith,
      length-shares (select (is_open_lot book s) t'.rows),
      length-shares (select (is_open_lot book s) t.rows),
      ap length d.shares_left,
      length-drop q (shares (select (is_open_lot book s) t.rows)),
    )

    Kept-nothing :
        (s : Symbol) (time : ℕ) (action : Action) (quantity : ℤ) (t : Outcomes) {t' : Outcomes}
        → (action ≡ hold) ⊎ (quantity ≤ℤ pos 0)
        → IsSound time t
        → record_trade store book decision s action quantity price time t ≡ ok t'
        → Kept s time t t'
    Kept-nothing s time action quantity t {t'} h sound e =
        let same : t ≡ t' =
          ok_injective
            (sym (record_trade_nothing store book decision s price time action quantity t h) ∙ e) in
        subst (λ x. Kept s time t x) same (record { sound = sound; others = λ s' d. refl })

    -- A trade that leads to a position within the limit, when it is recorded, keeps the portfolio in
    -- order.
    pub record_trade-Kept :
        (s : Symbol) (time : ℕ) (action : Action) (quantity : ℤ) (t : Outcomes) {t' : Outcomes}
        → IsSound time t
        → InLimit (position_after (pos (held s t)) action quantity)
        → record_trade store book decision s action quantity price time t ≡ ok t'
        → Kept s time t t'
    unfolding position_after
    record_trade-Kept s time buy (pos (suc q)) t {t'} sound h e =
        let b =
          record_trade_buy store book decision s price time q t (sound.ledgers s) sound.past e in
        Kept-of s time t t' sound b.ledger (omega (int_laws, held-Bought s time (suc q) t t' b))
          b.no_later (λ s' d. b.others book s' (rw d (ground arith)))
    record_trade-Kept s time sell (pos (suc q)) t {t'} sound h e =
        let d = record_trade_sell store book decision s price time q t (sound.ledgers s) e in
        Kept-of s time t t' sound (record { ids = d.ids; in_order = d.in_order })
          (omega (int_laws, held-Sold s time (suc q) t t' d, sound.capped s))
          (d.no_later time sound.past) (λ s' n. d.others book s' (rw n (ground arith)))
    record_trade-Kept s time buy (pos zero) t sound h e =
        Kept-nothing s time buy (pos 0) t (inr (ground arith)) sound e
    record_trade-Kept s time sell (pos zero) t sound h e =
        Kept-nothing s time sell (pos 0) t (inr (ground arith)) sound e
    record_trade-Kept s time buy (negsuc n) t sound h e =
        Kept-nothing s time buy (negsuc n) t (inr (ground arith)) sound e
    record_trade-Kept s time sell (negsuc n) t sound h e =
        Kept-nothing s time sell (negsuc n) t (inr (ground arith)) sound e
    record_trade-Kept s time hold quantity t sound h e =
        Kept-nothing s time hold quantity t (inl refl) sound e
