-- ===== src/Live/Cycle.antt =====
-- The live cycle of app/agent/runner.py: how it ends, in a portfolio in order or in an exception that no sale
-- beyond the position raised.
use paper_trading_agent.Base.{
  ℕ, ◌≤◌, ◌≡◌, ◌≢◌, refl, ap, sym, ◌∙◌, inl, inr, Option, none, some, List, [], ◌∷◌, false, ℤ, pos,
  ◌≤ℤ◌, int_laws, same_text, select, All, Result, Result-cases, err_injective, OnEnd, OnEnd->>=, ok,
  err, Option-cases, arith,
}
use paper_trading_agent.State.{Symbol}
use paper_trading_agent.VarForecasts.{position_after}
use paper_trading_agent.RiskManager.{Ruling}
use paper_trading_agent.RiskManager.Limits.{InLimit, apply_budget_keeps_limit}
use paper_trading_agent.Outcomes.{Outcomes, is_open_lot, total_quantity}
use paper_trading_agent.Ledger.{oversold, out_of_range, record_trade, record_paper_trade}
use paper_trading_agent.Ledger.Fifo.{open_lots-eq}
use paper_trading_agent.Ledger.Trade.{record_trade_oversold}
use paper_trading_agent.Backtest.Safety.{held, IsSound, Kept, record_trade-Kept}
use paper_trading_agent.Backtest.Fills.{IsTicker, Apart, IsSound-later, enough_held}
use paper_trading_agent.Trace.{TraceError, record_trace}
use paper_trading_agent.Live.{
  Snapshot, Answer, LiveDatabase, LiveError, trade, lift_trace, lift_trade, live_ruling, live_qty,
  fill_live, cycle_price, latest_close, active_symbols, begin_run, cycle_symbol, cycle_symbols,
  run_decision_cycle, committed_after, after_cycle,
}

-- What holds of the value, or an exception that is not that of a sale beyond the position.
abbrev pub NotOversold : LiveError → Type 0
NotOversold e = e ≢ trade oversold

abbrev pub Ends : {A : Type 0} → (A → Type 0) → Result LiveError A → Type 0
Ends P = OnEnd NotOversold P

lift_trace-Ends : {A : Type 0} (r : Result TraceError A) → Ends (λ a. Unit) (lift_trace r)
lift_trace-Ends (ok a) = tt
lift_trace-Ends (err e) = λ same. cc

-- The live table's portfolio.
abbrev pub live : Option ℕ
live = none

committed-Ends :
    (time : ℕ) (db : LiveDatabase) (run : Result LiveError LiveDatabase)
    → IsSound live time db.outcomes
    → Ends (λ (db' : LiveDatabase). IsSound live time db'.outcomes) run
    → (run ≢ err (trade oversold)) × IsSound live time (committed_after db run).outcomes
committed-Ends time db (ok db') before after = ((λ same. cc), after)
committed-Ends time db (err e) before after = ((λ same. after (err_injective same)), before)

-- The lots of a symbol as they were committed.
abbrev pub Unread : Outcomes → Outcomes → Symbol → Type 0
Unread committed t s =
    select (is_open_lot live s) t.rows ≡ select (is_open_lot live s) committed.rows

module _ (store : ℤ → Option ℤ) where
  trade-Ends :
      (decision time : ℕ) (s : Symbol) (r : Ruling) (price : ℤ) (t : Outcomes)
      → IsSound live time t
      → InLimit (position_after (pos (held live s t)) r.action r.quantity)
      → Ends
          (Kept live s time t)
          (lift_trade (record_paper_trade store decision s r.action r.quantity price time t))
  unfolding record_paper_trade
  trade-Ends decision time s r price t sound l =
      elim (Result-cases (record_trade store live decision s r.action r.quantity price time t)) [
        | inl (t', e) ↦
            rw e
              (record_trade-Kept live store decision price s time r.action r.quantity t sound l e)
        | inr (out_of_range, e) ↦ rw e (λ same. cc)
        | inr (oversold, e) ↦
            (let (sells, short) =
                (record_trade_oversold store live decision s price time r.action r.quantity t).0
                  e in
              elim (enough_held (held live s t) r.action r.quantity l) [
                | inl other ↦ absurd (other sells)
                | inr enough ↦
                    absurd (
                      omega (int_laws, ap total_quantity (open_lots-eq live s t (sound.ledgers s))))
              ])
      ]

  fill_live-Ends :
      (decision time : ℕ) (s : Symbol) (r : Ruling) (price : Option ℤ) (ps : List Snapshot)
      (t : Outcomes)
      → IsSound live time t
      → InLimit (position_after (pos (held live s t)) r.action r.quantity)
      → Ends
          (λ (tables : List Snapshot × Outcomes). Kept live s time t tables.1)
          (fill_live store decision s r price time (ps, t))
  unfolding fill_live
  fill_live-Ends decision time s r none ps t sound l = record {
    sound = sound;
    others = λ s' d. refl;
  }
  fill_live-Ends decision time s r (some price) ps t sound l = elim (Option-cases (store price)) [
    | inl missing ↦ rw missing (λ same. cc)
    | inr (close, fits) ↦ rw fits (
        OnEnd->>= NotOversold (Kept live s time t)
          (λ (tables : List Snapshot × Outcomes). Kept live s time t tables.1)
          (lift_trade (record_paper_trade store decision s r.action r.quantity price time t)) _
          (trade-Ends decision time s r price t sound l) (λ t' k. k))
  ]

  module _ (answer : Symbol → Answer)
      (proposals_nonneg : (s : Symbol) → pos 0 ≤ℤ (answer s).proposal.quantity) where
    -- What the risk manager reads is what the table holds.
    live_ruling-InLimit :
        (time : ℕ) (committed t : Outcomes) (s : Symbol)
        → IsTicker s
        → IsSound live time t
        → Unread committed t s
        → let r = live_ruling (answer s) (pos (live_qty s committed.rows)) in
          InLimit (position_after (pos (held live s t)) r.action r.quantity)
    unfolding live_ruling
    live_ruling-InLimit time committed t s (named, up) sound same =
        let read : live_qty s committed.rows ≡ held live s t =
          ap (λ x. held live x committed) up ∙ ap total_quantity (sym same) in
        rw read (
          apply_budget_keeps_limit (answer s).figures.var_95 (answer s).proposal
            (pos (held live s t)) (proposals_nonneg s) (let cap = sound.capped s in ground arith))

    cycle_symbol-Ends :
        (run time : ℕ) (committed : Outcomes) (s : Symbol) (db : LiveDatabase)
        → IsTicker s
        → IsSound live time db.outcomes
        → Unread committed db.outcomes s
        → Ends
            (λ (db' : LiveDatabase). Kept live s time db.outcomes db'.outcomes)
            (cycle_symbol store answer run time committed s db)
    unfolding cycle_symbol
    cycle_symbol-Ends run time committed s db named sound same =
        let r = live_ruling (answer s) (pos (live_qty s committed.rows)) in
        let price = cycle_price (latest_close s db.snapshots) (answer s).current_price in
        let Q : LiveDatabase → Type 0 = λ db'. Kept live s time db.outcomes db'.outcomes in
        OnEnd->>= NotOversold (λ a. Unit) Q
          (lift_trace (record_trace db.next_decision (answer s).recorder db.traces)) _
          (lift_trace-Ends (record_trace db.next_decision (answer s).recorder db.traces))
          (λ traced x.
            OnEnd->>= NotOversold
              (λ (tables : List Snapshot × Outcomes). Kept live s time db.outcomes tables.1) Q
              (fill_live store db.next_decision s r price time (db.snapshots, db.outcomes)) _
              (fill_live-Ends db.next_decision time s r price db.snapshots db.outcomes sound
                (live_ruling-InLimit time committed db.outcomes s named sound same))
              (λ tables k. k))

    Unread-after :
        (committed t t' : Outcomes) (s : Symbol) (time : ℕ) (ss : List Symbol)
        → Kept live s time t t'
        → All (λ s'. same_text s s' ≡ false) ss
        → All (Unread committed t) ss
        → All (Unread committed t') ss
    Unread-after committed t t' s time [] kept far same = tt
    Unread-after committed t t' s time (x ∷ xs) kept (f, far) (u, same) =
        (kept.others x f ∙ u, Unread-after committed t t' s time xs kept far same)

    cycle_symbols-Ends :
        (run time : ℕ) (committed : Outcomes) (ss : List Symbol) (db : LiveDatabase)
        → Apart ss
        → All IsTicker ss
        → All (Unread committed db.outcomes) ss
        → IsSound live time db.outcomes
        → Ends
            (λ (db' : LiveDatabase). IsSound live time db'.outcomes)
            (cycle_symbols store answer run time committed ss db)
    unfolding cycle_symbols
    cycle_symbols-Ends run time committed [] db apart named same sound = sound
    cycle_symbols-Ends run time committed (s ∷ ss) db (far, apart) (n, named) (u, same) sound =
        OnEnd->>= NotOversold (λ (db' : LiveDatabase). Kept live s time db.outcomes db'.outcomes)
          (λ (db' : LiveDatabase). IsSound live time db'.outcomes)
          (cycle_symbol store answer run time committed s db) _
          (cycle_symbol-Ends run time committed s db n sound u)
          (λ db' kept.
            cycle_symbols-Ends run time committed ss db' apart named
              (Unread-after committed db.outcomes db'.outcomes s time ss kept far same) kept.sound)

    All-Unread : (t : Outcomes) (ss : List Symbol) → All (Unread t t) ss
    All-Unread t [] = tt
    All-Unread t (s ∷ ss) = (refl, All-Unread t ss)

    run_decision_cycle-Ends :
        (started_at finished_at : ℕ) (db : LiveDatabase)
        → Apart (active_symbols db.watchlist)
        → All IsTicker (active_symbols db.watchlist)
        → IsSound live started_at db.outcomes
        → Ends
            (λ (db' : LiveDatabase). IsSound live started_at db'.outcomes)
            (run_decision_cycle store answer started_at finished_at db)
    unfolding run_decision_cycle
    run_decision_cycle-Ends started_at finished_at db apart named sound =
        OnEnd->>= NotOversold (λ (db' : LiveDatabase). IsSound live started_at db'.outcomes)
          (λ (db' : LiveDatabase). IsSound live started_at db'.outcomes)
          (cycle_symbols store answer db.next_run started_at db.outcomes
            (active_symbols db.watchlist) (begin_run started_at db))
          _
          (cycle_symbols-Ends db.next_run started_at db.outcomes (active_symbols db.watchlist)
            (begin_run started_at db) apart named
            (All-Unread db.outcomes (active_symbols db.watchlist)) sound)
          (λ db' in_order. in_order)

    -- From a live table in order as of some time before the cycle, with proposals that are not negative
    -- and different symbols in upper case on the watchlist: no sale exceeds a position, and what is
    -- committed after the cycle, finished or not, is in order with every position within the limit.
    pub run_decision_cycle-IsSound :
        (time started_at finished_at : ℕ) (db : LiveDatabase)
        → time ≤ started_at
        → Apart (active_symbols db.watchlist)
        → All IsTicker (active_symbols db.watchlist)
        → IsSound live time db.outcomes
        → (run_decision_cycle store answer started_at finished_at db ≢ err (trade oversold))
          × IsSound live started_at (after_cycle store answer started_at finished_at db).outcomes
    run_decision_cycle-IsSound time started_at finished_at db past apart named sound =
        let now = IsSound-later live time started_at db.outcomes past sound in
        committed-Ends started_at db (run_decision_cycle store answer started_at finished_at db) now
          (run_decision_cycle-Ends started_at finished_at db apart named now)
