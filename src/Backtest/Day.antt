-- ===== src/Backtest/Day.antt =====
-- A day of app/agent/backtest.py: how its decisions and fills end, in a portfolio in order or in an exception
-- that has an excuse.
use paper_trading_agent.Base.{
  ℕ, ◌≡◌, ◌≢◌, refl, sym, ◌∙◌, subst, inl, inr, Bool, true, false, Option, none, some, List, [],
  ◌∷◌, Bool-cases, Option-cases, ℤ, pos, ◌≤ℤ◌, same_text, All, Result, Result-cases, ok, err, OnEnd,
  ◌>>=◌,
}
use paper_trading_agent.State.{Symbol}
use paper_trading_agent.VarForecasts.{position_after}
use paper_trading_agent.RiskManager.{Ruling}
use paper_trading_agent.RiskManager.Limits.{InLimit}
use paper_trading_agent.Outcomes.{Outcomes}
use paper_trading_agent.Ledger.{TradeError, oversold, out_of_range}
use paper_trading_agent.Ledger.Sizes.{Sized, TakesUpTo}
use paper_trading_agent.Positions.{list_positions, current_qty}
use paper_trading_agent.Backtest.{
  Market, Database, BacktestError, no_open, graph_raised, record_raised, trade, lift_trade,
  as_of_day, unless_raised, graph_ruling, invoke_graph, write_records, execution_price,
  decide_symbol, decide_symbols, run_day,
}
use paper_trading_agent.Backtest.Safety.{held, IsSound, Kept}
use paper_trading_agent.Backtest.Fills.{
  IsTicker, Apart, fill_trade-Kept, fill_trade-ne-oversold, fill_trade-Sized, IsQuoteWithin,
  day_ruling-InLimit, Unread, fill,
}

module _ (store : ℤ → Option ℤ) (market : Symbol → ℕ → Market) (bps : ℕ) (fill_at_open : Bool)
    (backtest_id : ℕ) (bound : ℕ) (start : Outcomes) where
  abbrev mine : Option ℕ
  mine = some backtest_id

  -- Every price, with slippage, is within a bound, as are the entry prices at the start, and the
  -- columns take what sales at such prices write.
  pub record FitsColumns : Type 0 where
    pub column : TakesUpTo bound store
    pub quotes : (s : Symbol) (d : ℕ) → IsQuoteWithin bps bound (market s d).current_price
    pub opens : (s : Symbol) (d : ℕ) → IsQuoteWithin bps bound (market s d).open_price
    pub first : Sized bound start.rows

  -- If so, then the entry prices stay within the bound.
  abbrev pub IsSized : Outcomes → Type 0
  IsSized t = FitsColumns → Sized bound t.rows

  -- When a run may raise: an opening price is asked for and missing, the graph or the writing of a decision's
  -- rows raises, or a price is beyond the bound or an amount within it does not fit its column. A sale of more than is held is no excuse.
  abbrev pub Excused : BacktestError → Type 0
  Excused no_open =
      (fill_at_open ≡ true) × (s : Symbol) × (d : ℕ) × ((market s d).open_price ≡ none)
  Excused graph_raised = (s : Symbol) × (d : ℕ) × ((market s d).graph_raises ≡ true)
  Excused record_raised = (s : Symbol) × (d : ℕ) × ((market s d).records_raise ≡ true)
  Excused (trade oversold) = ⊥
  Excused (trade out_of_range) = ¬ FitsColumns

  -- What holds of the value, or an excuse.
  abbrev pub Ends : {A : Type 0} → (A → Type 0) → Result BacktestError A → Type 0
  Ends P (ok a) = P a
  Ends P (err e) = Excused e

  abbrev price_of : Symbol → ℕ → Result BacktestError (Option ℕ)
  price_of s d = execution_price store market bps fill_at_open backtest_id (market s d)

  -- An opening price that was found.
  abbrev IsOpening : Symbol → ℕ → Option ℕ → Type 0
  IsOpening s d exec = (quote : ℕ) → exec ≡ some quote → (market s d).open_price ≡ some quote

  execution_price-Ends : (s : Symbol) (d : ℕ) → Ends (IsOpening s d) (price_of s d)
  execution_price-Ends s d = elim (Bool-cases fill_at_open) [
    | inr e ↦ rw e (λ quote found. cc)
    | inl e ↦ elim (Option-cases (market s d).open_price) [
      | inl missing ↦
          (let raised : price_of s d ≡ err no_open = rw e (rw missing refl) in
            subst (Ends (IsOpening s d)) (sym raised) (e, s, d, missing))
      | inr (p, known) ↦
          (let priced : price_of s d ≡ ok (some p) = rw e (rw known refl) in
            subst (Ends (IsOpening s d)) (sym priced) (λ quote found. known ∙ found))
    ]
  ]

  unless_raised-Ends :
      {A : Type 0} (e : BacktestError) (b : Bool) (a : A)
      → (b ≡ true → Excused e)
      → Ends (λ x. x ≡ a) (unless_raised e b a)
  unless_raised-Ends e true a h = h refl
  unless_raised-Ends e false a h = refl

  Ends->>= :
      {A B : Type 0} (P : A → Type 0) (Q : B → Type 0) (call : Result BacktestError A)
      (go_on : A → Result BacktestError B)
      → Ends P call
      → ((a : A) → P a → Ends Q (go_on a))
      → Ends Q (call >>= go_on)
  Ends->>= P Q (ok a) go_on h k = k a h
  Ends->>= P Q (err e) go_on h k = h

  module _ (proposals_nonneg : (s : Symbol) (d : ℕ) → pos 0 ≤ℤ (market s d).proposal.quantity) where
    -- What a fill of one symbol keeps.
    abbrev KeptSized : Symbol → ℕ → Outcomes → Outcomes → Type 0
    KeptSized s day t t' = Kept mine s (as_of_day day) t t' × IsSized t'

    fill_trade-Ends :
        (day decision : ℕ) (s : Symbol) (r : Ruling) (exec : Option ℕ) (t : Outcomes)
        → IsOpening s day exec
        → IsSound mine (as_of_day day) t
        → IsSized t
        → InLimit (position_after (pos (held mine s t)) r.action r.quantity)
        → Ends (KeptSized s day t) (
            lift_trade (
              fill store market bps fill_at_open backtest_id day decision s r exec
                (market s day).current_price
                t))
    fill_trade-Ends day decision s r exec t opening sound sized l =
        let raw = (market s day).current_price in
        let Q : Result TradeError Outcomes → Type 0 =
          OnEnd (λ e. e ≢ out_of_range) (λ (x : Outcomes). Sized bound x.rows) in
        let sizes : FitsColumns
            → Q (fill store market bps fill_at_open backtest_id day decision s r exec raw t) =
          λ fits.
            fill_trade-Sized store market bps fill_at_open backtest_id bound fits.column day
              decision s r exec raw t
              (λ quote action e. fits.opens s day quote action (opening quote e))
              (fits.quotes s day) sound (sized fits) in
        elim (Result-cases
          (fill store market bps fill_at_open backtest_id day decision s r exec raw t)) [
            | inl (t', e) ↦ rw e (
              fill_trade-Kept store market bps fill_at_open backtest_id day decision s r exec raw t
                  sound l e,
              λ fits. subst Q e (sizes fits),
            )
            | inr (oversold, e) ↦ absurd (
                fill_trade-ne-oversold store market bps fill_at_open backtest_id day decision s r
                  exec raw t sound l e)
            | inr (out_of_range, e) ↦ rw e (λ fits. subst Q e (sizes fits) refl)
          ]

    decide_symbol-Ends :
        (day : ℕ) (committed : Outcomes) (s : Symbol) (db : Database)
        → IsTicker s
        → IsSound mine (as_of_day day) db.outcomes
        → IsSized db.outcomes
        → Unread store market bps fill_at_open backtest_id proposals_nonneg committed db.outcomes s
        → Ends
            (λ (db' : Database). KeptSized s day db.outcomes db'.outcomes)
            (decide_symbol store market bps fill_at_open backtest_id day committed s db)
    unfolding decide_symbol
    decide_symbol-Ends day committed s db named sound sized same =
        let m = market s day in
        let held_qty = pos (current_qty (list_positions mine (some s) committed.rows)) in
        let ruled : Ends (λ x. x ≡ graph_ruling m held_qty) (invoke_graph m held_qty) =
          unless_raised-Ends graph_raised m.graph_raises (graph_ruling m held_qty)
            (λ h. (s, day, h)) in
        let recorded : Ends (λ x. x ≡ tt) (write_records m) =
          unless_raised-Ends record_raised m.records_raise tt (λ h. (s, day, h)) in
        let l =
          day_ruling-InLimit store market bps fill_at_open backtest_id proposals_nonneg day
            committed db.outcomes s named sound same in
        let P : Outcomes → Type 0 = KeptSized s day db.outcomes in
        let Q : Database → Type 0 = λ db'. KeptSized s day db.outcomes db'.outcomes in
        let Keeps : Ruling → Type 0 =
          λ r. InLimit (position_after (pos (held mine s db.outcomes)) r.action r.quantity) in
        Ends->>= (λ r. r ≡ graph_ruling m held_qty) Q (invoke_graph m held_qty) _ ruled
          (λ r same_ruling.
            Ends->>= (IsOpening s day) Q (price_of s day) _ (execution_price-Ends s day)
              (λ exec opening.
                Ends->>= (λ x. x ≡ tt) Q (write_records m) _ recorded
                  (λ u written.
                    Ends->>= P Q
                      (lift_trade (
                        fill store market bps fill_at_open backtest_id day db.next_decision s r exec
                          m.current_price db.outcomes))
                      _
                      (fill_trade-Ends day db.next_decision s r exec db.outcomes opening sound sized
                        (subst Keeps (sym same_ruling) l))
                      (λ t kept. kept))))

    Unread-after :
        (committed t t' : Outcomes) (s : Symbol) (time : ℕ) (ss : List Symbol)
        → Kept mine s time t t'
        → All (λ s'. same_text s s' ≡ false) ss
        → All (Unread store market bps fill_at_open backtest_id proposals_nonneg committed t) ss
        → All (Unread store market bps fill_at_open backtest_id proposals_nonneg committed t') ss
    Unread-after committed t t' s time [] kept far same = tt
    Unread-after committed t t' s time (x ∷ xs) kept (f, far) (u, same) =
        (kept.others x f ∙ u, Unread-after committed t t' s time xs kept far same)

    -- A portfolio in order, with its sizes.
    abbrev pub InOrder : ℕ → Database → Type 0
    InOrder day db = IsSound mine (as_of_day day) db.outcomes × IsSized db.outcomes

    decide_symbols-Ends :
        (day : ℕ) (committed : Outcomes) (ss : List Symbol) (db : Database)
        → Apart ss
        → All IsTicker ss
        → All
            (Unread store market bps fill_at_open backtest_id proposals_nonneg committed
              db.outcomes)
            ss
        → InOrder day db
        → Ends
            (InOrder day)
            (decide_symbols store market bps fill_at_open backtest_id day committed ss db)
    unfolding decide_symbols
    decide_symbols-Ends day committed [] db apart named same ordered = ordered
    decide_symbols-Ends day committed (s ∷ ss) db (far, apart) (n, named) (u, same) (sound, sized) =
        let first = decide_symbol-Ends day committed s db n sound sized u in
        let P : Database → Type 0 = λ x. KeptSized s day db.outcomes x.outcomes in
        elim (Result-cases
          (decide_symbol store market bps fill_at_open backtest_id day committed s db)) [
            | inr (x, e) ↦ rw e (subst (Ends P) e first)
            | inl (db', e) ↦
                (let (kept, sized') : P db' = subst (Ends P) e first in
                  rw e (
                    decide_symbols-Ends day committed ss db' apart named
                      (Unread-after committed db.outcomes db'.outcomes s (as_of_day day) ss kept far
                        same)
                      (kept.sound, sized')))
          ]

    All-Unread :
        (t : Outcomes) (ss : List Symbol)
        → All (Unread store market bps fill_at_open backtest_id proposals_nonneg t t) ss
    All-Unread t [] = tt
    All-Unread t (s ∷ ss) = (refl, All-Unread t ss)

    -- A day.
    pub run_day-Ends :
        (symbols : List Symbol) (day : ℕ) (db : Database)
        → Apart symbols
        → All IsTicker symbols
        → InOrder day db
        → Ends (InOrder day) (run_day store market bps fill_at_open backtest_id symbols day db)
    unfolding run_day
    run_day-Ends symbols day db apart named ordered =
        let whole =
          decide_symbols-Ends day db.outcomes symbols db apart named
            (All-Unread db.outcomes symbols) ordered in
        let P : Database → Type 0 = InOrder day in
        elim (Result-cases
          (decide_symbols store market bps fill_at_open backtest_id day db.outcomes symbols db)) [
            | inr (x, e) ↦ rw e (subst (Ends P) e whole)
            | inl (db', e) ↦ rw e (subst (Ends P) e whole)
          ]
