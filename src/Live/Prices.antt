-- ===== src/Live/Prices.antt =====
-- The prices of app/agent/runner.py: which price a live cycle records and trades at.
use paper_trading_agent.Base.{
  ℕ, ◌≤◌, ◌≡◌, refl, ap, sym, ◌∙◌, ◌⊎◌, inl, inr, true, false, Option, none, some, List, [], ◌∷◌,
  ◌++◌, ltb, Bool-cases, Option-cases, ℤ, pos, Result, ok, err, or_raise, OnEnd, OnEnd->>=,
  same_text, same_text_iff, arith,
}
use mathlib.Core.Option.{some-injective}
use paper_trading_agent.State.{Symbol}
use paper_trading_agent.RiskManager.{Ruling}
use paper_trading_agent.Outcomes.{Outcomes}
use paper_trading_agent.Ledger.{out_of_range, record_paper_trade}
use paper_trading_agent.Trace.{record_trace}
use paper_trading_agent.Live.{
  Snapshot, is_snapshot, record_price_snapshot, later_of, latest_snapshot, close_of, latest_close,
  Answer, LiveDatabase, LiveError, trade, lift_trace, lift_trade, live_ruling, live_qty,
  cycle_price, fill_live, cycle_symbol, cycle_symbols, begin_run, active_symbols,
  run_decision_cycle, committed_after, after_cycle,
}

-- A snapshot of another symbol changes nothing.
latest_snapshot-other :
    (s : Symbol) (q : Snapshot) (ps : List Snapshot)
    → same_text q.symbol s ≡ false
    → latest_snapshot s (ps ++ q ∷ []) ≡ latest_snapshot s ps
unfolding latest_snapshot
latest_snapshot-other s q [] h = rw h refl
latest_snapshot-other s q (p ∷ ps) h = rw (latest_snapshot-other s q ps h) refl

-- No snapshot, or none later than `q`.
abbrev IsUpTo : Snapshot → Option Snapshot → Type 0
IsUpTo q none = Unit
IsUpTo q (some p) = p.captured_at ≤ q.captured_at

not_later :
    (p q r : Snapshot)
    → ltb p.captured_at q.captured_at ≡ false
    → r.captured_at ≤ q.captured_at
    → ltb p.captured_at r.captured_at ≡ false
not_later p q r e h = ground arith

later_upto :
    (q p r : Snapshot)
    → r.captured_at ≤ q.captured_at
    → p.captured_at ≤ q.captured_at
    → (later_of p (some r)).captured_at ≤ q.captured_at
later_upto q p r h k = ground arith

ltb→le : (a b : ℕ) → ltb a b ≡ true → a ≤ b
ltb→le a b h = ground arith

-- Either the latest stays, or it is the new one and was not later.
abbrev Chosen : Snapshot → Option Snapshot → Option Snapshot → Type 0
Chosen q before after = (after ≡ before) ⊎ ((after ≡ some q) × IsUpTo q before)

Chosen-later :
    (q p : Snapshot) (before after : Option Snapshot)
    → Chosen q before after
    → Chosen q (some (later_of p before)) (some (later_of p after))
Chosen-later q p before after (inl same) = inl (ap (λ o. some (later_of p o)) same)
Chosen-later q p none after (inr (new, upto)) =
    rw new (elim (Bool-cases (ltb p.captured_at q.captured_at)) [
      | inl e ↦ inr (rw e refl, ltb→le p.captured_at q.captured_at e)
      | inr e ↦ inl (rw e refl)
    ])
Chosen-later q p (some r) after (inr (new, upto)) =
    rw new (elim (Bool-cases (ltb p.captured_at q.captured_at)) [
      | inl e ↦ inr (rw e refl, later_upto q p r upto (ltb→le p.captured_at q.captured_at e))
      | inr e ↦ inl (rw e (rw (not_later p q r e upto) refl))
    ])

latest_snapshot-own :
    (s : Symbol) (q : Snapshot) (ps : List Snapshot)
    → same_text q.symbol s ≡ true
    → Chosen q (latest_snapshot s ps) (latest_snapshot s (ps ++ q ∷ []))
unfolding latest_snapshot
latest_snapshot-own s q [] h = rw h (inr (refl, tt))
latest_snapshot-own s q (p ∷ ps) h = elim (Bool-cases (same_text p.symbol s)) [
  | inl e ↦ rw e (Chosen-later q p _ _ (latest_snapshot-own s q ps h))
  | inr e ↦ rw e (latest_snapshot-own s q ps h)
]

-- The close of a table's latest snapshot for `s` is `close`.
abbrev pub HasClose : Symbol → ℤ → List Snapshot → Type 0
HasClose s close ps = latest_close s ps ≡ some close

-- Recording the latest close again, or any price of another symbol, changes no latest close.
HasClose-record :
    (s s' : Symbol) (close price : ℤ) (time : ℕ) (ps : List Snapshot)
    → (s' ≡ s → price ≡ close)
    → HasClose s close ps
    → HasClose s close (record_price_snapshot s' price time ps)
unfolding record_price_snapshot latest_close
HasClose-record s s' close price time ps same h = elim (Bool-cases (is_snapshot s' time ps)) [
  | inl e ↦ rw e h
  | inr e ↦ rw e (
      let q : Snapshot = record { symbol = s'; captured_at = time; close = price } in
      elim (Bool-cases (same_text s' s)) [
        | inr f ↦ ap close_of (latest_snapshot-other s q ps f) ∙ h
        | inl f ↦ elim (latest_snapshot-own s q ps f) [
          | inl kept ↦ ap close_of kept ∙ h
          | inr (new, upto) ↦ ap close_of new ∙ ap some (same ((same_text_iff s' s).0 f))
        ]
      ])
]

price_known :
    {latest : Option ℤ} {close : ℤ} (quote : Option ℕ)
    → latest ≡ some close
    → cycle_price latest quote ≡ some close
price_known quote h = rw h refl

module _ (store : ℤ → Option ℤ) (s : Symbol) (close : ℤ) (fits : store close ≡ some close) where
  abbrev Keeps : {A : Type 0} → (A → List Snapshot) → Result LiveError A → Type 0
  Keeps table = OnEnd (λ e. Unit) (λ a. HasClose s close (table a))

  any_end : {A : Type 0} (r : Result LiveError A) → OnEnd (λ e. Unit) (λ a. Unit) r
  any_end (ok a) = tt
  any_end (err e) = tt

  converted :
      (s' : Symbol) (price : ℤ)
      → (s' ≡ s → price ≡ close)
      → OnEnd
          (λ e. Unit)
          (λ c. s' ≡ s → c ≡ close)
          (or_raise {Raised = LiveError} (store price) (trade out_of_range))
  converted s' price same = elim (Option-cases (store price)) [
    | inl none_fits ↦ rw none_fits tt
    | inr (c, e) ↦ rw e (λ own. some-injective _ _ (sym e ∙ ap store (same own) ∙ fits))
  ]

  fill_live-Keeps :
      (decision time : ℕ) (s' : Symbol) (r : Ruling) (price : Option ℤ) (ps : List Snapshot)
      (t : Outcomes)
      → HasClose s close ps
      → (s' ≡ s → price ≡ some close)
      → Keeps
          (λ (tables : List Snapshot × Outcomes). tables.0)
          (fill_live store decision s' r price time (ps, t))
  unfolding fill_live
  fill_live-Keeps decision time s' r none ps t h same = h
  fill_live-Keeps decision time s' r (some price) ps t h same =
      OnEnd->>= (λ e. Unit) (λ c. s' ≡ s → c ≡ close)
        (λ (tables : List Snapshot × Outcomes). HasClose s close tables.0)
        (or_raise (store price) (trade out_of_range)) _
        (converted s' price (λ own. some-injective _ _ (same own)))
        (λ c own.
          OnEnd->>= (λ e. Unit) (λ t'. Unit)
            (λ (tables : List Snapshot × Outcomes). HasClose s close tables.0)
            (lift_trade (record_paper_trade store decision s' r.action r.quantity price time t)) _
            (any_end _) (λ t' x. HasClose-record s s' close c time ps own h))

  module _ (answer : Symbol → Answer) where
    cycle_symbols-Keeps :
        (run time : ℕ) (committed : Outcomes) (ss : List Symbol) (db : LiveDatabase)
        → HasClose s close db.snapshots
        → Keeps
            (λ (db' : LiveDatabase). db'.snapshots)
            (cycle_symbols store answer run time committed ss db)
    unfolding cycle_symbols cycle_symbol
    cycle_symbols-Keeps run time committed [] db h = h
    cycle_symbols-Keeps run time committed (s' ∷ ss) db h =
        let K : LiveDatabase → Type 0 = λ db'. HasClose s close db'.snapshots in
        let r = live_ruling (answer s') (pos (live_qty s' committed.rows)) in
        OnEnd->>= (λ e. Unit) K K (cycle_symbol store answer run time committed s' db) _
          (OnEnd->>= (λ e. Unit) (λ traced. Unit) K
            (lift_trace (record_trace db.next_decision (answer s').recorder db.traces)) _
            (any_end _)
            (λ traced x.
              OnEnd->>= (λ e. Unit)
                (λ (tables : List Snapshot × Outcomes). HasClose s close tables.0) K
                (fill_live store db.next_decision s' r
                  (cycle_price (latest_close s' db.snapshots) (answer s').current_price) time
                  (db.snapshots, db.outcomes))
                _
                (fill_live-Keeps db.next_decision time s' r _ db.snapshots db.outcomes h (λ own.
                  price_known (answer s').current_price
                    (ap (λ x. latest_close x db.snapshots) own ∙ h)))
                (λ tables k. k)))
          (λ db' k. cycle_symbols-Keeps run time committed ss db' k)

    committed-HasClose :
        (db : LiveDatabase) (run : Result LiveError LiveDatabase)
        → HasClose s close db.snapshots
        → Keeps (λ (db' : LiveDatabase). db'.snapshots) run
        → HasClose s close (committed_after db run).snapshots
    committed-HasClose db (ok db') before after = after
    committed-HasClose db (err e) before after = before

    -- Once a symbol has a price among the snapshots, whose conversion to the column changes nothing, no
    -- cycle moves it: the latest close is the same after each cycle, whatever the Technical Analyst quotes.
    pub latest_close_never_moves :
        (started_at finished_at : ℕ) (db : LiveDatabase)
        → latest_close s db.snapshots ≡ some close
        → latest_close s (after_cycle store answer started_at finished_at db).snapshots ≡ some close
    unfolding run_decision_cycle
    latest_close_never_moves started_at finished_at db h = committed-HasClose db _ h (
        OnEnd->>= (λ e. Unit) (λ (db' : LiveDatabase). HasClose s close db'.snapshots)
          (λ (db' : LiveDatabase). HasClose s close db'.snapshots)
          (cycle_symbols store answer db.next_run started_at db.outcomes
            (active_symbols db.watchlist) (begin_run started_at db))
          _
          (cycle_symbols-Keeps db.next_run started_at db.outcomes (active_symbols db.watchlist)
            (begin_run started_at db) h)
          (λ db' k. k))
