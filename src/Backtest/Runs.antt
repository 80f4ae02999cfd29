-- ===== src/Backtest/Runs.antt =====
-- The loops of app/agent/backtest.py over symbols and days: what a run leaves in the portfolio, and its end.
use mathlib.Core.List.{append-nil, append_assoc}
use paper_trading_agent.Base.{
  ℕ, ◌+◌, ◌≡◌, ◌≢◌, refl, ap, sym, ◌∙◌, subst, inl, inr, Bool, true, false, ◌&&◌, Option, none,
  some, List, [], ◌∷◌, ◌++◌, ltb, Bool-cases, ℤ, pos, ◌≤ℤ◌, All, Result, Result-cases, arith,
}
use paper_trading_agent.State.{Symbol}
use paper_trading_agent.Outcomes.{Outcomes}
use paper_trading_agent.Ledger.{oversold, out_of_range}
use paper_trading_agent.Backtest.{
  Market, Database, BacktestError, no_open, graph_raised, record_raised, trade, as_of_day, run_day,
  run_days,
}
use paper_trading_agent.Backtest.Safety.{IsSafe, IsSound}
use paper_trading_agent.Backtest.Fills.{IsTicker, Apart, Rising, IsSound-later}
use paper_trading_agent.Backtest.Loop.{days-stop, days-raise, days-go, run_day-finished}
use paper_trading_agent.Backtest.Day.{FitsColumns, IsSized, Excused, Ends, InOrder, run_day-Ends}

module _ (store : ℤ → Option ℤ) (market : Symbol → ℕ → Market) (bps : ℕ) (fill_at_open : Bool)
    (backtest_id : ℕ) where
  abbrev mine : Option ℕ
  mine = some backtest_id

  module _ (proposals_nonneg : (s : Symbol) (d : ℕ) → pos 0 ≤ℤ (market s d).proposal.quantity) where
    module _ (over_cap : ℕ → Bool) (symbols : List Symbol) where
      abbrev days : ℕ → List ℕ → Database → Database × Bool
      days = run_days store market bps fill_at_open backtest_id over_cap symbols

      abbrev a_day : ℕ → Database → Result BacktestError Database
      a_day = run_day store market bps fill_at_open backtest_id symbols

      abbrev SafeEnd : Database × Bool → Type 0
      SafeEnd r = IsSafe mine r.0.outcomes

      -- From a portfolio in order, over rising days, with proposals that are not negative and different
      -- symbols in upper case, a run keeps the portfolio's lots in order and every position within the limit, wherever it stops: at
      -- the end, at the spending cap or at an exception.
      pub run_days-IsSafe :
          (done last : ℕ) (ds : List ℕ) (db : Database)
          → Apart symbols
          → All IsTicker symbols
          → Rising last ds
          → IsSound mine last db.outcomes
          → IsSafe mine (days done ds db).0.outcomes
      unfolding run_days
      run_days-IsSafe done last [] db apart named rising sound =
          λ s. (sound.ledgers s, sound.capped s)
      run_days-IsSafe done last (d ∷ ds) db apart named (late, rising) sound =
          let now = IsSound-later mine last (as_of_day d) db.outcomes late sound in
          let ends =
            run_day-Ends store market bps fill_at_open backtest_id 0 db.outcomes proposals_nonneg
              symbols d db apart named (now, λ fits. fits.first) in
          let P : Database → Type 0 =
            InOrder store market bps fill_at_open backtest_id 0 db.outcomes proposals_nonneg d in
          let here : IsSafe mine db.outcomes = λ s. (sound.ledgers s, sound.capped s) in
          elim (Bool-cases (ltb 0 done && over_cap done)) [
            | inl stop ↦
                subst SafeEnd
                  (sym (
                    days-stop store market bps fill_at_open backtest_id over_cap symbols done d ds
                      db stop))
                  here
            | inr go ↦ elim (Result-cases (a_day d db)) [
              | inr (x, e) ↦
                  subst SafeEnd
                    (sym (
                      days-raise store market bps fill_at_open backtest_id over_cap symbols done d
                        ds db go e))
                    here
              | inl (db', e) ↦
                  subst SafeEnd
                    (sym (
                      days-go store market bps fill_at_open backtest_id over_cap symbols done d ds
                        db go e))
                    (run_days-IsSafe (done + 1) (as_of_day d) ds db' apart named rising
                      (subst (Ends store market bps fill_at_open backtest_id 0 db.outcomes P) e
                        ends).0)
            ]
          ]

      module _ (bound : ℕ) (start : Outcomes) where
        run_days_finish_from :
            (done last : ℕ) (ds : List ℕ) (db : Database)
            → ((n : ℕ) → over_cap n ≡ false)
            → ((e : BacktestError)
                → ¬ (Excused store market bps fill_at_open backtest_id bound start e))
            → Apart symbols
            → All IsTicker symbols
            → Rising last ds
            → IsSound mine last db.outcomes
            → IsSized store market bps fill_at_open backtest_id bound start db.outcomes
            → ((days done ds db).1 ≡ true)
              × ((days done ds db).0.finished_days ≡ db.finished_days ++ ds)
        unfolding run_days
        run_days_finish_from done last [] db free sure apart named rising sound sized =
            (refl, sym (append-nil db.finished_days))
        run_days_finish_from done last (d ∷ ds) db free sure apart named (late, rising) sound
              sized =
            let now = IsSound-later mine last (as_of_day d) db.outcomes late sound in
            let ends =
              run_day-Ends store market bps fill_at_open backtest_id bound start proposals_nonneg
                symbols d db apart named (now, sized) in
            let P : Database → Type 0 =
              InOrder store market bps fill_at_open backtest_id bound start proposals_nonneg d in
            let go : (ltb 0 done && over_cap done) ≡ false = rw (free done) (ground arith) in
            elim (Result-cases (a_day d db)) [
              | inr (x, e) ↦ absurd (
                  sure x
                    (subst (Ends store market bps fill_at_open backtest_id bound start P) e ends))
              | inl (db', e) ↦
                  (let (sound', sized') =
                      subst (Ends store market bps fill_at_open backtest_id bound start P) e ends in
                    let (whole, ended) =
                      run_days_finish_from (done + 1) (as_of_day d) ds db' free sure apart named
                        rising sound' sized' in
                    let same =
                      days-go store market bps fill_at_open backtest_id over_cap symbols done d ds
                        db go e in
                    (
                      ap (λ r. r.1) same ∙ whole,
                      ap (λ r. r.0.finished_days) same
                          ∙ ended
                          ∙ ap (λ x. x ++ ds)
                              (run_day-finished store market bps fill_at_open backtest_id symbols d
                                db e)
                          ∙ append_assoc db.finished_days (d ∷ []) ds,
                    ))
            ]

      -- Neither the graph nor the writing of a decision's rows raises.
      abbrev pub NothingRaises : Type 0
      NothingRaises =
          (s : Symbol) (d : ℕ)
          → ((market s d).graph_raises ≡ false) × ((market s d).records_raise ≡ false)

      no_excuse :
          (bound : ℕ) (t : Outcomes)
          → (fill_at_open ≡ true → (s : Symbol) (d : ℕ) → (market s d).open_price ≢ none)
          → NothingRaises
          → FitsColumns store market bps fill_at_open backtest_id bound t
          → (e : BacktestError) → ¬ (Excused store market bps fill_at_open backtest_id bound t e)
      no_excuse bound t known quiet fits no_open (at_open, s, d, missing) =
          known at_open s d missing
      no_excuse bound t known quiet fits graph_raised (s, d, h) = (let calm = quiet s d in cc)
      no_excuse bound t known quiet fits record_raised (s, d, h) = (let calm = quiet s d in cc)
      no_excuse bound t known quiet fits (trade oversold) h = h
      no_excuse bound t known quiet fits (trade out_of_range) h = h fits

      -- Over rising days, with proposals that are not negative and different symbols in upper case, from
      -- a portfolio in order: where neither the graph nor the writing of a decision's rows raises, no opening
      -- price that the run asks for is missing, the spending cap is never met, and every price, with slippage, and every entry price at the start is within a bound
      -- for which the columns take the profit on 20 shares, the run finishes all its days, one after
      -- another.
      pub run_days_finish :
          (bound done last : ℕ) (ds : List ℕ) (db : Database)
          → ((n : ℕ) → over_cap n ≡ false)
          → (fill_at_open ≡ true → (s : Symbol) (d : ℕ) → (market s d).open_price ≢ none)
          → NothingRaises
          → FitsColumns store market bps fill_at_open backtest_id bound db.outcomes
          → Apart symbols
          → All IsTicker symbols
          → Rising last ds
          → IsSound mine last db.outcomes
          → ((days done ds db).1 ≡ true)
            × ((days done ds db).0.finished_days ≡ db.finished_days ++ ds)
      run_days_finish bound done last ds db free known quiet fits apart named rising sound =
          run_days_finish_from bound db.outcomes done last ds db free
            (no_excuse bound db.outcomes known quiet fits) apart named rising sound (λ f. f.first)
