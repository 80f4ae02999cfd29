-- ===== src/Backtest/Resume/Continues.antt =====
-- A backtest (app/agent/backtest.py) that is stopped and resumed, against one that runs on.
use mathlib.Core.List.{append-nil, append_assoc}
use paper_trading_agent.Base.{
  ℕ, ◌+◌, ◌<◌, ◌≡◌, refl, ap, sym, ◌∙◌, subst, inl, inr, Bool, true, false, ◌&&◌, Option, List, [],
  ◌∷◌, ◌++◌, ltb, Bool-cases, ℤ, select, select-append, All, Result, Result-cases, arith,
}
use paper_trading_agent.State.{Symbol}
use paper_trading_agent.Backtest.{Market, Database, BacktestError, run_day, run_days}
use paper_trading_agent.Backtest.Loop.{days-stop, days-raise, days-go, run_day-finished}
use paper_trading_agent.Backtest.Resume.{later_of, last_day, is_after, resume_days}

-- Each day is before all the days behind it.
abbrev pub Ascending : List ℕ → Type 0
Ascending [] = Unit
Ascending (d ∷ ds) = All (λ x. d < x) ds × Ascending ds

All-first : {A : Type 0} (P : A → Type 0) (xs ys : List A) → All P (xs ++ ys) → All P xs × All P ys
All-first P [] ys h = (tt, h)
All-first P (x ∷ xs) ys (h, hs) = let (a, b) = All-first P xs ys hs in ((h, a), b)

select_none :
    {A : Type 0} (p : A → Bool) (xs : List A) → All (λ x. p x ≡ false) xs → select p xs ≡ []
select_none p [] h = refl
select_none p (x ∷ xs) (h, hs) = rw h (select_none p xs hs)

select_whole :
    {A : Type 0} (p : A → Bool) (xs : List A) → All (λ x. p x ≡ true) xs → select p xs ≡ xs
select_whole p [] h = refl
select_whole p (x ∷ xs) (h, hs) = rw h (ap (λ ys. x ∷ ys) (select_whole p xs hs))

not_after_later :
    (o : Option ℕ) (e d : ℕ) → is_after o d ≡ false → is_after (later_of e o) d ≡ false
not_after_later o e d h = ground arith

All-not_after_later :
    (o : Option ℕ) (e : ℕ) (ds : List ℕ)
    → All (λ d. is_after o d ≡ false) ds
    → All (λ d. is_after (later_of e o) d ≡ false) ds
All-not_after_later o e [] h = tt
All-not_after_later o e (d ∷ ds) (h, hs) = (not_after_later o e d h, All-not_after_later o e ds hs)

none_after_last : (ds : List ℕ) → All (λ d. is_after (last_day ds) d ≡ false) ds
unfolding last_day
none_after_last [] = tt
none_after_last (d ∷ ds) =
    (ground arith, All-not_after_later (last_day ds) d ds (none_after_last ds))

after_last : (ds : List ℕ) (y : ℕ) → All (λ d. d < y) ds → is_after (last_day ds) y ≡ true
unfolding last_day
after_last [] y h = refl
after_last (d ∷ ds) y (h, hs) = ground (arith, after_last ds y hs)

-- The days of an ascending list's first part are all before the days of its second.
All-before : (xs : List ℕ) (y : ℕ) (ys : List ℕ) → Ascending (xs ++ y ∷ ys) → All (λ d. d < y) xs
All-before [] y ys h = tt
All-before (x ∷ xs) y ys (h, hs) =
    ((All-first (λ z. x < z) xs (y ∷ ys) h).1.0, All-before xs y ys hs)

Ascending-second : (xs ys : List ℕ) → Ascending (xs ++ ys) → Ascending ys
Ascending-second [] ys h = h
Ascending-second (x ∷ xs) ys (h, hs) = Ascending-second xs ys hs

All-is_after :
    (o : Option ℕ) (y : ℕ) (ys : List ℕ)
    → is_after o y ≡ true
    → All (λ z. y < z) ys
    → All (λ z. is_after o z ≡ true) ys
All-is_after o y [] h k = tt
All-is_after o y (z ∷ zs) h (k, ks) = (ground arith, All-is_after o y zs h ks)

rest_after_last :
    (xs ys : List ℕ) → Ascending (xs ++ ys) → All (λ y. is_after (last_day xs) y ≡ true) ys
rest_after_last xs [] h = tt
rest_after_last xs (y ∷ ys) h =
    let now = after_last xs y (All-before xs y ys h) in
    (now, All-is_after (last_day xs) y ys now (Ascending-second xs (y ∷ ys) h).0)

resume_days-rest :
    (xs ys : List ℕ) → Ascending (xs ++ ys) → resume_days (last_day xs) (xs ++ ys) ≡ ys
unfolding resume_days
resume_days-rest xs ys h =
    select-append (is_after (last_day xs)) xs ys
    ∙ ap (λ zs. zs ++ select (is_after (last_day xs)) ys) (select_none _ xs (none_after_last xs))
    ∙ select_whole _ ys (rest_after_last xs ys h)

module _ (store : ℤ → Option ℤ) (market : Symbol → ℕ → Market) (bps : ℕ) (fill_at_open : Bool)
    (backtest_id : ℕ) (symbols : List Symbol) where
  -- The run with no spending cap.
  abbrev pub uncapped : ℕ → List ℕ → Database → Database × Bool
  uncapped = run_days store market bps fill_at_open backtest_id (λ n. false) symbols

  abbrev a_day : ℕ → Database → Result BacktestError Database
  a_day = run_day store market bps fill_at_open backtest_id symbols

  no_cap : (n : ℕ) → (ltb 0 n && false) ≡ false
  no_cap n = ground arith

  -- Without a cap the count of the days before does not matter.
  uncapped-count : (n m : ℕ) (ds : List ℕ) (db : Database) → uncapped n ds db ≡ uncapped m ds db
  unfolding run_days
  uncapped-count n m [] db = refl
  uncapped-count n m (d ∷ ds) db = elim (Result-cases (a_day d db)) [
    | inr (e, h) ↦
        days-raise store market bps fill_at_open backtest_id (λ k. false) symbols n d ds db
          (no_cap n) h
        ∙ sym (
            days-raise store market bps fill_at_open backtest_id (λ k. false) symbols m d ds db
              (no_cap m) h)
    | inl (db', h) ↦
        days-go store market bps fill_at_open backtest_id (λ k. false) symbols n d ds db (no_cap n)
          h
        ∙ uncapped-count (n + 1) (m + 1) ds db'
        ∙ sym (
            days-go store market bps fill_at_open backtest_id (λ k. false) symbols m d ds db
              (no_cap m) h)
  ]

  -- What a run has done when it stops: some first days, all of them finished, and an uncapped run over
  -- the rest ends as one over them all.
  pub record Paused (over_cap : ℕ → Bool) (n : ℕ) (ds : List ℕ) (db end : Database) : Type 0 where
    pub first : List ℕ
    pub rest : List ℕ
    pub parts : first ++ rest ≡ ds
    pub finished : end.finished_days ≡ db.finished_days ++ first
    pub goes_on : (m k : ℕ) → uncapped m rest end ≡ uncapped k ds db

  here :
      (over_cap : ℕ → Bool) (n d : ℕ) (ds : List ℕ) (db : Database)
      → Paused over_cap n (d ∷ ds) db db
  here over_cap n d ds db = record {
    first = [];
    rest = d ∷ ds;
    parts = refl;
    finished = sym (append-nil db.finished_days);
    goes_on = λ m k. uncapped-count m k (d ∷ ds) db;
  }

  run_days-Paused :
      (over_cap : ℕ → Bool) (n : ℕ) (ds : List ℕ) (db : Database)
      → Paused over_cap n ds db
          (run_days store market bps fill_at_open backtest_id over_cap symbols n ds db).0
  unfolding run_days
  run_days-Paused over_cap n [] db = record {
    first = [];
    rest = [];
    parts = refl;
    finished = sym (append-nil db.finished_days);
    goes_on = λ m k. refl;
  }
  run_days-Paused over_cap n (d ∷ ds) db = elim (Bool-cases (ltb 0 n && over_cap n)) [
    | inl stop ↦
        subst (λ r. Paused over_cap n (d ∷ ds) db r.0)
          (sym
            (days-stop store market bps fill_at_open backtest_id over_cap symbols n d ds db stop))
          (here over_cap n d ds db)
    | inr go ↦ elim (Result-cases (a_day d db)) [
      | inr (e, h) ↦
          subst (λ r. Paused over_cap n (d ∷ ds) db r.0)
            (sym (
              days-raise store market bps fill_at_open backtest_id over_cap symbols n d ds db go h))
            (here over_cap n d ds db)
      | inl (db', h) ↦
          (let r = run_days-Paused over_cap (n + 1) ds db' in
            subst (λ r. Paused over_cap n (d ∷ ds) db r.0)
              (sym
                (days-go store market bps fill_at_open backtest_id over_cap symbols n d ds db go h))
              (record {
                first = d ∷ r.first;
                rest = r.rest;
                parts = ap (λ xs. d ∷ xs) r.parts;
                finished =
                    r.finished
                    ∙ ap (λ xs. xs ++ r.first)
                        (run_day-finished store market bps fill_at_open backtest_id symbols d db h)
                    ∙ append_assoc db.finished_days (d ∷ []) r.first;
                goes_on = λ m k.
                    r.goes_on m (k + 1)
                    ∙ sym (
                        days-go store market bps fill_at_open backtest_id (λ j. false) symbols k d
                          ds db (no_cap k) h);
              }))
    ]
  ]

  -- A run over the days that are left of an ascending list, stopped by the cap or by an exception and
  -- then resumed after its last finished day without a cap, ends as the uncapped run that was never
  -- stopped: with the same database, and finished or not alike.
  pub resume_continues :
      (over_cap : ℕ → Bool) (trading_days ds : List ℕ) (db : Database)
      → Ascending trading_days
      → db.finished_days ++ ds ≡ trading_days
      → let stopped =
          (run_days store market bps fill_at_open backtest_id over_cap symbols 0 ds db).0 in
        uncapped 0 (resume_days (last_day stopped.finished_days) trading_days) stopped
        ≡ uncapped 0 ds db
  resume_continues over_cap trading_days ds db ascending split =
      let r = run_days-Paused over_cap 0 ds db in
      let stopped =
        (run_days store market bps fill_at_open backtest_id over_cap symbols 0 ds db).0 in
      let whole : stopped.finished_days ++ r.rest ≡ trading_days =
        ap (λ xs. xs ++ r.rest) r.finished
        ∙ append_assoc db.finished_days r.first r.rest
        ∙ ap (λ xs. db.finished_days ++ xs) r.parts
        ∙ split in
      let left : resume_days (last_day stopped.finished_days) trading_days ≡ r.rest =
        ap (resume_days (last_day stopped.finished_days)) (sym whole)
        ∙ resume_days-rest stopped.finished_days r.rest (subst Ascending (sym whole) ascending) in
      ap (λ xs. uncapped 0 xs stopped) left ∙ r.goes_on 0 0
