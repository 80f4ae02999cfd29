-- ===== src/Backtest/Resume.antt =====
-- Resuming an interrupted backtest: _start_resume of app/agent/backtest.py, and the days that a resumed
-- run goes through. `date.min`, before every day, is `none`.
pub mod Continues
pub mod Guards
use paper_trading_agent.Base.{
  ℕ, zero, suc, ◌+◌, ◌≤◌, ◌<◌, max, ◌≡◌, ◌≢◌, refl, ap, sym, ◌∙◌, subst, inl, inr, Bool, true,
  false, not, ◌&&◌, ◌||◌, Option, none, some, List, [], ◌∷◌, ◌++◌, ltb, ◌==◌, if◌then◌else◌,
  Bool-cases, ℤ, Text, same_text, select, All, Result, Result-cases, ok, err, ◌>>=◌, arith,
}
use paper_trading_agent.State.{Symbol}
use paper_trading_agent.Llm.{Usage}
use paper_trading_agent.Backtest.{Market, Database, BacktestError, run_day, run_days}

-- RESUME_MUST_MATCH
pub data Setting : Type 0 where
  symbols llm models sentiment_mode no_sentiment_ablation : Setting
  risk_node slippage_bps fill calendar explainer : Setting

abbrev pub resume_must_match : List Setting
resume_must_match =
    symbols ∷ llm ∷ models ∷ sentiment_mode ∷ no_sentiment_ablation ∷ risk_node ∷ slippage_bps
    ∷ fill ∷ calendar ∷ explainer ∷ []

pub data RunStatus : Type 0 where
  running failed success : RunStatus

abbrev pub is_unfinished : RunStatus → Bool
is_unfinished success = false
is_unfinished _ = true

-- An entry of config.resumes.
pub record Resume : Type 0 where
  pub after_day : Option ℕ
  pub resumed_at : ℕ
  pub git_commit : Option Text
  pub git_dirty : Option Text
  pub llm_usage_before : Option Usage

-- The column `config`; a setting's value is the text of its JSON.
pub record StoredConfig : Type 0 where
  pub settings : Setting → Option Text
  pub resumes : List Resume

-- A row of `backtests`.
pub record BacktestRow : Type 0 where
  pub window_start : ℕ
  pub window_end : ℕ
  pub status : RunStatus
  pub finished_at : Option ℕ
  pub llm_usage : Option Usage
  pub config : StoredConfig

-- `jsonb_set(config, '{resumes}', …)`
abbrev pub with_resume : Resume → StoredConfig → StoredConfig
with_resume resume c = record c { resumes = c.resumes ++ resume ∷ [] }

-- What a run is given as `config`.
pub record RunConfig : Type 0 where
  pub settings : Setting → Option Text
  pub git_commit : Option Text
  pub git_dirty : Option Text

-- A row of `runs`.
pub record RunRow : Type 0 where
  pub day : ℕ
  pub run_status : RunStatus

abbrev pub same_value : Option Text → Option Text → Bool
same_value none none = true
same_value none (some b) = false
same_value (some a) none = false
same_value (some a) (some b) = same_text a b

unfoldable pub mismatched :
    (Setting → Option Text) → (Setting → Option Text) → List Setting → List Setting
mismatched stored config [] = []
mismatched stored config (k ∷ ks) =
    let rest = mismatched stored config ks in
    if same_value (stored k) (config k) then rest else k ∷ rest

-- count(*) FILTER (WHERE status <> 'SUCCESS')
unfoldable pub unfinished : List RunRow → ℕ
unfinished [] = 0
unfinished (r ∷ rs) = (if is_unfinished r.run_status then 1 else 0) + unfinished rs

abbrev pub later_of : ℕ → Option ℕ → Option ℕ
later_of d none = some d
later_of d (some e) = some (max d e)

-- max(as_of)
unfoldable pub last_day : List ℕ → Option ℕ
last_day [] = none
last_day (d ∷ ds) = later_of d (last_day ds)

unfoldable pub days_of : List RunRow → List ℕ
days_of [] = []
days_of (r ∷ rs) = r.day ∷ days_of rs

pub data ResumeError : Type 0 where
  no_backtest not_unfinished other_window partly_written : ResumeError
  settings_differ : List Setting → ResumeError

-- The row after the UPDATE.
abbrev pub reopened_row : BacktestRow → Option ℕ → RunConfig → ℕ → BacktestRow
reopened_row row last config now = record row {
  status = running;
  finished_at = none;
  config =
      with_resume
        (record {
          after_day = last;
          resumed_at = now;
          git_commit = config.git_commit;
          git_dirty = config.git_dirty;
          llm_usage_before = row.llm_usage;
        })
        row.config;
}

-- `now` is the clock's reading.
unfoldable pub start_resume :
    Option BacktestRow
    → List RunRow
    → ℕ
    → ℕ
    → RunConfig
    → ℕ
    → Result ResumeError (BacktestRow × Option ℕ)
start_resume none runs window_start window_end config now = err no_backtest
start_resume (some row) runs window_start window_end config now =
    let differing = mismatched row.config.settings config.settings resume_must_match in
    if not (is_unfinished row.status)
    then err not_unfinished
    else if not (row.window_start == window_start && row.window_end == window_end)
    then err other_window
    else elim differing [
      | k ∷ ks ↦ err (settings_differ (k ∷ ks))
      | [] ↦
          if ltb 0 (unfinished runs)
          then err partly_written
          else (let last = last_day (days_of runs) in ok (reopened_row row last config now, last))
    ]

abbrev pub is_after : Option ℕ → ℕ → Bool
is_after none d = true
is_after (some last) d = ltb last d

-- `[d for d in trading_days if d > last_done]`
unfoldable pub resume_days : Option ℕ → List ℕ → List ℕ
resume_days last trading_days = select (is_after last) trading_days
