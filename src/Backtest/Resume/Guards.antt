-- ===== src/Backtest/Resume/Guards.antt =====
-- What _start_resume of app/agent/backtest.py refuses, and what it leaves of a backtest that it resumes.
use paper_trading_agent.Base.{
  ℕ, ◌≤◌, ◌<◌, ◌≡◌, ◌≢◌, Option, none, some, List, [], All, ◌==◌, count_if,
}
use paper_trading_agent.Backtest.Resume.{Setting, RunConfig, success, BacktestRow, RunRow}

-- The day is the latest of the runs' days; there is none where there are no runs.
abbrev pub IsLatest : List RunRow → Option ℕ → Type 0
IsLatest runs none = runs ≡ []
IsLatest runs (some d) =
    All (λ r. r.day ≤ d) runs × (0 < count_if (λ (r : RunRow). r.day == d) runs)

-- The backtest is unfinished, has the same window and the same value of every setting that must match, and
-- each of its days is whole.
pub record CanResume (row : BacktestRow) (runs : List RunRow) (window_start window_end : ℕ)
    (config : RunConfig) : Type 0 where
  pub unfinished_row : row.status ≢ success
  pub same_start : row.window_start ≡ window_start
  pub same_end : row.window_end ≡ window_end
  pub same_settings : (k : Setting) → row.config.settings k ≡ config.settings k
  pub whole_days : All (λ r. r.run_status ≡ success) runs

module _ (row : BacktestRow) (runs : List RunRow) (window_start window_end : ℕ) (config : RunConfig)
    (now : ℕ) where
  abbrev Can : Type 0
  Can = CanResume row runs window_start window_end config
