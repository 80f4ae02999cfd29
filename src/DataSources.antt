-- ===== src/DataSources.antt =====
-- bars_closed_before of app/agent/data_sources.py: the guard against bars of a session that is not over.
-- Times are whole numbers. `ny_day` is the New York date of an instant and `session_close` the instant of
-- 16:00 New York time on a date, both from Python's zoneinfo. A bar's `open` is `open_price`.
pub mod Headlines
pub mod Alpaca
pub mod OpenPrices
mod Tests
use paper_trading_agent.Base.{
  ℕ, ◌≤◌, ◌<◌, ◌≡◌, inl, inr, Bool, true, List, [], ◌∷◌, ◌++◌, leb, if◌then◌else◌, Bool-cases, All,
  count_if, Text, arith,
}

pub record PriceBar : Type 0 where
  pub symbol : Text
  pub timestamp : ℕ
  pub open_price : ℕ
  pub high : ℕ
  pub low : ℕ
  pub close : ℕ
  pub volume : ℕ

module _ (ny_day : ℕ → ℕ) (session_close : ℕ → ℕ) where
  abbrev pub is_over : ℕ → PriceBar → Bool
  is_over as_of bar = leb (session_close (ny_day bar.timestamp)) as_of

  unfoldable pub bars_closed_before : List PriceBar → ℕ → List PriceBar
  bars_closed_before [] as_of = []
  bars_closed_before (bar ∷ bars) as_of =
      let kept = bars_closed_before bars as_of in if is_over as_of bar then bar ∷ kept else kept

  module _ (later_closes_later : (a b : ℕ) → a ≤ b → session_close a ≤ session_close b) where
    -- A decision before 16:00 New York time of its own day sees bars of earlier days only, and sees every
    -- bar whose day's 16:00 New York time is not after it; that of a later day must not be earlier.
    pub bars_closed_before_lem :
        (bars : List PriceBar) (as_of : ℕ)
        → as_of < session_close (ny_day as_of)
        → All (λ bar. ny_day bar.timestamp < ny_day as_of) (bars_closed_before bars as_of)
          × (count_if
                (λ bar. leb (session_close (ny_day bar.timestamp)) as_of)
                (bars_closed_before bars as_of)
              ≡ count_if (λ bar. leb (session_close (ny_day bar.timestamp)) as_of) bars)
    unfolding bars_closed_before
    bars_closed_before_lem [] as_of h = (tt, omega arith)
    bars_closed_before_lem (bar ∷ bars) as_of h =
        let (earlier, all_kept) = bars_closed_before_lem bars as_of h in
        elim (Bool-cases (is_over as_of bar)) [
          | inl over ↦
              (let before : ny_day bar.timestamp < ny_day as_of =
                  ground (arith, later_closes_later (ny_day as_of) (ny_day bar.timestamp)) in
                rw over ((before, earlier), ground arith))
          | inr running ↦ rw running (earlier, ground arith)
        ]
