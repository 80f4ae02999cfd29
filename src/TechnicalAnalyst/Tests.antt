-- ===== src/TechnicalAnalyst/Tests.antt =====
-- The technical analyst on a falling and then flat history.
use paper_trading_agent.Base.{ℕ, ◌≤◌, ◌<◌, ◌≡◌, ◌≢◌, ◌⊎◌, true, some, List, ◌∷◌, length, replicate}
use paper_trading_agent.Numbers.Ratio.{Ratio}
use paper_trading_agent.State.{buy, sell}
use paper_trading_agent.Indicators.{sma, rsi}
use paper_trading_agent.Indicators.Bounds.{whole}
use paper_trading_agent.TechnicalAnalyst.{
  technical_analyst, too_few, above, last_close, technical_analyst_lem,
}

abbrev flat : List ℕ
flat = replicate 24 10

technical_analyst_lem_example :
    let o = technical_analyst (12 ∷ flat) in
    ((length (12 ∷ flat) < 20) × (o ≡ too_few))
    ⊎ ((20 ≤ length (12 ∷ flat))
        × ((rsi_14 : Ratio) × (sma_20 : Ratio) × (rsi (12 ∷ flat) 14 ≡ some rsi_14)
            × (sma (12 ∷ flat) 20 ≡ some sma_20)
            × ((o.call ≢ sell) ⊎ (above rsi_14 (whole 70) ≡ true))
            × ((o.call ≢ buy) ⊎ (above (whole (last_close 12 flat)) sma_20 ≡ true))
            × (o.current_price ≡ some (last_close 12 flat))))
technical_analyst_lem_example = technical_analyst_lem 12 flat
