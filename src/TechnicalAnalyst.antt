-- ===== src/TechnicalAnalyst.antt =====
-- app/agent/technical_analyst.py: the call on a symbol from its recent closes. Confidence is in hundredths;
-- the reasoning text is left out. The bars come from the price source, an argument.
mod Tests
use paper_trading_agent.Base.{
  ℕ, suc, ◌+◌, ◌≤◌, ◌<◌, ◌≡◌, ◌≢◌, ◌↔◌, ◌⊎◌, inl, inr, refl, Bool, true, not, ◌&&◌, Option, none,
  some, List, [], ◌∷◌, if◌then◌else◌, length, Option-cases, Bool-cases, ltb, pos, arith,
}
use paper_trading_agent.Numbers.Ratio.{Ratio, leb_R, ◌≤R◌}
use paper_trading_agent.State.{Action, buy, sell, hold}
use paper_trading_agent.Indicators.{sma, rsi}
use paper_trading_agent.Indicators.Bounds.{whole, sma_exists, rsi_bounds}

-- The opinion, its confidence and `raw_output["current_price"]`.
pub record TechnicalOpinion : Type 0 where
  pub call : Action
  pub confidence : Option ℕ
  pub current_price : Option ℕ

abbrev pub opinion_of : Action → ℕ → ℕ → TechnicalOpinion
opinion_of call confidence price = record {
  call = call;
  confidence = some confidence;
  current_price = some price;
}

abbrev pub too_few : TechnicalOpinion
too_few = record { call = hold; confidence = none; current_price = none }

-- `a > b`
abbrev pub above : Ratio → Ratio → Bool
above a b = not (leb_R a b)

-- `closes[-1]`, where there is one.
abbrev pub last_close : ℕ → List ℕ → ℕ
last_close c [] = c
last_close c (d ∷ cs) = last_close d cs

unfoldable pub judge : Ratio → Ratio → ℕ → TechnicalOpinion
judge rsi_14 sma_20 price =
    if above (whole 30) rsi_14 && above (whole price) sma_20
    then opinion_of buy 65 price
    else if above rsi_14 (whole 70)
    then opinion_of sell 60 price
    else if above (whole price) sma_20
    then opinion_of buy 55 price
    else opinion_of hold 50 price

unfoldable pub technical_analyst : List ℕ → TechnicalOpinion
technical_analyst [] = too_few
technical_analyst (c ∷ cs) = elim (rsi (c ∷ cs) 14) [
  | none ↦ too_few
  | some rsi_14 ↦ elim (sma (c ∷ cs) 20) [
    | none ↦ too_few
    | some sma_20 ↦ judge rsi_14 sma_20 (last_close c cs)
  ]
]

-- What a judgement rests on: its RSI and its moving average.
judge_lem :
    (rsi_14 sma_20 : Ratio) (price : ℕ)
    → let o = judge rsi_14 sma_20 price in
      ((o.call ≢ sell) ⊎ (above rsi_14 (whole 70) ≡ true))
      × ((o.call ≢ buy) ⊎ (above (whole price) sma_20 ≡ true))
      × (o.current_price ≡ some price)
unfolding judge
judge_lem rsi_14 sma_20 price = ground arith

technical_analyst-judge :
    (c : ℕ) (cs : List ℕ) {rsi_14 sma_20 : Ratio}
    → rsi (c ∷ cs) 14 ≡ some rsi_14
    → sma (c ∷ cs) 20 ≡ some sma_20
    → technical_analyst (c ∷ cs) ≡ judge rsi_14 sma_20 (last_close c cs)
unfolding technical_analyst
technical_analyst-judge c cs h k = ground arith

technical_analyst-too_few :
    (c : ℕ) (cs : List ℕ)
    → (rsi (c ∷ cs) 14 ≡ none) ⊎ (sma (c ∷ cs) 20 ≡ none)
    → technical_analyst (c ∷ cs) ≡ too_few
unfolding technical_analyst
technical_analyst-too_few c cs h = ground arith

-- With 20 closes or more the price is the last close, a SELL has an RSI above 70 and a BUY a price above
-- the moving average; with fewer the call is a HOLD without a price.
pub technical_analyst_lem :
    (c : ℕ) (cs : List ℕ)
    → let o = technical_analyst (c ∷ cs) in
      ((length (c ∷ cs) < 20) × (o ≡ too_few))
      ⊎ ((20 ≤ length (c ∷ cs))
          × ((rsi_14 : Ratio) × (sma_20 : Ratio) × (rsi (c ∷ cs) 14 ≡ some rsi_14)
              × (sma (c ∷ cs) 20 ≡ some sma_20)
              × ((o.call ≢ sell) ⊎ (above rsi_14 (whole 70) ≡ true))
              × ((o.call ≢ buy) ⊎ (above (whole (last_close c cs)) sma_20 ≡ true))
              × (o.current_price ≡ some (last_close c cs))))
technical_analyst_lem c cs = elim (sma_exists (c ∷ cs) 19) [
  | inl (few, missing) ↦ inl (omega arith, technical_analyst-too_few c cs (inr missing))
  | inr (many, (sma_20, average)) ↦ elim (rsi_bounds (c ∷ cs) 13) [
    | inl (short, missing) ↦ absurd (omega arith)
    | inr (long, (rsi_14, index, low, high)) ↦
        (let (sells, buys, price) = judge_lem rsi_14 sma_20 (last_close c cs) in
          let same = technical_analyst-judge c cs index average in
          inr (
            omega arith,
            (rsi_14, sma_20, index, average, rw same sells, rw same buys, rw same price),
          ))
  ]
]
