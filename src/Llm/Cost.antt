-- ===== src/Llm/Cost.antt =====
-- usage_cost_usd of app/agent/llm.py and _add_usage of app/agent/backtest.py: what tokens cost, and their sums.
use paper_trading_agent.Base.{
  ℕ, ◌+◌, ◌≡◌, refl, ap, ◌∙◌, ◌⊎◌, inl, inr, Option, none, some, [], ◌∷◌, Option-cases, Text, All,
  ok, err, arith,
}
use paper_trading_agent.Llm.{
  Price, prices_per_mtok, best_match, Tokens, Usage, tokens_cost, no_price, cost_from,
  usage_cost_usd,
}

-- A model with a price.
abbrev pub IsPriced : Text × Tokens → Type 0
IsPriced (model, t) = (found : Text × Price) × (best_match model prices_per_mtok ≡ some found)

abbrev pub price_or : Option (Text × Price) → Tokens → ℕ
price_or none t = 0
price_or (some found) t = tokens_cost found.1 t

-- The sum of the costs of all models that have a price.
abbrev pub priced_cost : Usage → ℕ
priced_cost [] = 0
priced_cost ((model, t) ∷ usage) = price_or (best_match model prices_per_mtok) t + priced_cost usage

cost_from-known :
    (total : ℕ) (usage : Usage)
    → All IsPriced usage
    → cost_from total usage ≡ ok (total + priced_cost usage)
unfolding cost_from
cost_from-known total [] h = ap ok (omega arith)
cost_from-known total ((model, t) ∷ usage) ((found, e), hs) =
    rw e (cost_from-known (total + tokens_cost found.1 t) usage hs ∙ ap ok (omega arith))

unpriced-fails :
    (total : ℕ) (usage : Usage)
    → (All IsPriced usage)
      ⊎ ((model : Text) × (best_match model prices_per_mtok ≡ none)
          × (cost_from total usage ≡ err (no_price model)))
unfolding cost_from
unpriced-fails total [] = inl tt
unpriced-fails total ((model, t) ∷ usage) = elim (Option-cases (best_match model prices_per_mtok)) [
  | inl e ↦ inr (model, e, rw e refl)
  | inr (found, e) ↦ elim (unpriced-fails (total + tokens_cost found.1 t) usage) [
    | inl hs ↦ inl ((found, e), hs)
    | inr (m, f, raised) ↦ inr (m, f, rw e raised)
  ]
]

-- A usage whose models all have a price costs the sum of its models' costs; any other raises for a model
-- that has none.
usage_cost_usd_lem :
    (usage : Usage)
    → (All IsPriced usage × (usage_cost_usd usage ≡ ok (priced_cost usage)))
      ⊎ ((model : Text) × (best_match model prices_per_mtok ≡ none)
          × (usage_cost_usd usage ≡ err (no_price model)))
unfolding usage_cost_usd
usage_cost_usd_lem usage = elim (unpriced-fails 0 usage) [
  | inl h ↦ inl (h, cost_from-known 0 usage h ∙ ap ok (omega arith))
  | inr failed ↦ inr failed
]
