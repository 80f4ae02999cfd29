-- ===== src/Explainer/Tests.antt =====
-- The explainer's trigger and its check of citations on small inputs.
use paper_trading_agent.Base.{◌≡◌, ◌↔◌, [], ◌∷◌, map, pos, All}
use paper_trading_agent.Explainer.{ExplanationCall, Retrieved, validate}
use paper_trading_agent.Explainer.Grounding.{Cites, Covered, validate_iff_grounded}

-- Two days, with headlines 12 and 13 for the first and 21 for the second.
abbrev two_days : Retrieved
two_days = (49 ∷ [], pos 12 ∷ pos 13 ∷ []) ∷ (50 ∷ [], pos 21 ∷ []) ∷ []

abbrev crossed : ExplanationCall
crossed = record {
  summary = [];
  drivers =
      record { date = 49 ∷ []; cause = []; headline_ids = pos 12 ∷ [] }
      ∷ record { date = 50 ∷ []; cause = []; headline_ids = pos 13 ∷ [] }
      ∷ [];
}

validate_iff_grounded_example : ((validate crossed two_days).1 ≡ []) ↔ (
    All (Cites two_days) crossed.drivers × All (Covered crossed.drivers) (map (λ r. r.0) two_days))
validate_iff_grounded_example = validate_iff_grounded crossed two_days
