-- ===== src/Llm/Tests.antt =====
-- Models and prices on small inputs.
use paper_trading_agent.Base.{◌≡◌, refl, false, none, some, [], ◌∷◌, codes, same_text, ok}
use paper_trading_agent.Llm.{
  Environment, portfolio_manager, explainer, model_name, default_llm, chat_anthropic, best_match,
  starts_with, Usage, usage_cost_usd,
}

-- LLM_PROVIDER=" Anthropic" with a model of its own for the explainer.
abbrev env : Environment
env = record {
  llm_provider = some (codes " Anthropic");
  portfolio_model = some [];
  sentiment_model = none;
  explainer_model = some (codes "claude-opus-5-5");
  judge_model = none;
}

env_models : model_name env portfolio_manager ≡ ok (codes "claude-sonnet-5-5")
unfolding model_name same_text
env_models = refl

env_explainer :
    default_llm env explainer ≡ ok (chat_anthropic (codes "claude-opus-5-5") false false)
unfolding default_llm same_text starts_with
env_explainer = refl

abbrev haiku_usage : Usage
haiku_usage =
    (
      codes "claude-haiku-4-5-20251001",
      record { input_tokens = 2_000; output_tokens = 300; total_tokens = 2_300 },
    )
    ∷ []

haiku_costs : usage_cost_usd haiku_usage ≡ ok 3_500
unfolding usage_cost_usd best_match
haiku_costs = refl
