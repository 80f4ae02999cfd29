-- ===== src/DecisionGraph/Tests.antt =====
-- A run of the decision graph with an explainer, in which the sentiment analyst's update is merged first.
use mathlib.Core.Option.{some-injective}
use paper_trading_agent.Base.{
  ℕ, ◌≡◌, refl, ◌≢◌, subst, ◌≤ℤ◌, none, some, List, [], ◌∷◌, pos, negsuc, codes, ok, same_text,
  ◌+ℤ◌, ◌-ℤ◌, ◌≤◌, ◌⊎◌, OnEnd, err, int_laws, true,
}
use paper_trading_agent.State.{buy, Symbol, TentativeDecision}
use paper_trading_agent.DataSources.{PriceBar}
use paper_trading_agent.DataSources.Headlines.{HeadlineRow}
use paper_trading_agent.Positions.{Position}
use paper_trading_agent.SentimentAnalyst.{score, sentiment_analyst, scored_opinion, validated}
use paper_trading_agent.PortfolioManager.{portfolio_manager}
use paper_trading_agent.RiskMath.{simple_returns, simple_return, historical_var}
use paper_trading_agent.RiskManager.{v1_rules, apply_budget}
use paper_trading_agent.RiskManager.Figures.{node_figures}
use paper_trading_agent.RiskManager.Node.{risk_manager, priced_ruling, flag_others, others_held}
use paper_trading_agent.Trace.Json.{null, nil}
use paper_trading_agent.Explainer.Retrieval.{recent}
use paper_trading_agent.Explainer.{triggered}
use paper_trading_agent.DecisionGraph.{
  missing_key, has_explainer, ExplainerNode, Dependencies, Node, technical_node, sentiment_node,
  portfolio_node, risk_node, explainer_node, run_node, run_explainer, tell_explainer,
}
use paper_trading_agent.DecisionGraph.Runs.{
  Progress, begin_at, initial, Runs, begins, superstep, run_all, next_of, decide, after,
}
use paper_trading_agent.DecisionGraph.Order.{decision_graph_confluent, decision_graph_progress}
use paper_trading_agent.DecisionGraph.Limit.{
  ProposesNatural, FinalInLimit, decision_graph_keeps_limit,
}

abbrev aapl : Symbol
aapl = codes "AAPL"

abbrev bar_at : ℕ → ℕ → PriceBar
bar_at day close = record {
  symbol = aapl;
  timestamp = day;
  open_price = close;
  high = close;
  low = close;
  close = close;
  volume = 1;
}

abbrev news : HeadlineRow
news = record {
  id = pos 1;
  symbol = aapl;
  published_at = 6;
  headline = codes "Up";
  source = codes "wire";
}

abbrev fifteen : Position
fifteen = record { symbol = aapl; quantity = 15; avg_entry_price = pos 900_000; opened_at = 2 }

abbrev buy_ten : TentativeDecision
buy_ten = record { action = buy; quantity = pos 10 }

-- A retriever by date only, and a model whose replies are never read.
abbrev news_only : ExplainerNode
news_only = record {
  ny_midnight = λ d. d;
  ts_rank = λ q h. 0;
  score_text = λ n. [];
  iso = λ d. [];
  iso_time = λ t. [];
  day_of = λ t. 0;
  structured = λ v. none;
  method = recent;
  own_terms = none;
  stored_headlines = news ∷ [];
  prompt = λ t r raw. [];
  answer = λ messages. record {
    content = null;
    tool_calls = nil;
    input_tokens = none;
    output_tokens = none;
    model_name = none;
  };
}

abbrev deps : Dependencies
deps = record {
  ny_day = λ t. t;
  bars_of = λ as_of s days. bar_at 4 100 ∷ bar_at 5 102 ∷ bar_at 6 99 ∷ [];
  headlines_of = λ s as_of. news ∷ [];
  list_positions = λ s. fifteen ∷ [];
  mode = score;
  scores = λ headlines. some (record {
    tone = record { num = negsuc 0; den_pred = 3 };
    confidence = record { num = pos 1; den_pred = 1 };
  });
  votes = λ headlines. none;
  portfolio_model = λ s t o. some buy_ten;
  explainer = some news_only;
}

-- The sentiment analyst first.
whole :
    (p : Progress) × Runs deps aapl 7 4 p
    × (next_of deps p ≡ [])
    × (p.state.final_action ≡ some buy)
    × (p.state.final_quantity ≡ some (pos 5))
unfolding run_all run_node sentiment_analyst scored_opinion validated portfolio_manager risk_manager
    priced_ruling node_figures simple_returns simple_return flag_others others_held run_explainer
    tell_explainer triggered v1_rules apply_budget historical_var same_text ◌+ℤ◌ ◌-ℤ◌
whole = (
  _,
  superstep (explainer_node ∷ [])
      (superstep (risk_node ∷ [])
        (superstep (portfolio_node ∷ [])
          (superstep (sentiment_node ∷ technical_node ∷ []) begins (λ h. cc) refl refl) (λ h. cc)
          refl refl)
        (λ h. cc) refl refl)
      (λ h. cc) refl refl,
  refl,
  refl,
  refl,
)

decision_graph_confluent_example : decide deps aapl 7 ≡ ok whole.0.state
decision_graph_confluent_example = decision_graph_confluent deps aapl 7 whole.1 whole.2

abbrev first_order : List Node
first_order = sentiment_node ∷ technical_node ∷ []

decision_graph_progress_example :
    ((0 ≤ 3) ⊎ ((◌≡◌ {A = ℕ} 0 4) × (has_explainer deps ≡ true)))
    × ((next_of deps (begin_at aapl 7) ≡ [])
        ⊎ OnEnd
            (λ e. (decide deps aapl 7 ≡ err e) × (e ≢ missing_key))
            (λ updates. Runs deps aapl 7 1 (after deps first_order updates (begin_at aapl 7)))
            (run_all deps first_order (initial aapl 7)))
decision_graph_progress_example = decision_graph_progress deps aapl 7 first_order begins refl

deps-ProposesNatural : ProposesNatural deps
deps-ProposesNatural symbol t s d h =
    subst (λ (x : TentativeDecision). pos 0 ≤ℤ x.quantity) (some-injective _ _ h) (omega int_laws)

decision_graph_keeps_limit_example : FinalInLimit 15 whole.0.state
decision_graph_keeps_limit_example =
    decision_graph_keeps_limit deps aapl 7 deps-ProposesNatural (omega int_laws) whole.1 whole.2
