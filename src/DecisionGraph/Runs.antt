-- ===== src/DecisionGraph/Runs.antt =====
-- The run of the graph that app/agent/graph.py compiles, as supersteps, and the same decision written as a
-- straight line.
use paper_trading_agent.Base.{
  ℕ, suc, ◌≡◌, ◌≢◌, Bool, true, false, ◌&&◌, ◌||◌, Option, none, some, List, [], ◌∷◌, length, ◌==◌,
  if◌then◌else◌, Result, ok, ◌>>=◌,
}
use paper_trading_agent.State.{Symbol}
use paper_trading_agent.TechnicalAnalyst.{TechnicalOpinion, technical_analyst}
use paper_trading_agent.SentimentAnalyst.{SentimentOpinion, sentiment_analyst}
use paper_trading_agent.PortfolioManager.{Proposal, portfolio_manager}
use paper_trading_agent.RiskManager.Figures.{closes_of}
use paper_trading_agent.RiskManager.Node.{RiskReply, risk_manager}
use paper_trading_agent.Explainer.Node.{RiskExplanation}
use paper_trading_agent.DecisionGraph.{
  Dependencies, ExplainerNode, GraphState, GraphError, math_error, model_error, explain_error, lift,
  Node, Update, technical_update, sentiment_update, portfolio_update, risk_update, explainer_update,
  merge, Ran, mark, same_node, next_nodes, has_explainer, risk_output_of, is_silent, explain_with,
  run_node,
}

-- How far a run is.
pub record Progress : Type 0 where
  pub ran : Ran
  pub state : GraphState

abbrev pub nothing : Ran
nothing = record {
  technical = false;
  sentiment = false;
  portfolio = false;
  risk = false;
  explainer = false;
}

-- The state that a run is invoked with.
abbrev pub initial : Symbol → ℕ → GraphState
initial symbol as_of = record {
  symbol = symbol;
  as_of = as_of;
  technical_opinion = none;
  sentiment_opinion = none;
  tentative_decision = none;
  portfolio_opinion = none;
  risk_verdict = none;
  risk_opinion = none;
  final_action = none;
  final_quantity = none;
  risk_explanation = none;
}

abbrev pub begin_at : Symbol → ℕ → Progress
begin_at symbol as_of = record { ran = nothing; state = initial symbol as_of }

abbrev pub merge_all : List Update → GraphState → GraphState
merge_all [] s = s
merge_all (u ∷ us) s = merge_all us (merge u s)

abbrev pub mark_all : List Node → Ran → Ran
mark_all [] r = r
mark_all (n ∷ ns) r = mark_all ns (mark n r)

abbrev pub holds : Node → List Node → Bool
holds n [] = false
holds n (m ∷ ms) = same_node n m || holds n ms

abbrev pub holds_all : List Node → List Node → Bool
holds_all [] order = true
holds_all (n ∷ ns) order = holds n order && holds_all ns order

-- The same nodes, in any order, for a list without repetitions.
abbrev pub is_order_of : List Node → List Node → Bool
is_order_of order next = (length order == length next) && holds_all next order

module _ (deps : Dependencies) where
  -- The nodes of a superstep, one after the other, all on the state before it.
  unfoldable pub run_all : List Node → GraphState → Result GraphError (List Update)
  unfolding run_node
  run_all [] s = ok []
  run_all (n ∷ ns) s = do u ← run_node deps n s; us ← run_all ns s; ok (u ∷ us)

  abbrev pub after : List Node → List Update → Progress → Progress
  after order updates p = record { ran = mark_all order p.ran; state = merge_all updates p.state }

  abbrev pub next_of : Progress → List Node
  next_of p = next_nodes (has_explainer deps) p.ran

  module _ (symbol : Symbol) (as_of : ℕ) where
    -- The progress after some number of supersteps, each in an order of its own.
    pub data Runs : ℕ → Progress → Type 0 where
      begins : Runs 0 (begin_at symbol as_of)
      superstep :
          {n : ℕ} {p : Progress} (order : List Node) {updates : List Update}
          → Runs n p
          → next_of p ≢ []
          → is_order_of order (next_of p) ≡ true
          → run_all order p.state ≡ ok updates
          → Runs (suc n) (after order updates p)

    -- The values that the nodes pass on.
    abbrev pub technical : TechnicalOpinion
    technical = technical_analyst (closes_of (deps.bars_of as_of symbol 40))

    abbrev pub sentiment : Result GraphError SentimentOpinion
    sentiment =
        lift model_error
          (sentiment_analyst deps.mode deps.scores deps.votes (deps.headlines_of symbol as_of))

    abbrev pub proposal : SentimentOpinion → Result GraphError Proposal
    proposal opinion =
        lift model_error (portfolio_manager deps.portfolio_model symbol technical opinion)

    abbrev pub reply : Proposal → Result GraphError RiskReply
    reply p = lift math_error (
        risk_manager deps.ny_day (deps.bars_of as_of) deps.list_positions symbol
          p.tentative_decision)

    -- The state after the analysts, the proposal, the ruling.
    abbrev pub after_opinions : SentimentOpinion → GraphState
    after_opinions s =
        merge (sentiment_update s) (merge (technical_update technical) (initial symbol as_of))

    abbrev pub after_proposal : SentimentOpinion → Proposal → GraphState
    after_proposal s p = merge (portfolio_update p) (after_opinions s)

    abbrev pub after_reply : SentimentOpinion → Proposal → RiskReply → GraphState
    after_reply s p r = merge (risk_update r) (after_proposal s p)

    -- What the explainer makes of a proposal and its ruling.
    abbrev pub explanation_by :
        ExplainerNode → Proposal → RiskReply → Result GraphError (Option RiskExplanation)
    explanation_by node p r =
        if is_silent (risk_output_of node.iso r.raw_output.priced)
        then ok none
        else lift explain_error
            (explain_with deps.ny_day node symbol as_of p.tentative_decision r.final r.raw_output)

    abbrev pub add_explanation :
        Option ExplainerNode → Proposal → RiskReply → GraphState → Result GraphError GraphState
    add_explanation none p r s = ok s
    add_explanation (some node) p r s =
        explanation_by node p r >>= λ e. ok (merge (explainer_update e) s)

    -- The decision, without a graph.
    unfoldable pub decide : Result GraphError GraphState
    decide = do
      s ← sentiment
      p ← proposal s
      r ← reply p
      add_explanation deps.explainer p r (after_reply s p r)
