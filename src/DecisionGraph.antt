-- ===== src/DecisionGraph.antt =====
-- app/agent/graph.py and GraphState of app/agent/state.py: the nodes, the edges that build_decision_graph adds,
-- and the run of the compiled graph. LangGraph's documented behaviour is the step relation of Runs: a
-- superstep runs every node whose predecessors have all run, each on the state before the superstep, and
-- then merges the partial states that they return. The state starts with `symbol` and `as_of`.
pub mod Runs
pub mod Steps
pub mod Order
pub mod Limit
mod Tests
use paper_trading_agent.Base.{
  ℕ, Bool, true, false, not, ◌&&◌, ◌||◌, Option, none, some, List, [], ◌∷◌, ◌++◌, if◌then◌else◌, ℤ,
  Text, select, Result, ok, err, or_raise, ◌>>=◌,
}
use paper_trading_agent.Numbers.Ratio.{Ratio}
use paper_trading_agent.State.{Symbol, Action, TentativeDecision, RiskVerdict}
use paper_trading_agent.DataSources.{PriceBar}
use paper_trading_agent.DataSources.Headlines.{HeadlineRow}
use paper_trading_agent.Positions.{Position}
use paper_trading_agent.TechnicalAnalyst.{TechnicalOpinion, technical_analyst}
use paper_trading_agent.SentimentAnalyst.{
  SentimentMode, SentimentScore, SentimentCall, SentimentOpinion, ModelError, sentiment_analyst,
}
use paper_trading_agent.PortfolioManager.{PortfolioOpinion, Proposal, portfolio_manager}
use paper_trading_agent.RiskMath.Correlation.{MathError}
use paper_trading_agent.RiskManager.{Ruling}
use paper_trading_agent.RiskManager.Figures.{closes_of}
use paper_trading_agent.RiskManager.Node.{PricedOutput, RawOutput, RiskReply, risk_manager}
use paper_trading_agent.Trace.Json.{Value, end}
use paper_trading_agent.Trace.{Message, Reply}
use paper_trading_agent.Explainer.Retrieval.{RetrievalMethod}
use paper_trading_agent.Explainer.Node.{
  TailDay, RiskOutput, tail_of, explain, RiskExplanation, ExplainError, is_empty,
}
use paper_trading_agent.Explainer.{ExplanationCall, triggered}

-- What the explainer's node is made of, and what its prompt and the model's reply are: the retriever's
-- method and terms with the stored headlines, PostgreSQL's rank and the dates as texts, and LangChain's call.
pub record ExplainerNode : Type 0 where
  pub ny_midnight : ℕ → ℕ
  pub ts_rank : Text → Text → ℕ
  pub score_text : ℕ → Text
  pub iso : ℕ → Text
  pub iso_time : ℕ → Text
  pub day_of : Text → ℕ
  pub structured : Value → Option ExplanationCall
  pub method : RetrievalMethod
  pub own_terms : Option (List Text)
  pub stored_headlines : List HeadlineRow
  pub prompt : TentativeDecision → Ruling → RawOutput → List Message
  pub answer : List Message → Reply

-- What build_decision_graph is given: the sources, the repository, the models' answers, and the explainer's
-- node where there is a retriever.
pub record Dependencies : Type 0 where
  pub ny_day : ℕ → ℕ
  pub bars_of : ℕ → Symbol → ℕ → List PriceBar
  pub headlines_of : Symbol → ℕ → List HeadlineRow
  pub list_positions : Option Symbol → List Position
  pub mode : SentimentMode
  pub scores : List Text → Option SentimentScore
  pub votes : List Text → Option SentimentCall
  pub portfolio_model : Symbol → TechnicalOpinion → SentimentOpinion → Option TentativeDecision
  pub explainer : Option ExplainerNode

-- A key that is not there yet is `none`.
pub record GraphState : Type 0 where
  pub symbol : Symbol
  pub as_of : ℕ
  pub technical_opinion : Option TechnicalOpinion
  pub sentiment_opinion : Option SentimentOpinion
  pub tentative_decision : Option TentativeDecision
  pub portfolio_opinion : Option PortfolioOpinion
  pub risk_verdict : Option RiskVerdict
  pub risk_opinion : Option RawOutput
  pub final_action : Option Action
  pub final_quantity : Option ℤ
  pub risk_explanation : Option (Option RiskExplanation)

pub data GraphError : Type 0 where
  missing_key : GraphError
  math_error : MathError → GraphError
  model_error : ModelError → GraphError
  explain_error : ExplainError → GraphError

abbrev pub lift :
    {Raised A : Type 0} → (Raised → GraphError) → Result Raised A → Result GraphError A
lift raise (ok a) = ok a
lift raise (err e) = err (raise e)

abbrev pub need : {A : Type 0} → Option A → Result GraphError A
need key = or_raise key missing_key

pub data Node : Type 0 where
  technical_node sentiment_node portfolio_node risk_node explainer_node : Node

-- The partial state that a node returns.
pub data Update : Type 0 where
  technical_update : TechnicalOpinion → Update
  sentiment_update : SentimentOpinion → Update
  portfolio_update : Proposal → Update
  risk_update : RiskReply → Update
  explainer_update : Option RiskExplanation → Update

abbrev pub merge : Update → GraphState → GraphState
merge (technical_update o) s = record s { technical_opinion = some o }
merge (sentiment_update o) s = record s { sentiment_opinion = some o }
merge (portfolio_update p) s = record s {
  tentative_decision = some p.tentative_decision;
  portfolio_opinion = some p.portfolio_opinion;
}
merge (risk_update r) s = record s {
  risk_verdict = some r.final.verdict;
  risk_opinion = some r.raw_output;
  final_action = some r.final.action;
  final_quantity = some r.final.quantity;
}
merge (explainer_update e) s = record s { risk_explanation = some e }

-- The ends of an edge.
pub data Point : Type 0 where
  start finish : Point
  at : Node → Point

-- add_edge, in the code's order; the flag says whether there is an explainer.
abbrev pub edges : Bool → List (Point × Point)
edges explained =
    (start, at technical_node)
    ∷ (start, at sentiment_node)
    ∷ (at technical_node, at portfolio_node)
    ∷ (at sentiment_node, at portfolio_node)
    ∷ (at portfolio_node, at risk_node)
    ∷ (if explained
        then (at risk_node, at explainer_node) ∷ (at explainer_node, finish) ∷ []
        else (at risk_node, finish) ∷ [])

-- add_node, in the code's order.
abbrev pub nodes : Bool → List Node
nodes explained =
    technical_node
    ∷ sentiment_node
    ∷ portfolio_node
    ∷ risk_node
    ∷ (if explained then explainer_node ∷ [] else [])

-- Which nodes have run.
pub record Ran : Type 0 where
  pub technical : Bool
  pub sentiment : Bool
  pub portfolio : Bool
  pub risk : Bool
  pub explainer : Bool

abbrev pub has_run : Ran → Node → Bool
has_run r technical_node = r.technical
has_run r sentiment_node = r.sentiment
has_run r portfolio_node = r.portfolio
has_run r risk_node = r.risk
has_run r explainer_node = r.explainer

abbrev pub mark : Node → Ran → Ran
mark technical_node r = record r { technical = true }
mark sentiment_node r = record r { sentiment = true }
mark portfolio_node r = record r { portfolio = true }
mark risk_node r = record r { risk = true }
mark explainer_node r = record r { explainer = true }

abbrev pub same_node : Node → Node → Bool
same_node technical_node technical_node = true
same_node sentiment_node sentiment_node = true
same_node portfolio_node portfolio_node = true
same_node risk_node risk_node = true
same_node explainer_node explainer_node = true
same_node _ _ = false

abbrev pub is_at : Node → Point → Bool
is_at n (at m) = same_node n m
is_at n start = false
is_at n finish = false

abbrev pub has_passed : Ran → Point → Bool
has_passed ran start = true
has_passed ran finish = false
has_passed ran (at n) = has_run ran n

-- All edges into the node come from what has run.
abbrev pub is_ready : Ran → Node → List (Point × Point) → Bool
is_ready ran n [] = true
is_ready ran n ((from, to) ∷ rest) =
    (not (is_at n to) || has_passed ran from) && is_ready ran n rest

-- The nodes of the next superstep.
abbrev pub next_nodes : Bool → Ran → List Node
next_nodes explained ran =
    select (λ n. not (has_run ran n) && is_ready ran n (edges explained)) (nodes explained)

abbrev pub is_there : Option ExplainerNode → Bool
is_there none = false
is_there (some node) = true

abbrev pub has_explainer : Dependencies → Bool
has_explainer deps = is_there deps.explainer

-- `var_tail` of raw_output.
abbrev pub tail_entries : (ℕ → Text) → List (ℕ × Ratio) → List TailDay
tail_entries iso [] = []
tail_entries iso ((day, loss) ∷ rest) =
    record { date = iso day; loss = loss } ∷ tail_entries iso rest

-- What the explainer's node reads of raw_output.
abbrev pub risk_output_of : (ℕ → Text) → Option PricedOutput → RiskOutput
risk_output_of iso none = record { risk_flags = []; var_tail = none }
risk_output_of iso (some priced) = record {
  risk_flags = priced.risk_flags;
  var_tail = some (tail_entries iso priced.figures.var_tail);
}

-- `not flags or not tail` of the explainer's node.
abbrev pub is_silent : RiskOutput → Bool
is_silent raw = is_empty (triggered raw.risk_flags) || is_empty (tail_of raw.var_tail)

-- The explainer's node, without a recorder of a trace.
unfoldable pub explain_with :
    (ℕ → ℕ)
    → ExplainerNode
    → Symbol
    → ℕ
    → TentativeDecision
    → Ruling
    → RawOutput
    → Result ExplainError (Option RiskExplanation)
unfolding explain
explain_with ny_day node symbol as_of tentative final raw =
    let messages = node.prompt tentative final raw in
    explain ny_day node.ny_midnight node.ts_rank node.score_text node.iso node.iso_time node.day_of
      node.structured node.method node.own_terms symbol as_of node.stored_headlines
      (risk_output_of node.iso raw.priced) messages 0 end as_of as_of as_of (node.answer messages)
      none
    >>= λ told. ok told.0

module _ (deps : Dependencies) where
  -- The final ruling that the explainer's prompt tells of.
  abbrev pub final_of : GraphState → Result GraphError Ruling
  final_of s = do
    verdict ← need s.risk_verdict
    quantity ← need s.final_quantity
    action ← need s.final_action
    ok (record { verdict = verdict; action = action; quantity = quantity })

  unfoldable pub tell_explainer : ExplainerNode → RawOutput → GraphState → Result GraphError Update
  tell_explainer node raw s = do
    final ← final_of s
    tentative ← need s.tentative_decision
    explanation ←
        lift explain_error (explain_with deps.ny_day node s.symbol s.as_of tentative final raw)
    ok (explainer_update explanation)

  unfoldable pub run_explainer : Option ExplainerNode → GraphState → Result GraphError Update
  unfolding tell_explainer
  run_explainer none s = err missing_key
  run_explainer (some node) s = do
    raw ← need s.risk_opinion
    if is_silent (risk_output_of node.iso raw.priced)
        then ok (explainer_update none)
        else tell_explainer node raw s

  -- A node's function.
  unfoldable pub run_node : Node → GraphState → Result GraphError Update
  unfolding run_explainer
  run_node technical_node s =
      ok (technical_update (technical_analyst (closes_of (deps.bars_of s.as_of s.symbol 40))))
  run_node sentiment_node s = do
    opinion ←
        lift model_error
          (sentiment_analyst deps.mode deps.scores deps.votes (deps.headlines_of s.symbol s.as_of))
    ok (sentiment_update opinion)
  run_node portfolio_node s = do
    technical ← need s.technical_opinion
    sentiment ← need s.sentiment_opinion
    proposal ←
        lift model_error (portfolio_manager deps.portfolio_model s.symbol technical sentiment)
    ok (portfolio_update proposal)
  run_node risk_node s = do
    tentative ← need s.tentative_decision
    reply ←
        lift math_error
          (risk_manager deps.ny_day (deps.bars_of s.as_of) deps.list_positions s.symbol tentative)
    ok (risk_update reply)
  run_node explainer_node s = run_explainer deps.explainer s
