-- ===== src/DecisionGraph/Steps.antt =====
-- What the decision graph of app/agent/graph.py looks like between two supersteps, and how a superstep ends.
use paper_trading_agent.Base.{
  ℕ, suc, ◌≡◌, ◌≢◌, refl, sym, ap, ◌∙◌, ◌⊎◌, inl, inr, Bool, true, false, Option, some, List, [],
  ◌∷◌, Bool-cases, Result, Result-cases, ok, err, OnEnd, ◌>>=◌, arith,
}
use paper_trading_agent.State.{Symbol}
use paper_trading_agent.SentimentAnalyst.{SentimentOpinion, ModelError}
use paper_trading_agent.PortfolioManager.{Proposal}
use paper_trading_agent.RiskManager.Node.{RiskReply}
use paper_trading_agent.Explainer.Node.{RiskExplanation, ExplainError}
use paper_trading_agent.RiskMath.Correlation.{MathError}
use paper_trading_agent.DecisionGraph.{
  Dependencies, ExplainerNode, GraphError, missing_key, math_error, model_error, explain_error,
  lift, Node, technical_node, sentiment_node, portfolio_node, risk_node, explainer_node,
  explainer_update, merge, Ran, same_node, next_nodes, is_silent, risk_output_of, run_node,
  run_explainer, tell_explainer,
}
use paper_trading_agent.DecisionGraph.Runs.{
  Progress, nothing, begin_at, is_order_of, run_all, after, sentiment, proposal, reply,
  after_opinions, after_proposal, after_reply, explanation_by, add_explanation, decide,
}

two_orders :
    (order : List Node)
    → is_order_of order (technical_node ∷ sentiment_node ∷ []) ≡ true
    → (order ≡ technical_node ∷ sentiment_node ∷ [])
      ⊎ (order ≡ sentiment_node ∷ technical_node ∷ [])
two_orders [] h = cc
two_orders (a ∷ []) h = ground arith
two_orders (technical_node ∷ sentiment_node ∷ []) h = inl refl
two_orders (sentiment_node ∷ technical_node ∷ []) h = inr refl
two_orders (a ∷ b ∷ []) h = ground arith
two_orders (a ∷ b ∷ c ∷ rest) h = ground arith

same_node-eq : (n m : Node) → same_node n m ≡ true → n ≡ m
same_node-eq technical_node technical_node h = refl
same_node-eq sentiment_node sentiment_node h = refl
same_node-eq portfolio_node portfolio_node h = refl
same_node-eq risk_node risk_node h = refl
same_node-eq explainer_node explainer_node h = refl
same_node-eq n m h = ground arith

one_order : (n : Node) (order : List Node) → is_order_of order (n ∷ []) ≡ true → order ≡ n ∷ []
one_order n [] h = cc
one_order n (m ∷ []) h = ap (λ k. k ∷ []) (sym (same_node-eq n m (ground arith)))
one_order n (m ∷ k ∷ rest) h = ground arith

pub ok_not_err :
    {A : Type 0} {a : A} {e : GraphError} → ¬ (◌≡◌ {A = Result GraphError A} (ok a) (err e))
ok_not_err h = cc

pub over_or_more : (next : List Node) → (next ≡ []) ⊎ (next ≢ [])
over_or_more [] = inl refl
over_or_more (n ∷ ns) = inr (λ h. cc)

pub not_over : {n : Node} {ns next : List Node} → next ≡ n ∷ ns → ¬ (next ≡ [])
not_over h k = cc

-- The nodes' own exceptions are no KeyError of the state.
lift_model :
    {A : Type 0} (r : Result ModelError A) {e : GraphError}
    → lift model_error r ≡ err e
    → e ≢ missing_key
lift_model (ok a) h = cc
lift_model (err x) h = cc

lift_math :
    {A : Type 0} (r : Result MathError A) {e : GraphError}
    → lift math_error r ≡ err e
    → e ≢ missing_key
lift_math (ok a) h = cc
lift_math (err x) h = cc

lift_explain :
    {A : Type 0} (r : Result ExplainError A) {e : GraphError}
    → lift explain_error r ≡ err e
    → e ≢ missing_key
lift_explain (ok a) h = cc
lift_explain (err x) h = cc

abbrev pub ran_analysts : Ran
ran_analysts = record nothing { technical = true; sentiment = true }

abbrev pub ran_portfolio : Ran
ran_portfolio = record ran_analysts { portfolio = true }

abbrev pub ran_risk : Ran
ran_risk = record ran_portfolio { risk = true }

abbrev pub ran_all : Ran
ran_all = record ran_risk { explainer = true }

module _ (deps : Dependencies) (symbol : Symbol) (as_of : ℕ) where
  -- What a run looks like between two supersteps.
  pub data Shape : ℕ → Progress → Type 0 where
    fresh : Shape 0 (begin_at symbol as_of)
    heard :
        {s : SentimentOpinion}
        → sentiment deps symbol as_of ≡ ok s
        → Shape 1 (record { ran = ran_analysts; state = after_opinions deps symbol as_of s })
    proposed :
        {s : SentimentOpinion} {p : Proposal}
        → sentiment deps symbol as_of ≡ ok s
        → proposal deps symbol as_of s ≡ ok p
        → Shape 2 (record { ran = ran_portfolio; state = after_proposal deps symbol as_of s p })
    ruled :
        {s : SentimentOpinion} {p : Proposal} {r : RiskReply}
        → sentiment deps symbol as_of ≡ ok s
        → proposal deps symbol as_of s ≡ ok p
        → reply deps symbol as_of p ≡ ok r
        → Shape 3 (record { ran = ran_risk; state = after_reply deps symbol as_of s p r })
    explained :
        {s : SentimentOpinion} {p : Proposal} {r : RiskReply} {node : ExplainerNode}
        {e : Option RiskExplanation}
        → sentiment deps symbol as_of ≡ ok s
        → proposal deps symbol as_of s ≡ ok p
        → reply deps symbol as_of p ≡ ok r
        → deps.explainer ≡ some node
        → explanation_by deps symbol as_of node p r ≡ ok e
        → Shape 4 (record {
          ran = ran_all;
          state = merge (explainer_update e) (after_reply deps symbol as_of s p r);
        })

  -- The next nodes, with an explainer or without one.
  pub next_after_analysts : (b : Bool) → next_nodes b ran_analysts ≡ portfolio_node ∷ []
  next_after_analysts true = refl
  next_after_analysts false = refl

  pub next_after_portfolio : (b : Bool) → next_nodes b ran_portfolio ≡ risk_node ∷ []
  next_after_portfolio true = refl
  next_after_portfolio false = refl

  pub next_at_first : (b : Bool) → next_nodes b nothing ≡ technical_node ∷ sentiment_node ∷ []
  next_at_first true = refl
  next_at_first false = refl

  -- How a superstep ends: with an exception that the straight line raises too and that is no KeyError, or
  -- in the next shape.
  abbrev pub Goes : ℕ → List Node → Progress → Type 0
  Goes n order p =
      OnEnd (λ e. (decide deps symbol as_of ≡ err e) × (e ≢ missing_key))
        (λ updates. Shape (suc n) (after deps order updates p)) (run_all deps order p.state)

  pub first_step :
      (order : List Node)
      → is_order_of order (technical_node ∷ sentiment_node ∷ []) ≡ true
      → Goes 0 order (begin_at symbol as_of)
  unfolding run_all run_node decide
  first_step order h = elim (Result-cases (sentiment deps symbol as_of)) [
    | inl (s, e) ↦ elim (two_orders order h) [
      | inl same ↦ rw same (rw e (heard e))
      | inr same ↦ rw same (rw e (heard e))
    ]
    | inr (raised, e) ↦ elim (two_orders order h) [
      | inl same ↦ rw same (rw e (refl, lift_model _ e))
      | inr same ↦ rw same (rw e (refl, lift_model _ e))
    ]
  ]

  pub portfolio_step :
      {s : SentimentOpinion} (order : List Node)
      → is_order_of order (portfolio_node ∷ []) ≡ true
      → sentiment deps symbol as_of ≡ ok s
      → Goes 1 order (record { ran = ran_analysts; state = after_opinions deps symbol as_of s })
  unfolding run_all run_node decide
  portfolio_step {s} order h heard_it = elim (Result-cases (proposal deps symbol as_of s)) [
    | inl (p, e) ↦ rw (one_order portfolio_node order h) (rw e (proposed heard_it e))
    | inr (raised, e) ↦
        rw (one_order portfolio_node order h) (rw e (rw (heard_it, e) refl, lift_model _ e))
  ]

  pub risk_step :
      {s : SentimentOpinion} {p : Proposal} (order : List Node)
      → is_order_of order (risk_node ∷ []) ≡ true
      → sentiment deps symbol as_of ≡ ok s
      → proposal deps symbol as_of s ≡ ok p
      → Goes 2 order (record { ran = ran_portfolio; state = after_proposal deps symbol as_of s p })
  unfolding run_all run_node decide
  risk_step {s} {p} order h heard_it proposed_it = elim (Result-cases (reply deps symbol as_of p)) [
    | inl (r, e) ↦ rw (one_order risk_node order h) (rw e (ruled heard_it proposed_it e))
    | inr (raised, e) ↦
        rw (one_order risk_node order h) (rw e (rw (heard_it, proposed_it, e) refl, lift_math _ e))
  ]

  pub decide_known :
      {s : SentimentOpinion} {p : Proposal} {r : RiskReply}
      → sentiment deps symbol as_of ≡ ok s
      → proposal deps symbol as_of s ≡ ok p
      → reply deps symbol as_of p ≡ ok r
      → decide deps symbol as_of
        ≡ add_explanation deps symbol as_of deps.explainer p r (after_reply deps symbol as_of s p r)
  unfolding decide
  decide_known e e' e'' = rw (e, e', e'') refl

  -- The explainer's node, on the state that the risk manager leaves.
  run_explainer_known :
      (s : SentimentOpinion) (p : Proposal) (r : RiskReply) {node : ExplainerNode}
      → deps.explainer ≡ some node
      → run_explainer deps deps.explainer (after_reply deps symbol as_of s p r)
        ≡ (explanation_by deps symbol as_of node p r >>= λ e. ok (explainer_update e))
  unfolding run_explainer tell_explainer
  run_explainer_known s p r {node = node} there =
      ap (λ x. run_explainer deps x (after_reply deps symbol as_of s p r)) there
      ∙ elim (Bool-cases (is_silent (risk_output_of node.iso r.raw_output.priced))) [
        | inl quiet ↦ rw quiet refl
        | inr loud ↦ rw loud refl
      ]

  explanation_by_raised :
      (p : Proposal) (r : RiskReply) (node : ExplainerNode) {e : GraphError}
      → explanation_by deps symbol as_of node p r ≡ err e
      → e ≢ missing_key
  explanation_by_raised p r node h =
      elim (Bool-cases (is_silent (risk_output_of node.iso r.raw_output.priced))) [
        | inl quiet ↦ absurd (ok_not_err (rw quiet at h))
        | inr loud ↦ lift_explain _ (rw loud at h)
      ]

  pub explainer_step :
      {s : SentimentOpinion} {p : Proposal} {r : RiskReply} {node : ExplainerNode}
      (order : List Node)
      → is_order_of order (explainer_node ∷ []) ≡ true
      → sentiment deps symbol as_of ≡ ok s
      → proposal deps symbol as_of s ≡ ok p
      → reply deps symbol as_of p ≡ ok r
      → deps.explainer ≡ some node
      → Goes 3 order (record { ran = ran_risk; state = after_reply deps symbol as_of s p r })
  unfolding run_all run_node
  explainer_step {s} {p} {r} {node} order h heard_it proposed_it ruled_it there =
      let straight =
        decide_known heard_it proposed_it ruled_it
        ∙ ap (λ x. add_explanation deps symbol as_of x p r (after_reply deps symbol as_of s p r))
            there in
      rw (one_order explainer_node order h) (
        rw (run_explainer_known s p r there)
          (elim (Result-cases (explanation_by deps symbol as_of node p r)) [
            | inl (told, e) ↦ rw e (explained heard_it proposed_it ruled_it there e)
            | inr (raised, e) ↦ rw e (straight ∙ rw e refl, explanation_by_raised p r node e)
          ]))
