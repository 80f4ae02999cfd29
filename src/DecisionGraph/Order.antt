-- ===== src/DecisionGraph/Order.antt =====
-- The runs of the decision graph: all orders of the analysts lead to one state, and no node reads a key that
-- is not there.
use paper_trading_agent.Base.{
  ℕ, suc, ◌≤◌, ◌≡◌, ◌≢◌, refl, ap, ◌∙◌, ◌⊎◌, inl, inr, true, none, some, List, [], ◌∷◌,
  Option-cases, Result-cases, ok, err, OnEnd, arith,
}
use paper_trading_agent.State.{Symbol}
use paper_trading_agent.SentimentAnalyst.{SentimentOpinion}
use paper_trading_agent.PortfolioManager.{Proposal}
use paper_trading_agent.RiskManager.Node.{RiskReply}
use paper_trading_agent.DecisionGraph.{
  Dependencies, ExplainerNode, missing_key, Node, explainer_node, next_nodes, is_there,
  has_explainer,
}
use paper_trading_agent.DecisionGraph.Runs.{
  Progress, is_order_of, run_all, after, next_of, Runs, begins, superstep, proposal, reply,
  after_reply, add_explanation, decide,
}
use paper_trading_agent.DecisionGraph.Steps.{
  not_over, over_or_more, ran_risk, ran_all, Shape, fresh, heard, proposed, ruled, explained, Goes,
  decide_known, next_after_analysts, next_after_portfolio, next_at_first, first_step,
  portfolio_step, risk_step, explainer_step,
}

module _ (deps : Dependencies) (symbol : Symbol) (as_of : ℕ) where
  not_explained : deps.explainer ≡ none → next_nodes (has_explainer deps) ran_risk ≡ []
  not_explained e = ap (λ x. next_nodes (is_there x) ran_risk) e

  next_with_explainer :
      {node : ExplainerNode}
      → deps.explainer ≡ some node
      → next_nodes (has_explainer deps) ran_risk ≡ explainer_node ∷ []
  next_with_explainer e = ap (λ x. next_nodes (is_there x) ran_risk) e

  Shape-Goes :
      {n : ℕ} {p : Progress} (order : List Node)
      → Shape deps symbol as_of n p
      → next_of deps p ≢ []
      → is_order_of order (next_of deps p) ≡ true
      → Goes deps symbol as_of n order p
  Shape-Goes order fresh more valid =
      first_step deps symbol as_of order
        (rw (next_at_first deps symbol as_of (has_explainer deps)) at valid)
  Shape-Goes order (heard e) more valid =
      portfolio_step deps symbol as_of order
        (rw (next_after_analysts deps symbol as_of (has_explainer deps)) at valid) e
  Shape-Goes order (proposed e e') more valid =
      risk_step deps symbol as_of order
        (rw (next_after_portfolio deps symbol as_of (has_explainer deps)) at valid) e e'
  Shape-Goes order (ruled e e' e'') more valid = elim (Option-cases deps.explainer) [
    | inl missing ↦ absurd (more (not_explained missing))
    | inr (node, there) ↦
        explainer_step deps symbol as_of order (rw (next_with_explainer there) at valid) e e' e''
          there
  ]
  Shape-Goes order (explained e e' e'' there told) more valid =
      absurd (more (ap (λ x. next_nodes (is_there x) ran_all) there))

  Runs-Shape : {n : ℕ} {p : Progress} → Runs deps symbol as_of n p → Shape deps symbol as_of n p
  Runs-Shape begins = fresh
  Runs-Shape (superstep order runs more valid ran_it) =
      rw ran_it at (Shape-Goes order (Runs-Shape runs) more valid)

  Shape-over :
      {n : ℕ} {p : Progress}
      → Shape deps symbol as_of n p
      → next_of deps p ≡ []
      → decide deps symbol as_of ≡ ok p.state
  Shape-over fresh over =
      absurd (not_over (next_at_first deps symbol as_of (has_explainer deps)) over)
  Shape-over (heard e) over =
      absurd (not_over (next_after_analysts deps symbol as_of (has_explainer deps)) over)
  Shape-over (proposed e e') over =
      absurd (not_over (next_after_portfolio deps symbol as_of (has_explainer deps)) over)
  Shape-over (ruled {s} {p} {r} e e' e'') over = elim (Option-cases deps.explainer) [
    | inl missing ↦
        decide_known deps symbol as_of e e' e''
        ∙ ap (λ x. add_explanation deps symbol as_of x p r (after_reply deps symbol as_of s p r))
            missing
    | inr (node, there) ↦ absurd (not_over (next_with_explainer there) over)
  ]
  Shape-over (explained {s} {p} {r} e e' e'' there told) over =
      decide_known deps symbol as_of e e' e''
      ∙ ap (λ x. add_explanation deps symbol as_of x p r (after_reply deps symbol as_of s p r))
          there
      ∙ rw told refl

  Shape-final :
      {n : ℕ} {p : Progress}
      → Shape deps symbol as_of n p
      → next_of deps p ≡ []
      → (s : SentimentOpinion) × (q : Proposal) × (r : RiskReply) × (proposal deps symbol as_of s
          ≡ ok q)
        × (reply deps symbol as_of q ≡ ok r)
        × (p.state.tentative_decision ≡ some q.tentative_decision)
        × (p.state.final_action ≡ some r.final.action)
        × (p.state.final_quantity ≡ some r.final.quantity)
  Shape-final fresh over =
      absurd (not_over (next_at_first deps symbol as_of (has_explainer deps)) over)
  Shape-final (heard e) over =
      absurd (not_over (next_after_analysts deps symbol as_of (has_explainer deps)) over)
  Shape-final (proposed e e') over =
      absurd (not_over (next_after_portfolio deps symbol as_of (has_explainer deps)) over)
  Shape-final (ruled {s} {p} {r} e e' e'') over = (s, p, r, e', e'', refl, refl, refl)
  Shape-final (explained {s} {p} {r} e e' e'' there told) over =
      (s, p, r, e', e'', refl, refl, refl)

  Shape-bound :
      {n : ℕ} {p : Progress}
      → Shape deps symbol as_of n p
      → (n ≤ 3) ⊎ ((n ≡ 4) × (has_explainer deps ≡ true))
  Shape-bound fresh = inl (omega arith)
  Shape-bound (heard e) = inl (omega arith)
  Shape-bound (proposed e e') = inl (omega arith)
  Shape-bound (ruled e e' e'') = inl (omega arith)
  Shape-bound (explained e e' e'' there told) = inr (refl, ap is_there there)

  -- Where a run is over, some proposal has been ruled on, and that is the final trade.
  pub Runs-final :
      {n : ℕ} {p : Progress}
      → Runs deps symbol as_of n p
      → next_of deps p ≡ []
      → (s : SentimentOpinion) × (q : Proposal) × (r : RiskReply) × (proposal deps symbol as_of s
          ≡ ok q)
        × (reply deps symbol as_of q ≡ ok r)
        × (p.state.tentative_decision ≡ some q.tentative_decision)
        × (p.state.final_action ≡ some r.final.action)
        × (p.state.final_quantity ≡ some r.final.quantity)
  Runs-final runs over = Shape-final (Runs-Shape runs) over

  -- A run that no node can follow leaves the state of the straight line, whatever the orders of the nodes
  -- in its supersteps were.
  pub decision_graph_confluent :
      {n : ℕ} {p : Progress}
      → Runs deps symbol as_of n p
      → next_of deps p ≡ []
      → decide deps symbol as_of ≡ ok p.state
  decision_graph_confluent runs over = Shape-over (Runs-Shape runs) over

  -- A run has at most four supersteps, three without an explainer. While there is a node to run, the next
  -- superstep, in any order of its nodes, carries the run on or ends in an exception that the straight line
  -- raises as well, and that is no KeyError of a key that is missing in the state.
  pub decision_graph_progress :
      {n : ℕ} {p : Progress} (order : List Node)
      → Runs deps symbol as_of n p
      → is_order_of order (next_of deps p) ≡ true
      → ((n ≤ 3) ⊎ ((n ≡ 4) × (has_explainer deps ≡ true)))
        × ((next_of deps p ≡ [])
            ⊎ OnEnd
                (λ e. (decide deps symbol as_of ≡ err e) × (e ≢ missing_key))
                (λ updates. Runs deps symbol as_of (suc n) (after deps order updates p))
                (run_all deps order p.state))
  decision_graph_progress {n} {p} order runs valid = (
    Shape-bound (Runs-Shape runs),
    elim (over_or_more (next_of deps p)) [
      | inl over ↦ inl over
      | inr more ↦
          (let goes = Shape-Goes order (Runs-Shape runs) more valid in
            elim (Result-cases (run_all deps order p.state)) [
              | inl (updates, e) ↦ inr (rw e (superstep order runs more valid e))
              | inr (raised, e) ↦ inr (rw e (rw e at goes))
            ])
    ],
  )
