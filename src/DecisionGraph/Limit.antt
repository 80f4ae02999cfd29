-- ===== src/DecisionGraph/Limit.antt =====
-- The position limit, through the whole decision graph of app/agent/graph.py.
use paper_trading_agent.Base.{
  ℕ, ◌≤◌, ◌≡◌, ap, subst, some, [], ℤ, pos, ◌≤ℤ◌, Result, ok, err, >>=-eq-ok, ok_injective,
  or_raise, or_raise-eq-ok, int_laws,
}
use paper_trading_agent.State.{Symbol, Action, TentativeDecision}
use paper_trading_agent.Positions.{current_qty}
use paper_trading_agent.VarForecasts.{position_after}
use paper_trading_agent.TechnicalAnalyst.{TechnicalOpinion}
use paper_trading_agent.SentimentAnalyst.{SentimentOpinion, invalid_reply}
use paper_trading_agent.PortfolioManager.{Proposal, portfolio_manager}
use paper_trading_agent.RiskManager.{max_position_qty}
use paper_trading_agent.RiskManager.Limits.{InLimit, apply_budget_keeps_limit}
use paper_trading_agent.RiskManager.Node.{RiskReply}
use paper_trading_agent.RiskManager.Node.Flags.{risk_manager_lem}
use paper_trading_agent.DecisionGraph.{
  Dependencies, GraphState, GraphError, math_error, model_error, lift,
}
use paper_trading_agent.DecisionGraph.Runs.{Progress, next_of, Runs, technical, proposal, reply}
use paper_trading_agent.DecisionGraph.Order.{Runs-final}

-- The model proposes no negative quantity.
abbrev pub ProposesNatural : Dependencies → Type 0
ProposesNatural deps =
    (symbol : Symbol) (t : TechnicalOpinion) (s : SentimentOpinion) (d : TentativeDecision)
    → deps.portfolio_model symbol t s ≡ some d
    → pos 0 ≤ℤ d.quantity

pub lift-eq-ok :
    {Raised A : Type 0} (raise : Raised → GraphError) (r : Result Raised A) {a : A}
    → lift raise r ≡ ok a
    → r ≡ ok a
lift-eq-ok raise (ok x) h = ap ok (ok_injective h)
lift-eq-ok raise (err x) h = cc

-- The final trade that a state tells of.
abbrev pub FinalInLimit : ℕ → GraphState → Type 0
FinalInLimit held s =
    (a : Action) × (q : ℤ) × (s.final_action ≡ some a)
    × (s.final_quantity ≡ some q)
    × InLimit (position_after (pos held) a q)

module _ (deps : Dependencies) (symbol : Symbol) (as_of : ℕ) where
  abbrev held : ℕ
  held = current_qty (deps.list_positions (some symbol))

  proposal-natural :
      (s : SentimentOpinion) {p : Proposal}
      → ProposesNatural deps
      → proposal deps symbol as_of s ≡ ok p
      → pos 0 ≤ℤ p.tentative_decision.quantity
  unfolding portfolio_manager
  proposal-natural s natural e =
      let t = technical deps symbol as_of in
      let (d, answered, made) =
        >>=-eq-ok (or_raise (deps.portfolio_model symbol t s) invalid_reply) _
          (lift-eq-ok model_error _ e) in
      subst (λ (q : Proposal). pos 0 ≤ℤ q.tentative_decision.quantity) (ok_injective made)
        (natural symbol t s d (or_raise-eq-ok _ _ answered))

  reply-InLimit :
      (p : Proposal) {r : RiskReply}
      → pos 0 ≤ℤ p.tentative_decision.quantity
      → held ≤ max_position_qty
      → reply deps symbol as_of p ≡ ok r
      → InLimit (position_after (pos held) r.final.action r.final.quantity)
  reply-InLimit p {r} natural small e =
      let t = p.tentative_decision in
      let known = lift-eq-ok math_error _ e in
      let (priced, extra, figures, raw, (same, most, listed), flags) =
        rw known at
          (risk_manager_lem deps.ny_day (deps.bars_of as_of) deps.list_positions symbol t) in
      rw same (
        apply_budget_keeps_limit priced.figures.var_95 t (pos held) natural
          (omega int_laws, omega (int_laws, small)))

  -- From a position of at most 20 shares, if the Portfolio Manager's model proposes no negative quantity, a
  -- run of the graph that is over has set a final trade, and that leads to a position within 0 and 20.
  pub decision_graph_keeps_limit :
      {n : ℕ} {p : Progress}
      → ProposesNatural deps
      → held ≤ max_position_qty
      → Runs deps symbol as_of n p
      → next_of deps p ≡ []
      → FinalInLimit held p.state
  decision_graph_keeps_limit natural small runs over =
      let (s, q, r, proposed, replied, tentative, action, quantity) =
        Runs-final deps symbol as_of runs over in
      (
        r.final.action,
        r.final.quantity,
        action,
        quantity,
        reply-InLimit q (proposal-natural s natural proposed) small replied,
      )
