-- ===== src/PortfolioManager.antt =====
-- app/agent/portfolio_manager.py: the node that proposes a trade. The prompt is made of the symbol and the two
-- opinions; the model's answer to it is an argument, `none` where the call or its structured output
-- raises. The prompts' fixed texts, the confidence and the reasoning are left out.
use paper_trading_agent.Base.{Option, ℤ, Text, Result, ok, or_raise, ◌>>=◌}
use paper_trading_agent.Numbers.Ratio.{Ratio}
use paper_trading_agent.State.{Symbol, Action, TentativeDecision}
use paper_trading_agent.TechnicalAnalyst.{TechnicalOpinion}
use paper_trading_agent.SentimentAnalyst.{SentimentOpinion, ModelError, invalid_reply}

-- `portfolio_opinion`: the opinion, and what raw_output holds.
pub record PortfolioOpinion : Type 0 where
  pub opinion : Action
  pub quantity : ℤ
  pub technical : Action
  pub sentiment : Text
  pub sentiment_score : Option Ratio

-- What the node returns.
pub record Proposal : Type 0 where
  pub tentative_decision : TentativeDecision
  pub portfolio_opinion : PortfolioOpinion

abbrev pub portfolio_opinion_of :
    TechnicalOpinion → SentimentOpinion → TentativeDecision → PortfolioOpinion
portfolio_opinion_of technical sentiment decision = record {
  opinion = decision.action;
  quantity = decision.quantity;
  technical = technical.call;
  sentiment = sentiment.opinion;
  sentiment_score = sentiment.raw_score;
}

unfoldable pub portfolio_manager :
    (Symbol → TechnicalOpinion → SentimentOpinion → Option TentativeDecision)
    → Symbol
    → TechnicalOpinion
    → SentimentOpinion
    → Result ModelError Proposal
portfolio_manager model symbol technical sentiment = do
  decision ← or_raise (model symbol technical sentiment) invalid_reply
  ok (record {
    tentative_decision = decision;
    portfolio_opinion = portfolio_opinion_of technical sentiment decision;
  })
