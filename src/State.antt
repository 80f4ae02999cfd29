-- ===== src/State.antt =====
-- app/models.py (Action, Position) and app/agent/state.py: what the nodes of the decision graph pass on.
-- The free texts (`reasoning`) and the Portfolio Manager's `confidence` are left out: no branch reads
-- them. A symbol is ASCII text. Quantities are Python integers: nothing makes the model of the
-- Portfolio Manager return a natural number.
use paper_trading_agent.Base.{Bool, true, false, Option, ℤ, Text}

abbrev pub Symbol : Type 0
Symbol = Text

pub data Action : Type 0 where
  buy sell hold : Action

abbrev pub is_buy : Action → Bool
is_buy buy = true
is_buy sell = false
is_buy hold = false

abbrev pub is_hold : Action → Bool
is_hold buy = false
is_hold sell = false
is_hold hold = true

-- RiskVerdict.opinion
pub data Opinion : Type 0 where
  approve veto scaled : Opinion

pub record TentativeDecision : Type 0 where
  pub action : Action
  pub quantity : ℤ

-- `adjusted_quantity` is set only by a SCALE.
pub record RiskVerdict : Type 0 where
  pub opinion : Opinion
  pub adjusted_quantity : Option ℤ
