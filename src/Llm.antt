-- ===== src/Llm.antt =====
-- app/agent/llm.py: which model each node uses, and what its tokens cost.
-- An environment variable is an optional ASCII text. Prices are whole dollars per million tokens, so that
-- a cost is a whole number of millionths of a dollar. The clients themselves are third-party.
pub mod Cost
mod Tests
use paper_trading_agent.Base.{
  ℕ, ◌+◌, ◌*◌, Bool, true, false, not, ◌&&◌, ◌||◌, Option, none, some, List, [], ◌∷◌, ◌++◌, map,
  if◌then◌else◌, leb, ltb, ◌==◌, Text, codes, lower_char, same_text, length, Result, ok, err, ◌>>=◌,
  or_raise,
}

pub data Role : Type 0 where
  portfolio_manager sentiment_analyst explainer judge : Role

pub data Provider : Type 0 where
  openai anthropic : Provider

-- DEFAULT_MODELS
abbrev pub default_model : Provider → Role → Text
default_model openai portfolio_manager = codes "gpt-4o"
default_model openai sentiment_analyst = codes "gpt-4o-mini"
default_model openai explainer = codes "gpt-4o-mini"
default_model openai judge = codes "gpt-4o"
default_model anthropic portfolio_manager = codes "claude-sonnet-5-5"
default_model anthropic sentiment_analyst = codes "claude-haiku-4-5"
default_model anthropic explainer = codes "claude-haiku-4-5"
default_model anthropic judge = codes "claude-sonnet-5-5"

-- The variables that the module reads: LLM_PROVIDER and one of ENV_KEYS for each role.
pub record Environment : Type 0 where
  pub llm_provider : Option Text
  pub portfolio_model : Option Text
  pub sentiment_model : Option Text
  pub explainer_model : Option Text
  pub judge_model : Option Text

-- os.environ.get(ENV_KEYS[role])
abbrev pub model_override : Environment → Role → Option Text
model_override env portfolio_manager = env.portfolio_model
model_override env sentiment_analyst = env.sentiment_model
model_override env explainer = env.explainer_model
model_override env judge = env.judge_model

-- The ASCII characters that str.strip removes.
abbrev pub is_space : ℕ → Bool
is_space c = c == 32 || leb 9 c && leb c 13 || leb 28 c && leb c 31

unfoldable pub lstrip : Text → Text
lstrip [] = []
lstrip (c ∷ s) = let rest = lstrip s in if is_space c then rest else c ∷ s

-- The text without the spaces at its end.
unfoldable pub rstrip : Text → Text
rstrip [] = []
rstrip (c ∷ s) = elim (rstrip s) [ [] ↦ if is_space c then [] else c ∷ [] | d ∷ t ↦ c ∷ d ∷ t ]

pub data LlmError : Type 0 where
  unknown_provider : Text → LlmError
  no_price : Text → LlmError

abbrev pub provider_named : Text → Result LlmError Provider
provider_named name =
    if same_text name (codes "openai")
    then ok openai
    else if same_text name (codes "anthropic")
    then ok anthropic
    else err (unknown_provider name)

-- provider()
unfoldable pub provider : Environment → Result LlmError Provider
unfolding lstrip rstrip
provider env = elim env.llm_provider [
  | none ↦ ok openai
  | some name ↦ provider_named (map lower_char (rstrip (lstrip name)))
]

-- `os.environ.get(…) or DEFAULT_MODELS[provider()][role]`: the provider is not asked for with an override.
unfoldable pub model_name : Environment → Role → Result LlmError Text
unfolding provider
model_name env role = elim (model_override env role) [
  | some (c ∷ s) ↦ ok (c ∷ s)
  | _ ↦ provider env >>= λ p. ok (default_model p role)
]

-- `text.startswith(prefix)`
unfoldable pub starts_with : Text → Text → Bool
starts_with s [] = true
starts_with [] (p ∷ ps) = false
starts_with (c ∷ s) (p ∷ ps) = c == p && starts_with s ps

-- Whether the temperature 0 is sent, or none.
abbrev pub claude_temperature : Text → Bool
claude_temperature model = starts_with model (codes "claude-haiku-4-5")

-- CLAUDE_THINKING_OFF
abbrev pub thinking_off : Text → Bool
thinking_off model = same_text model (codes "claude-sonnet-5-5")

-- What default_llm builds: the provider's class with its arguments.
pub data Client : Type 0 where
  chat_anthropic : Text → Bool → Bool → Client
  chat_openai : Text → Client

-- default_llm: max_tokens is 4096 throughout, and the flags say whether a temperature of 0 and the
-- thinking setting are sent.
unfoldable pub default_llm : Environment → Role → Result LlmError Client
unfolding model_name
default_llm env role = model_name env role >>= λ model. provider env >>= λ p. ok (elim p [
  | anthropic ↦ chat_anthropic model (claude_temperature model) (thinking_off model)
  | openai ↦ chat_openai model
])

-- What describe() says of a role: the model, whether the temperature is 0 (or else the model's own), and
-- whether thinking is off.
pub record Described : Type 0 where
  pub model : Text
  pub zero_temperature : Bool
  pub no_thinking : Bool

abbrev pub described : Provider → Text → Described
described anthropic model = record {
  model = model;
  zero_temperature = claude_temperature model;
  no_thinking = thinking_off model;
}
described openai model = record { model = model; zero_temperature = true; no_thinking = false }

unfoldable pub describe_role : Environment → Role → Result LlmError Described
unfolding model_name
describe_role env role =
    provider env >>= λ p. model_name env role >>= λ model. ok (described p model)

-- A price of input and output tokens, in dollars per million.
pub record Price : Type 0 where
  pub per_input : ℕ
  pub per_output : ℕ

-- PRICES_PER_MTOK
abbrev pub prices_per_mtok : List (Text × Price)
prices_per_mtok =
    (codes "claude-sonnet-5-5", record { per_input = 2; per_output = 10 })
    ∷ (codes "claude-haiku-4-5", record { per_input = 1; per_output = 5 })
    ∷ (codes "claude-opus-5-5", record { per_input = 4; per_output = 20 })
    ∷ (codes "fake", record { per_input = 0; per_output = 0 })
    ∷ []

-- `max(matches, key=len)`: the longest prefix of the model's name, the first of equal length.
unfoldable pub best_match : Text → List (Text × Price) → Option (Text × Price)
unfolding starts_with
best_match model [] = none
best_match model ((p, price) ∷ rest) =
    let later = best_match model rest in
    if starts_with model p
    then elim later [
      | none ↦ some (p, price)
      | some (q, other) ↦ if ltb (length p) (length q) then some (q, other) else some (p, price)
    ]
    else later

-- The counts of a model's tokens; a missing key counts as 0.
pub record Tokens : Type 0 where
  pub input_tokens : ℕ
  pub output_tokens : ℕ
  pub total_tokens : ℕ

-- {model: counts}
abbrev pub Usage : Type 0
Usage = List (Text × Tokens)

abbrev pub tokens_cost : Price → Tokens → ℕ
tokens_cost price t = t.input_tokens * price.per_input + t.output_tokens * price.per_output

-- usage_cost_usd, in millionths of a dollar, from a total so far.
unfoldable pub cost_from : ℕ → Usage → Result LlmError ℕ
cost_from total [] = ok total
cost_from total ((model, t) ∷ usage) =
    or_raise (best_match model prices_per_mtok) (no_price model) >>= λ found.
    cost_from (total + tokens_cost found.1 t) usage

unfoldable pub usage_cost_usd : Usage → Result LlmError ℕ
unfolding cost_from
usage_cost_usd = cost_from 0
