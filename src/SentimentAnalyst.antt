-- ===== src/SentimentAnalyst.antt =====
-- app/agent/sentiment_analyst.py and app/agent/v1_categorical.py: the sentiment node in its two modes. A score
-- and a confidence are exact fractions, so the two zeros of floats are one. The prompts' fixed texts and
-- the reasoning are left out; the model's reply to the headlines is an argument, `none` where the call or
-- its structured output raises.
pub mod Format
mod Tests
use paper_trading_agent.Base.{
  ℕ, ◌+◌, ◌*◌, ◌/◌, ◌%◌, Bool, true, ◌&&◌, Option, none, some, List, [], ◌∷◌, ◌++◌, map, leb, pos,
  negsuc, ℤ, pos_part, neg_part, length, Text, codes, if◌then◌else◌, Result, ok, err, or_raise,
  ◌>>=◌,
}
use paper_trading_agent.Numbers.Ratio.{Ratio, den, leb_R, zero_R, round_half_even}
use paper_trading_agent.State.{Action, buy, sell, hold}
use paper_trading_agent.Trace.Json.{digits}
use paper_trading_agent.DataSources.Headlines.{HeadlineRow}

pub data SentimentMode : Type 0 where
  score categorical : SentimentMode

pub record SentimentScore : Type 0 where
  pub tone : Ratio
  pub confidence : Ratio

pub record SentimentCall : Type 0 where
  pub vote : Action
  pub confidence : Ratio

abbrev pub one_R : Ratio
one_R = record { num = pos 1; den_pred = 0 }

abbrev pub minus_one_R : Ratio
minus_one_R = record { num = negsuc 0; den_pred = 0 }

-- `Field(ge=low, le=high)`
abbrev pub in_range : Ratio → Ratio → Ratio → Bool
in_range low high r = leb_R low r && leb_R r high

-- What the validation of the two reply models lets through.
abbrev pub is_score : SentimentScore → Bool
is_score call = in_range minus_one_R one_R call.tone && in_range zero_R one_R call.confidence

abbrev pub is_call : SentimentCall → Bool
is_call call = in_range zero_R one_R call.confidence

-- The number of hundredths that `.2f` rounds a score to.
abbrev pub hundredths : Ratio → ℕ
hundredths r = round_half_even (100 * (pos_part r.num + neg_part r.num)) (den r)

abbrev pub sign_of : ℤ → ℕ
sign_of (pos n) = b'+'
sign_of (negsuc n) = b'-'

-- f"{score:+.2f}"
unfoldable pub format_score : Ratio → Text
format_score r =
    let h = hundredths r in
    sign_of r.num ∷ digits (h / 100) ++ b'.' ∷ (48 + h % 100 / 10) ∷ (48 + h % 10) ∷ []

abbrev pub action_text : Action → Text
action_text buy = codes "BUY"
action_text sell = codes "SELL"
action_text hold = codes "HOLD"

-- The node's AgentOpinion: `opinion`, `confidence`, and what raw_output holds.
pub record SentimentOpinion : Type 0 where
  pub opinion : Text
  pub confidence : Option Ratio
  pub raw_score : Option Ratio
  pub n_headlines : ℕ
  pub headlines : List Text

-- The exception of a reply that is not valid.
pub data ModelError : Type 0 where
  invalid_reply : ModelError

abbrev pub headline_texts : List HeadlineRow → List Text
headline_texts = map (λ (h : HeadlineRow). h.headline)

abbrev pub no_headlines_opinion : SentimentOpinion
no_headlines_opinion = record {
  opinion = codes "HOLD";
  confidence = none;
  raw_score = none;
  n_headlines = 0;
  headlines = [];
}

abbrev pub neutral_opinion : SentimentOpinion
neutral_opinion = record {
  opinion = format_score zero_R;
  confidence = none;
  raw_score = some zero_R;
  n_headlines = 0;
  headlines = [];
}

-- A reply that validates, or the exception.
unfoldable pub validated :
    {Reply : Type 0} → (Reply → Bool) → Option Reply → Result ModelError Reply
validated is_valid none = err invalid_reply
validated is_valid (some reply) = if is_valid reply then ok reply else err invalid_reply

-- V1's node body.
unfoldable pub categorical_opinion :
    (List Text → Option SentimentCall) → List HeadlineRow → Result ModelError SentimentOpinion
unfolding validated
categorical_opinion model [] = ok no_headlines_opinion
categorical_opinion model (h ∷ hs) = do
  call ← validated is_call (model (headline_texts (h ∷ hs)))
  ok (record {
    opinion = action_text call.vote;
    confidence = some call.confidence;
    raw_score = none;
    n_headlines = length (h ∷ hs);
    headlines = headline_texts (h ∷ hs);
  })

unfoldable pub scored_opinion :
    (List Text → Option SentimentScore) → List HeadlineRow → Result ModelError SentimentOpinion
unfolding validated
scored_opinion model [] = ok neutral_opinion
scored_opinion model (h ∷ hs) = do
  call ← validated is_score (model (headline_texts (h ∷ hs)))
  ok (record {
    opinion = format_score call.tone;
    confidence = some call.confidence;
    raw_score = some call.tone;
    n_headlines = length (h ∷ hs);
    headlines = headline_texts (h ∷ hs);
  })

-- The node, from the headlines of the last three days.
unfoldable pub sentiment_analyst :
    SentimentMode
    → (List Text → Option SentimentScore)
    → (List Text → Option SentimentCall)
    → List HeadlineRow
    → Result ModelError SentimentOpinion
unfolding scored_opinion categorical_opinion
sentiment_analyst score scores votes headlines = scored_opinion scores headlines
sentiment_analyst categorical scores votes headlines = categorical_opinion votes headlines
