-- ===== src/TraceAudit.antt =====
-- app/agent/trace_audit.py: a decision's trace read back, and the citation check rebuilt from it.
-- `model_validate_json` is pydantic's parser of a reply, `none` where it raises.
pub mod Loading
pub mod Explaining
pub mod Answers
pub mod RoundTrip
pub mod Completeness
mod Tests
use paper_trading_agent.Base.{
  ℕ, Bool, true, false, ◌&&◌, Option, none, some, List, [], ◌∷◌, map, if◌then◌else◌, leb, ◌==◌, ℤ,
  Text, codes, same_text, select, Result, ok, err, ◌>>=◌, or_raise,
}
use paper_trading_agent.Numbers.Sorting.{sorted}
use paper_trading_agent.Trace.Json.{Value, int, text, arr, obj, Items, nil, cons, Fields, get}
use paper_trading_agent.Trace.{Step, is_llm, is_retrieval, TraceRow}
use paper_trading_agent.Explainer.{ExplanationCall, Retrieved, assign, Problem, validate}
use paper_trading_agent.Explainer.Node.{is_empty}

abbrev pub earlier_step : Step → Step → Bool
earlier_step a b = leb a.step b.step

-- SELECT … FROM trace_steps WHERE decision_id = … ORDER BY step
unfoldable pub load_steps : List TraceRow → ℕ → List Step
load_steps table decision_id = sorted earlier_step (
    map (λ (row : TraceRow). row.traced)
      (select (λ (row : TraceRow). row.decision_id == decision_id) table))

-- `malformed` is the exception of a step without a key that is read, or whose value there is of
-- another type; `invalid_reply` that of a reply the parser refuses.
pub data AuditError : Type 0 where
  malformed invalid_reply : AuditError

abbrev pub text_at : Text → Fields → Option Text
text_at key fs = elim (get key fs) [ some (text s) ↦ some s | _ ↦ none ]

abbrev pub id_of : Value → Option ℤ
id_of (obj fs) = elim (get (codes "id") fs) [ some (int i) ↦ some i | _ ↦ none ]
id_of _ = none

-- `[r["id"] for r in …]`
unfoldable pub ids_of : Items → Option (List ℤ)
ids_of nil = some []
ids_of (cons r rs) =
    let rest = ids_of rs in
    elim (id_of r) [ none ↦ none | some i ↦ elim rest [ none ↦ none | some is ↦ some (i ∷ is) ] ]

abbrev pub result_ids : Fields → Option (List ℤ)
result_ids fs = elim (get (codes "results") fs) [ some (arr rs) ↦ ids_of rs | _ ↦ none ]

-- The dict of the retrievals, one after another.
unfoldable pub retrieved_from : Retrieved → List Step → Result AuditError Retrieved
retrieved_from retrieved [] = ok retrieved
retrieved_from retrieved (s ∷ ss) = or_raise (text_at (codes "day") s.input) malformed >>= λ day.
    or_raise (result_ids s.output) malformed >>= λ ids. retrieved_from (assign day ids retrieved) ss

abbrev pub is_explainer_retrieval : Step → Bool
is_explainer_retrieval s = same_text s.node (codes "explainer") && is_retrieval s.kind

abbrev pub is_explainer_reply : Step → Bool
is_explainer_reply s = same_text s.node (codes "explainer") && is_llm s.kind

-- `replies[-1]`
abbrev pub last_of : Step → List Step → Step
last_of s [] = s
last_of s (t ∷ ts) = last_of t ts

pub record CitationCheck : Type 0 where
  pub retrieved : Retrieved
  pub cited_headline_ids : List ℤ
  pub validation_problems : List Problem
  pub citations_valid : Bool

module _ (model_validate_json : Text → Option ExplanationCall) where
  -- The check of the last reply.
  abbrev pub check_reply : Retrieved → Step → Result AuditError (Option CitationCheck)
  check_reply retrieved reply =
      or_raise (text_at (codes "content") reply.output) malformed >>= λ content.
      or_raise (model_validate_json content) invalid_reply >>= λ call.
      (let (cited, problems) = validate call retrieved in
        ok (
          some (record {
            retrieved = retrieved;
            cited_headline_ids = cited;
            validation_problems = problems;
            citations_valid = is_empty problems;
          })))

  -- From the explainer's retrievals and its replies.
  abbrev pub rebuild_from : List Step → List Step → Result AuditError (Option CitationCheck)
  rebuild_from retrievals [] = ok none
  rebuild_from retrievals (s ∷ ss) =
      retrieved_from [] retrievals >>= λ retrieved. check_reply retrieved (last_of s ss)

  unfoldable pub rebuild_explanation_check : List Step → Result AuditError (Option CitationCheck)
  rebuild_explanation_check steps =
      rebuild_from (select is_explainer_retrieval steps) (select is_explainer_reply steps)
