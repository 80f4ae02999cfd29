-- ===== src/TraceAudit/Tests.antt =====
-- An explained decision, its trace written and read back.
use paper_trading_agent.Base.{
  ℕ, ◌+◌, ◌*◌, replicate, count_if, ◌⊎◌, ◌≡◌, refl, All, false, ◌++◌, map, length, Option, none,
  some, List, [], ◌∷◌, pos, Text, codes, same_text, Result, ok,
}
use paper_trading_agent.Numbers.Sorting.{sorted}
use paper_trading_agent.RiskManager.{var_budget_scale}
use paper_trading_agent.DataSources.Headlines.{
  HeadlineRow, day_seconds, available_at, headline_date,
}
use paper_trading_agent.Trace.Json.{Value, dumps, jsonable_fields, text, nil, end}
use paper_trading_agent.Trace.KeyPattern.{looks_like_key}
use paper_trading_agent.Trace.{
  add, record_step, on_llm_end, on_chat_model_start, TraceRecorder, new_recorder, TraceRow, Reply,
  record_trace, Step, has_key, stored,
}
use paper_trading_agent.Trace.Writing.{row_of, record_trace_key_free}
use paper_trading_agent.Explainer.{ExplanationCall, triggered, assign, validate}
use paper_trading_agent.Explainer.Retrieval.{recent, around}
use paper_trading_agent.Explainer.Node.{
  TailDay, RiskOutput, loss_on, RiskExplanation, ExplainError, explanation_of, explain,
}
use paper_trading_agent.TraceAudit.{load_steps, rebuild_explanation_check}
use paper_trading_agent.TraceAudit.Answers.{stored_check}
use paper_trading_agent.TraceAudit.RoundTrip.{rebuilt_check_lem}
use paper_trading_agent.TraceAudit.Completeness.{
  same_ids, same_texts, same_retrieved, differing_fields, mismatches_of, traced_explanations,
  check_rows, completeness,
}
use paper_trading_agent.TraceAudit.Completeness.Agreement.{is_due, Reproduced, completeness_lem}

-- New York in winter, on UTC dates; a date is written as so many letters `d`.
abbrev ny : ℕ → ℕ
ny day = day_seconds * day + 18_000

abbrev ranks : Text → Text → ℕ
ranks query headline = 1

abbrev letters : ℕ → Text
letters n = replicate n b'd'

abbrev noon : ℕ → Text
noon t = codes "12:00"

abbrev letters_day : Text → ℕ
letters_day [] = 0
letters_day (c ∷ []) = 1
letters_day (c ∷ d ∷ s) = 2

abbrev one_headline : List HeadlineRow
one_headline =
    record {
      id = pos 12;
      symbol = codes "AAPL";
      published_at = day_seconds * 2;
      headline = codes "Apple falls";
      source = [];
    }
    ∷ []

abbrev a_loss : TailDay
a_loss = record { date = codes "dd"; loss = record { num = pos 3; den_pred = 99 } }

abbrev cut_to_fit : RiskOutput
cut_to_fit = record { risk_flags = var_budget_scale ∷ []; var_tail = some (a_loss ∷ []) }

abbrev cited_call : ExplanationCall
cited_call = record {
  summary = codes "cut";
  drivers = record { date = codes "dd"; cause = codes "falls"; headline_ids = pos 12 ∷ [] } ∷ [];
}

abbrev reads : Text → Option ExplanationCall
reads content = some cited_call

abbrev reads_value : Value → Option ExplanationCall
reads_value (text content) = some cited_call
reads_value _ = none

abbrev a_reply : Reply
a_reply = record {
  content = text (codes "{}");
  tool_calls = nil;
  input_tokens = some 900;
  output_tokens = some 80;
  model_name = none;
}

abbrev node_run : Result ExplainError (Option RiskExplanation × Option TraceRecorder)
node_run =
    explain (λ t. t) ny ranks letters letters noon letters_day reads_value recent none
      (codes "AAPL") (day_seconds * 9) one_headline cut_to_fit [] 71 end 5 50 60 a_reply
      (some new_recorder)

abbrev recorder_after :
    Result ExplainError (Option RiskExplanation × Option TraceRecorder) → TraceRecorder
recorder_after (ok (e, some r)) = r
recorder_after _ = new_recorder

abbrev explanation : RiskExplanation
explanation =
    explanation_of recent (var_budget_scale ∷ []) (a_loss ∷ []) ((codes "dd", pos 12 ∷ []) ∷ [])
      cited_call

node_explains : node_run ≡ ok (some explanation, some (recorder_after node_run))
unfolding explain triggered assign record_step around sorted validate loss_on same_text
    headline_date available_at
node_explains = refl

abbrev IsKeyFree : Step → Type 0
IsKeyFree s = has_key (stored s) ≡ false

no_keys : All IsKeyFree (recorder_after node_run).steps
unfolding explain triggered assign record_step around sorted validate loss_on same_text
    headline_date available_at add on_llm_end on_chat_model_start looks_like_key dumps
    jsonable_fields
no_keys = (refl, (refl, (refl, tt)))

abbrev table_after : List TraceRow
table_after = [] ++ map (row_of 3) (recorder_after node_run).steps

trace_written :
    record_trace 3 (recorder_after node_run) []
    ≡ ok (table_after, length (recorder_after node_run).steps)
unfolding explain triggered record_step around add on_llm_end on_chat_model_start
trace_written =
    record_trace_key_free 3 (recorder_after node_run) [] no_keys (refl, (refl, (refl, tt))) refl

rebuilt_check_lem_example :
    rebuild_explanation_check reads (load_steps table_after 3)
    ≡ ok (some (stored_check explanation))
rebuilt_check_lem_example =
    rebuilt_check_lem (λ t. t) ny ranks letters letters noon letters_day reads_value recent none
      (codes "AAPL") (day_seconds * 9) one_headline cut_to_fit [] 71 end 5 50 60 a_reply reads
      (λ s. refl) 3 (codes "{}") new_recorder (recorder_after node_run) explanation [] (refl, tt)
      refl tt tt refl node_explains trace_written

nothing_reported : completeness reads table_after ((3, explanation) ∷ []) [] ≡ ok (1, [])
unfolding completeness check_rows traced_explanations mismatches_of differing_fields same_ids
    same_texts same_retrieved sorted explain triggered assign record_step around validate loss_on
    same_text headline_date available_at add on_llm_end on_chat_model_start
nothing_reported = rw rebuilt_check_lem_example refl

completeness_lem_example :
    let rows : List (ℕ × RiskExplanation) = (3, explanation) ∷ [] in
    (1 ≡ count_if (is_due table_after []) rows)
    × All (λ row. (is_due table_after [] row ≡ false) ⊎ Reproduced reads table_after row) rows
completeness_lem_example =
    completeness_lem reads table_after ((3, explanation) ∷ []) [] 1 nothing_reported
