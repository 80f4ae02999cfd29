-- ===== src/Trace/Tests.antt =====
-- The recorder of a decision's trace on small inputs.
use paper_trading_agent.Base.{
  ◌<◌, count_if, ◌≡◌, refl, ◌⊎◌, true, none, some, [], ◌++◌, map, codes, length, All, ok, err,
}
use paper_trading_agent.Trace.Json.{end}
use paper_trading_agent.Trace.KeyPattern.{looks_like_key}
use paper_trading_agent.Trace.{
  Step, check, TraceRecorder, new_recorder, add, on_chat_model_start, on_llm_end, key_like,
  duplicate_step, record_trace,
}
use paper_trading_agent.Trace.Numbering.{
  Traced, begun, added, chat_started, llm_ended, IsTrace, Traced-IsTrace,
}
use paper_trading_agent.Trace.Writing.{IsClean, is_taken, row_of, FirstKey, record_trace_lem}

-- A check, then a call that ends and a call that does not.
abbrev one_check : TraceRecorder
one_check = (add (codes "risk_manager") check end end none 5 new_recorder).0

abbrev two_calls : TraceRecorder
two_calls = on_llm_end none 71 90 (
    on_chat_model_start [] 72 none end 7 60
      (on_chat_model_start [] 71 (some (codes "sentiment_analyst")) end 6 50 one_check))

two_calls-Traced : Traced two_calls
two_calls-Traced = llm_ended none 71 90 (
    chat_started [] 72 none end 7 60 (
      chat_started [] 71 (some (codes "sentiment_analyst")) end 6 50
        (added (codes "risk_manager") check end end none 5 begun)))

Traced-IsTrace_example : IsTrace two_calls
Traced-IsTrace_example = Traced-IsTrace two_calls-Traced

found_key : looks_like_key (codes "key sk-ant-0123456789abcdef") ≡ true
unfolding looks_like_key
found_key = refl

record_trace_lem_example :
    (All IsClean two_calls.steps
      × (count_if (is_taken 3 []) two_calls.steps ≡ 0)
      × (record_trace 3 two_calls []
          ≡ ok ([] ++ map (row_of 3) two_calls.steps, length two_calls.steps)))
    ⊎ (All IsClean two_calls.steps
        × (0 < count_if (is_taken 3 []) two_calls.steps)
        × (record_trace 3 two_calls [] ≡ err duplicate_step))
    ⊎ ((s : Step) × FirstKey two_calls.steps s
        × (record_trace 3 two_calls [] ≡ err (key_like s.step)))
record_trace_lem_example =
    record_trace_lem 3 two_calls [] (Traced-IsTrace two_calls-Traced).numbered
