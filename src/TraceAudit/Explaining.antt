-- ===== src/TraceAudit/Explaining.antt =====
-- What the explainer node of app/agent/explainer.py leaves in the recorder, as app/agent/trace_audit.py reads it.
use paper_trading_agent.Base.{
  ℕ, suc, ◌-◌, ◌≡◌, refl, ap, ◌∙◌, subst, Option, none, some, List, [], ◌∷◌, ◌++◌, map, ==_iff, ℤ,
  Text, codes, same_text, length, select, select-append, All, ok, or_raise, ok_injective, >>=-eq-ok,
  or_raise-eq-ok, arith,
}
use paper_trading_agent.DataSources.Headlines.{HeadlineRow}
use paper_trading_agent.Trace.Json.{arr, Items, Fields, end, field, jsonable, jsonable_items}
use paper_trading_agent.Trace.{
  llm, retrieval, Step, TraceRecorder, new_step, stored, add, record_step, Message,
  on_chat_model_start, Reply, with_duration, with_reply, find_run, drop_run, change_step,
  on_llm_end,
}
use paper_trading_agent.Trace.Numbering.{NumberedFrom, NumberedFrom-append}
use paper_trading_agent.Explainer.{Retrieved, assign}
use paper_trading_agent.Explainer.Retrieval.{
  RetrievalMethod, query_for, headlines_per_day, search_headlines, result_items, retrieval_input,
  around,
}
use paper_trading_agent.Explainer.Node.{TailDay, retrieve_days, call_model}
use paper_trading_agent.TraceAudit.{
  malformed, ids_of, result_ids, text_at, retrieved_from, is_explainer_retrieval,
  is_explainer_reply,
}

-- The retrievals and the replies among some steps.
abbrev pub retrievals : List Step → List Step
retrievals = select is_explainer_retrieval

abbrev pub replies : List Step → List Step
replies = select is_explainer_reply

-- The steps account for the dict `retrieved`, with no reply so far.
pub record Accounts (retrieved : Retrieved) (steps : List Step) : Type 0 where
  pub numbered : NumberedFrom 0 steps
  pub found : retrieved_from [] (map stored (retrievals steps)) ≡ ok retrieved
  pub silent : replies steps ≡ []

retrieved_from-append :
    (retrieved : Retrieved) (xs ys : List Step) {last : Retrieved}
    → retrieved_from retrieved xs ≡ ok last
    → retrieved_from retrieved (xs ++ ys) ≡ retrieved_from last ys
unfolding retrieved_from
retrieved_from-append retrieved [] ys e = ap (λ a. retrieved_from a ys) (ok_injective e)
retrieved_from-append retrieved (x ∷ xs) ys e =
    let (day, day_read, e') = >>=-eq-ok (or_raise (text_at (codes "day") x.input) malformed) _ e in
    let (ids, ids_read, e'') = >>=-eq-ok (or_raise (result_ids x.output) malformed) _ e' in
    rw (or_raise-eq-ok _ _ day_read) (
      rw (or_raise-eq-ok _ _ ids_read) (retrieved_from-append (assign day ids retrieved) xs ys e''))

map-append : (xs ys : List Step) → map stored (xs ++ ys) ≡ map stored xs ++ map stored ys
map-append [] ys = refl
map-append (x ∷ xs) ys = ap (λ zs. stored x ∷ zs) (map-append xs ys)

change_step-last :
    (f : Step → Step) (ss : List Step) (s : Step)
    → change_step (length ss) f (ss ++ s ∷ []) ≡ ss ++ f s ∷ []
unfolding change_step
change_step-last f [] s = refl
change_step-last f (x ∷ ss) s = ap (λ ts. x ∷ ts) (change_step-last f ss s)

abbrev replied : Reply → ℕ → Step → Step
replied reply ms s = with_reply (some reply) (with_duration ms s)

abbrev ended : Reply → ℕ → ℕ → ℕ → TraceRecorder → TraceRecorder
ended reply run_id index ms r = record {
  steps = change_step index (replied reply ms) r.steps;
  unfinished = drop_run run_id r.unfinished;
}

on_llm_end-found :
    (reply : Reply) (run_id counter index t0 : ℕ) (r : TraceRecorder)
    → find_run run_id r.unfinished ≡ some (index, t0)
    → on_llm_end (some reply) run_id counter r ≡ ended reply run_id index (counter - t0) r
unfolding on_llm_end change_step drop_run
on_llm_end-found reply run_id counter index t0 r e = rw (e, on_llm_end) refl

-- The start of the explainer's call adds a step and remembers it.
on_chat_model_start-adds :
    (messages : List Message) (run_id : ℕ) (params : Fields) (now t0 : ℕ) (r : TraceRecorder)
    → (s : Step) × ((on_chat_model_start messages run_id
          (some (codes "explainer"))
          params
          now
          t0
          r).steps
        ≡ r.steps ++ s ∷ [])
      × (s.node ≡ codes "explainer")
      × (s.kind ≡ llm)
      × (s.step ≡ length r.steps)
      × (find_run run_id
            (on_chat_model_start messages run_id
              (some (codes "explainer"))
              params
              now
              t0
              r).unfinished
          ≡ some (length r.steps, t0))
unfolding on_chat_model_start
on_chat_model_start-adds messages run_id params now t0 r =
    (_, refl, refl, refl, refl, rw ((==_iff run_id run_id).1 refl) refl)

-- The model's call adds one step, the explainer's, with the reply.
pub call_model-some :
    (messages : List Message) (run_id : ℕ) (params : Fields) (now t0 t1 : ℕ) (reply : Reply)
    (r : TraceRecorder)
    → (r' : TraceRecorder) × (s : Step) × (call_model messages run_id params now t0 t1 reply
          (some r)
        ≡ some r')
      × (r'.steps ≡ r.steps ++ s ∷ [])
      × (s.node ≡ codes "explainer")
      × (s.kind ≡ llm)
      × (s.step ≡ length r.steps)
      × (s.output
          ≡ field
              (codes "content")
              reply.content
              (field (codes "tool_calls") (arr reply.tool_calls) end))
call_model-some messages run_id params now t0 t1 reply r =
    let started = on_chat_model_start messages run_id (some (codes "explainer")) params now t0 r in
    let (s, adds, of_node, of_kind, numbered, here) =
      on_chat_model_start-adds messages run_id params now t0 r in
    (
      ended reply run_id (length r.steps) (t1 - t0) started,
      replied reply (t1 - t0) s,
      ap some (on_llm_end-found reply run_id t1 (length r.steps) t0 started here),
      ap (change_step (length r.steps) (replied reply (t1 - t0))) adds
          ∙ change_step-last (replied reply (t1 - t0)) r.steps s,
      of_node,
      of_kind,
      numbered,
      refl,
    )

module _ (ny_day : ℕ → ℕ) (ny_midnight : ℕ → ℕ) (ts_rank : Text → Text → ℕ) (score_text : ℕ → Text)
    (iso : ℕ → Text) (iso_time : ℕ → Text) (day_of : Text → ℕ) where
  abbrev items : Option Text → ℕ → List HeadlineRow → Items
  items = result_items ny_day ny_midnight ts_rank score_text iso iso_time

  -- The ids of the traced results are those of the headlines.
  ids_of-result_items :
      (query : Option Text) (rank : ℕ) (hs : List HeadlineRow)
      → ids_of (jsonable_items (items query rank hs)) ≡ some (map (λ (h : HeadlineRow). h.id) hs)
  unfolding ids_of result_items jsonable same_text
  ids_of-result_items query rank [] = refl
  ids_of-result_items query rank (h ∷ hs) = rw (ids_of-result_items query (suc rank) hs) refl

  module _ (method : RetrievalMethod) (own : Option (List Text)) (symbol : Text) (as_of : ℕ)
      (rows : List HeadlineRow) (now : ℕ) where
    abbrev found_on : ℕ → List HeadlineRow
    found_on day =
        search_headlines ny_day ny_midnight ts_rank score_text iso iso_time method own symbol day
          as_of headlines_per_day rows

    -- The step that a retrieval adds.
    abbrev retrieval_step : ℕ → ℕ → Step
    retrieval_step day =
        new_step (codes "explainer") retrieval
          (retrieval_input ny_day ny_midnight ts_rank score_text iso iso_time method
            (query_for method own symbol) symbol day as_of headlines_per_day)
          (field (codes "results") (arr (items (query_for method own symbol) 1 (found_on day))) end)
          none now

    abbrev day_ids : ℕ → List ℤ
    day_ids day = map (λ (h : HeadlineRow). h.id) (found_on day)

    retrieved_from-step :
        (retrieved : Retrieved) (day number : ℕ)
        → retrieved_from retrieved (stored (retrieval_step day number) ∷ [])
          ≡ ok (assign (iso day) (day_ids day) retrieved)
    unfolding retrieved_from jsonable same_text
    retrieved_from-step retrieved day number =
        rw (ids_of-result_items (query_for method own symbol) 1 (found_on day)) refl

    retrievals-append :
        (ss : List Step) (day number : ℕ)
        → retrievals (ss ++ retrieval_step day number ∷ [])
          ≡ retrievals ss ++ retrieval_step day number ∷ []
    unfolding same_text
    retrievals-append ss day number =
        select-append is_explainer_retrieval ss (retrieval_step day number ∷ [])

    replies-append :
        (ss : List Step) (day number : ℕ)
        → replies ss ≡ []
        → replies (ss ++ retrieval_step day number ∷ []) ≡ []
    unfolding same_text
    replies-append ss day number silent =
        select-append is_explainer_reply ss (retrieval_step day number ∷ []) ∙ rw silent refl

    Accounts-step :
        (retrieved : Retrieved) (ss : List Step) (day : ℕ)
        → Accounts retrieved ss
        → Accounts
            (assign (iso day) (day_ids day) retrieved)
            (ss ++ retrieval_step day (length ss) ∷ [])
    Accounts-step retrieved ss day a = record {
      numbered = NumberedFrom-append 0 ss _ a.numbered (omega arith);
      found =
          ap (λ xs. retrieved_from [] (map stored xs)) (retrievals-append ss day (length ss))
          ∙ ap (retrieved_from [])
              (map-append (retrievals ss) (retrieval_step day (length ss) ∷ []))
          ∙ retrieved_from-append [] (map stored (retrievals ss)) _ a.found
          ∙ retrieved_from-step retrieved day (length ss);
      silent = replies-append ss day (length ss) a.silent;
    }

    abbrev with_step : ℕ → TraceRecorder → TraceRecorder
    with_step day r = record r { steps = r.steps ++ retrieval_step day (length r.steps) ∷ [] }

    abbrev days_end :
        List TailDay → Retrieved → Option TraceRecorder → Retrieved × Option TraceRecorder
    days_end =
        retrieve_days ny_day ny_midnight ts_rank score_text iso iso_time day_of method own symbol
          as_of rows now

    days_end-step :
        (t : TailDay) (ts : List TailDay) (retrieved : Retrieved) (r : TraceRecorder)
        → days_end (t ∷ ts) retrieved (some r)
          ≡ days_end ts
              (assign t.date (day_ids (day_of t.date)) retrieved)
              (some (with_step (day_of t.date) r))
    unfolding retrieve_days around record_step add
    days_end-step t ts retrieved r = refl

    -- After the loop over the driver days the steps account for the dict that it built.
    pub retrieve_days-some :
        (ts : List TailDay) (retrieved : Retrieved) (r : TraceRecorder)
        → All (λ (t : TailDay). iso (day_of t.date) ≡ t.date) ts
        → Accounts retrieved r.steps
        → (r' : TraceRecorder) × ((days_end ts retrieved (some r)).1 ≡ some r')
          × Accounts (days_end ts retrieved (some r)).0 r'.steps
    unfolding retrieve_days
    retrieve_days-some [] retrieved r same a = (r, refl, a)
    retrieve_days-some (t ∷ ts) retrieved r (e, same) a = rw (days_end-step t ts retrieved r) (
        retrieve_days-some ts (assign t.date (day_ids (day_of t.date)) retrieved)
          (with_step (day_of t.date) r) same
          (subst
            (λ x.
              Accounts (assign x (day_ids (day_of t.date)) retrieved)
                (with_step (day_of t.date) r).steps)
            e (Accounts-step retrieved r.steps (day_of t.date) a)))
