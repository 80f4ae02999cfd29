-- ===== src/TraceAudit/RoundTrip.antt =====
-- The explainer node (app/agent/explainer.py), record_trace (app/agent/trace.py) and rebuild_explanation_check
-- (app/agent/trace_audit.py), one after another: the explanation's check comes back from its trace.
use mathlib.Core.Option.{some-injective}
use paper_trading_agent.Base.{
  ℕ, ◌≡◌, refl, ap, sym, ◌∙◌, subst, inl, inr, Bool, true, false, ◌||◌, Bool-cases, Option, none,
  some, List, [], ◌∷◌, ◌++◌, Text, codes, same_text, length, select, All, Result, ok, ◌>>=◌,
  >>=-eq-ok, or_raise, or_raise-eq-ok, ok_injective,
}
use paper_trading_agent.DataSources.Headlines.{HeadlineRow}
use paper_trading_agent.Trace.Json.{Value, text, Fields, field}
use paper_trading_agent.Trace.{
  check, Step, TraceRecorder, new_step, TraceRow, record_step, add, record_trace, Message, Reply,
}
use paper_trading_agent.Trace.Numbering.{NumberedFrom}
use paper_trading_agent.Explainer.{ExplanationCall, Retrieved, validate, triggered}
use paper_trading_agent.Explainer.Retrieval.{RetrievalMethod}
use paper_trading_agent.Explainer.Node.{
  TailDay, RiskOutput, RiskExplanation, is_empty, tail_of, retrieve_days, call_model, check_input,
  check_output, explanation_of, ExplainError, unreadable, explain,
}
use paper_trading_agent.TraceAudit.{load_steps, rebuild_explanation_check}
use paper_trading_agent.TraceAudit.Answers.{
  stored_check, rebuild-one, check_reply-of, Explained, Explained-of, Accounts-nothing,
}
use paper_trading_agent.TraceAudit.Loading.{is_of, load_steps-record_trace}
use paper_trading_agent.TraceAudit.Explaining.{call_model-some, retrieve_days-some}

module _ (ny_day : ℕ → ℕ) (ny_midnight : ℕ → ℕ) (ts_rank : Text → Text → ℕ) (score_text : ℕ → Text)
    (iso : ℕ → Text) (iso_time : ℕ → Text) (day_of : Text → ℕ)
    (structured : Value → Option ExplanationCall) where
  module _ (method : RetrievalMethod) (own : Option (List Text)) (symbol : Text) (as_of : ℕ)
      (rows : List HeadlineRow) (raw : RiskOutput) (messages : List Message) (run_id : ℕ)
      (params : Fields) (now t0 t1 : ℕ) (reply : Reply) where
    abbrev run_node :
        Option TraceRecorder → Result ExplainError (Option RiskExplanation × Option TraceRecorder)
    run_node =
        explain ny_day ny_midnight ts_rank score_text iso iso_time day_of structured method own
          symbol as_of rows raw messages run_id params now t0 t1 reply

    abbrev searched : TraceRecorder → Retrieved × Option TraceRecorder
    searched r =
        retrieve_days ny_day ny_midnight ts_rank score_text iso iso_time day_of method own symbol
          as_of rows now (tail_of raw.var_tail) [] (some r)

    abbrev check_step : Retrieved → ExplanationCall → ℕ → Step
    check_step retrieved call =
        new_step (codes "explainer") check (check_input retrieved call)
          (check_output (validate call retrieved).0 (validate call retrieved).1) none now

    abbrev with_check : Retrieved → ExplanationCall → Option TraceRecorder → Option TraceRecorder
    with_check retrieved call active =
        (record_step (codes "explainer") check (check_input retrieved call)
          (check_output (validate call retrieved).0 (validate call retrieved).1) now active).0

    with_check-some :
        (retrieved : Retrieved) (call : ExplanationCall) (r : TraceRecorder)
        → with_check retrieved call (some r)
          ≡ some (record r { steps = r.steps ++ check_step retrieved call (length r.steps) ∷ [] })
    unfolding record_step add
    with_check-some retrieved call r = refl

    abbrev checked : ExplanationCall → TraceRecorder → Option TraceRecorder
    checked call r =
        with_check (searched r).0 call
          (call_model messages run_id params now t0 t1 reply (searched r).1)

    abbrev is_idle : Bool
    is_idle = is_empty (triggered raw.risk_flags) || is_empty (tail_of raw.var_tail)

    abbrev explained : TraceRecorder → ExplanationCall → RiskExplanation × Option TraceRecorder
    explained r call = (
      explanation_of method (triggered raw.risk_flags) (tail_of raw.var_tail) (searched r).0 call,
      checked call r,
    )

    explain-idle : (r : TraceRecorder) → is_idle ≡ true → run_node (some r) ≡ ok (none, some r)
    unfolding explain
    explain-idle r idle = rw idle refl

    explain-busy :
        (r : TraceRecorder)
        → is_idle ≡ false
        → run_node (some r) ≡ (
            or_raise (structured reply.content) unreadable >>= λ call.
            ok (some (explained r call).0, (explained r call).1))
    unfolding explain
    explain-busy r busy = rw busy refl

    -- A node that explained something had a reply that can be read.
    explain-some :
        (r : TraceRecorder) {e : RiskExplanation} {after : Option TraceRecorder}
        → run_node (some r) ≡ ok (some e, after)
        → (call : ExplanationCall) × (structured reply.content ≡ some call)
          × ((explained r call).0 ≡ e)
          × ((explained r call).1 ≡ after)
    explain-some r {e} {after} done = elim (Bool-cases is_idle) [
      | inl idle ↦
          (let nothing : none ≡ some e =
              ap (λ p. p.0) (ok_injective (sym (explain-idle r idle) ∙ done)) in
            cc)
      | inr busy ↦
          (let (call, read, rest) =
              >>=-eq-ok (or_raise (structured reply.content) unreadable) _
                (sym (explain-busy r busy) ∙ done) in
            let same = ok_injective rest in
            (
              call,
              or_raise-eq-ok _ _ read,
              some-injective _ _ (ap (λ p. p.0) same),
              ap (λ p. p.1) same,
            ))
    ]

    checked-some :
        (r : TraceRecorder) (call : ExplanationCall) {after : TraceRecorder}
        → NumberedFrom 0 r.steps
        → All (λ s. same_text s.node (codes "explainer") ≡ false) r.steps
        → All (λ (t : TailDay). iso (day_of t.date) ≡ t.date) (tail_of raw.var_tail)
        → checked call r ≡ some after
        → Explained (searched r).0 reply after.steps
    checked-some r call {after} numbered others same done =
        let (r1, e1, a) =
          retrieve_days-some ny_day ny_midnight ts_rank score_text iso iso_time day_of method own
            symbol as_of rows now (tail_of raw.var_tail) [] r same
            (Accounts-nothing r.steps numbered others) in
        let (r2, s, e2, adds, of_node, of_kind, number, content) =
          call_model-some messages run_id params now t0 t1 reply r1 in
        let ends =
          sym done
          ∙ ap
              (λ x.
                with_check (searched r).0 call
                  (call_model messages run_id params now t0 t1 reply x))
              e1
          ∙ ap (with_check (searched r).0 call) e2
          ∙ with_check-some (searched r).0 call r2 in
        let whole : after.steps
            ≡ (r1.steps ++ s ∷ [])
              ++ check_step (searched r).0 call (length (r1.steps ++ s ∷ [])) ∷ [] =
          ap (λ (x : TraceRecorder). x.steps) (some-injective _ _ ends)
          ∙ ap (λ ss. ss ++ check_step (searched r).0 call (length ss) ∷ []) adds in
        subst (Explained (searched r).0 reply) (sym whole)
          (Explained-of (searched r).0 reply r1.steps s _ _ _ now a of_node of_kind number content)

    module _ (model_validate_json : Text → Option ExplanationCall)
        (reads_json : (s : Text) → structured (text s) ≡ model_validate_json s) where
      -- Where the structured output of a text reply is what the parser makes of that text, the dates are
      -- ISO texts, the reply is a text, the recorder's steps so far are numbered and none is the
      -- explainer's, and the decision has no rows yet: when the node explained the ruling and its trace
      -- was written, the check rebuilt from the rows is the one stored with the explanation.
      pub rebuilt_check_lem :
          (decision_id : ℕ) (content : Text) (r after : TraceRecorder) (e : RiskExplanation)
          (table : List TraceRow) {table' : List TraceRow} {n : ℕ}
          → All (λ (t : TailDay). iso (day_of t.date) ≡ t.date) (tail_of raw.var_tail)
          → reply.content ≡ text content
          → NumberedFrom 0 r.steps
          → All (λ s. same_text s.node (codes "explainer") ≡ false) r.steps
          → select (is_of decision_id) table ≡ []
          → run_node (some r) ≡ ok (some e, some after)
          → record_trace decision_id after table ≡ ok (table', n)
          → rebuild_explanation_check model_validate_json (load_steps table' decision_id)
            ≡ ok (some (stored_check e))
      rebuilt_check_lem decision_id content r after e table same texts numbered others fresh done
            wrote =
          let (call, read, explains, checks) = explain-some r done in
          let x = checked-some r call numbered others same checks in
          let parsed : model_validate_json content ≡ some call =
            sym (reads_json content) ∙ ap structured (sym texts) ∙ read in
          let output : x.answer.output ≡ field (codes "content") (text content) x.tool_calls =
            x.content ∙ ap (λ c. field (codes "content") c x.tool_calls) texts in
          ap (rebuild_explanation_check model_validate_json)
            (load_steps-record_trace decision_id after table x.numbered fresh wrote)
          ∙ rebuild-one model_validate_json after.steps x.answer (searched r).0 x.found x.one_reply
          ∙ check_reply-of model_validate_json method (triggered raw.risk_flags)
              (tail_of raw.var_tail) (searched r).0 x.answer content x.tool_calls call output parsed
          ∙ ap (λ y. ok (some (stored_check y))) explains
