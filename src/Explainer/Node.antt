-- ===== src/Explainer/Node.antt =====
-- The explainer node of app/agent/explainer.py: retrieval for each driver day, the model's call, the check of
-- its citations, and what goes to risk_explanations. The prompt's text (`messages`), the label of the
-- model and the template baseline are left out. `day_of` is date.fromisoformat, and `structured` is what
-- the model's structured output makes of a reply's content, `none` where that raises.
use paper_trading_agent.Base.{
  ℕ, suc, Bool, true, false, ◌||◌, Option, none, some, List, [], ◌∷◌, ◌++◌, map, if◌then◌else◌, ℤ,
  pos, negsuc, Text, codes, same_text, take, Result, ok, ◌>>=◌, or_raise,
}
use paper_trading_agent.Numbers.Ratio.{Ratio}
use paper_trading_agent.RiskManager.{Flag}
use paper_trading_agent.DataSources.Headlines.{HeadlineRow}
use paper_trading_agent.Trace.Json.{
  Value, flag, int, text, arr, obj, Items, nil, cons, Fields, end, field, digits,
}
use paper_trading_agent.Trace.{
  check, TraceRecorder, record_step, Message, on_chat_model_start, Reply, on_llm_end,
}
use paper_trading_agent.Explainer.{
  DriverExplanation, ExplanationCall, Retrieved, assign, Problem, unknown_driver_date,
  not_retrieved, no_driver_entry, triggered, validate,
}
use paper_trading_agent.Explainer.Retrieval.{RetrievalMethod, around}

abbrev pub driver_days : ℕ
driver_days = 5

-- An entry of `var_tail`.
pub record TailDay : Type 0 where
  pub date : Text
  pub loss : Ratio

-- What the node reads of the risk manager's raw output.
pub record RiskOutput : Type 0 where
  pub risk_flags : List Flag
  pub var_tail : Option (List TailDay)

-- A driver, with the return of its day.
pub record DriverRow : Type 0 where
  pub driver : DriverExplanation
  pub loss : Option Ratio

pub record RiskExplanation : Type 0 where
  pub trigger_flags : List Flag
  pub retrieval_method : RetrievalMethod
  pub retrieved : Retrieved
  pub cited_headline_ids : List ℤ
  pub citations_valid : Bool
  pub validation_problems : List Problem
  pub summary : Text
  pub drivers : List DriverRow

abbrev pub is_empty {ℓ} : {A : Type ℓ} → List A → Bool
is_empty [] = true
is_empty (x ∷ xs) = false

-- `(raw.get("var_tail") or [])[:DRIVER_DAYS]`
abbrev pub tail_of : Option (List TailDay) → List TailDay
tail_of none = []
tail_of (some days) = take driver_days days

-- `returns.get(date)`, where a later day of one date wins.
unfoldable pub loss_on : Text → List TailDay → Option Ratio
loss_on date [] = none
loss_on date (t ∷ ts) = elim (loss_on date ts) [
  | some later ↦ some later
  | none ↦ if same_text date t.date then some t.loss else none
]

abbrev pub id_text : ℤ → Text
id_text (pos n) = digits n
id_text (negsuc n) = 45 ∷ digits (suc n)

abbrev pub comma_joined : List Text → Text
comma_joined [] = []
comma_joined (t ∷ []) = t
comma_joined (t ∷ u ∷ ts) = t ++ codes ", " ++ comma_joined (u ∷ ts)

-- The problem's text.
abbrev pub problem_text : Problem → Text
problem_text (unknown_driver_date day) = codes "unknown driver date " ++ day
problem_text (not_retrieved hid day) =
    codes "headline " ++ id_text hid ++ codes " was not retrieved for " ++ day
problem_text (no_driver_entry days) = codes "no driver entry for " ++ comma_joined days

abbrev pub id_items : List ℤ → Items
id_items [] = nil
id_items (i ∷ is) = cons (int i) (id_items is)

abbrev pub problem_items : List Problem → Items
problem_items [] = nil
problem_items (p ∷ ps) = cons (text (problem_text p)) (problem_items ps)

abbrev pub retrieved_fields : Retrieved → Fields
retrieved_fields [] = end
retrieved_fields ((day, ids) ∷ rest) = field day (arr (id_items ids)) (retrieved_fields rest)

-- `[d.model_dump() for d in call.drivers]`
abbrev pub driver_items : List DriverExplanation → Items
driver_items [] = nil
driver_items (d ∷ ds) =
    cons
      (obj (
        field (codes "date") (text d.date) (
          field (codes "cause") (text d.cause)
            (field (codes "headline_ids") (arr (id_items d.headline_ids)) end))))
      (driver_items ds)

abbrev pub check_input : Retrieved → ExplanationCall → Fields
check_input retrieved call =
    field (codes "retrieved") (obj (retrieved_fields retrieved))
      (field (codes "drivers") (arr (driver_items call.drivers)) end)

abbrev pub check_output : List ℤ → List Problem → Fields
check_output cited problems = field (codes "cited") (arr (id_items cited)) (
    field (codes "problems") (arr (problem_items problems))
      (field (codes "citations_valid") (flag (is_empty problems)) end))

-- The model's call: LangChain runs the recorder's callbacks around it.
abbrev pub call_model :
    List Message → ℕ → Fields → ℕ → ℕ → ℕ → Reply → Option TraceRecorder → Option TraceRecorder
call_model messages run_id params now t0 t1 reply none = none
call_model messages run_id params now t0 t1 reply (some r) = some (
    on_llm_end (some reply) run_id t1
      (on_chat_model_start messages run_id (some (codes "explainer")) params now t0 r))

abbrev pub explanation_of :
    RetrievalMethod → List Flag → List TailDay → Retrieved → ExplanationCall → RiskExplanation
explanation_of method flags tail retrieved call =
    let (cited, problems) = validate call retrieved in
    record {
      trigger_flags = flags;
      retrieval_method = method;
      retrieved = retrieved;
      cited_headline_ids = cited;
      citations_valid = is_empty problems;
      validation_problems = problems;
      summary = call.summary;
      drivers =
          map (λ (d : DriverExplanation). record { driver = d; loss = loss_on d.date tail })
            call.drivers;
    }

-- `unreadable` is the exception of a reply that is no ExplanationCall.
pub data ExplainError : Type 0 where
  unreadable : ExplainError

module _ (ny_day : ℕ → ℕ) (ny_midnight : ℕ → ℕ) (ts_rank : Text → Text → ℕ) (score_text : ℕ → Text)
    (iso : ℕ → Text) (iso_time : ℕ → Text) (day_of : Text → ℕ) where
  -- The loop over the driver days.
  unfoldable pub retrieve_days :
      RetrievalMethod
      → Option (List Text)
      → Text
      → ℕ
      → List HeadlineRow
      → ℕ
      → List TailDay
      → Retrieved
      → Option TraceRecorder
      → Retrieved × Option TraceRecorder
  retrieve_days method own symbol as_of rows now [] retrieved active = (retrieved, active)
  retrieve_days method own symbol as_of rows now (t ∷ ts) retrieved active =
      let (found, active') =
        around ny_day ny_midnight ts_rank score_text iso iso_time method own symbol (day_of t.date)
          as_of rows now active in
      retrieve_days method own symbol as_of rows now ts
        (assign t.date (map (λ (h : HeadlineRow). h.id) found) retrieved) active'

  module _ (structured : Value → Option ExplanationCall) where
    -- The node, for a ruling with `raw` on a symbol at an instant, of which the recorder is told.
    unfoldable pub explain :
        RetrievalMethod
        → Option (List Text)
        → Text
        → ℕ
        → List HeadlineRow
        → RiskOutput
        → List Message
        → ℕ
        → Fields
        → ℕ
        → ℕ
        → ℕ
        → Reply
        → Option TraceRecorder
        → Result ExplainError (Option RiskExplanation × Option TraceRecorder)
    unfolding retrieve_days
    explain method own symbol as_of rows raw messages run_id params now t0 t1 reply active =
        let flags = triggered raw.risk_flags in
        let tail = tail_of raw.var_tail in
        if is_empty flags || is_empty tail
        then ok (none, active)
        else (let searched = retrieve_days method own symbol as_of rows now tail [] active in
            let called = call_model messages run_id params now t0 t1 reply searched.1 in
            or_raise (structured reply.content) unreadable >>= λ call. ok (
              some (explanation_of method flags tail searched.0 call),
              (record_step (codes "explainer") check (check_input searched.0 call)
                  (check_output (validate call searched.0).0 (validate call searched.0).1) now
                  called).0,
            ))
