-- ===== src/TraceAudit/Answers.antt =====
-- rebuild_explanation_check of app/agent/trace_audit.py on the steps that an explained decision leaves.
use mathlib.Core.List.{append-nil}
use paper_trading_agent.Base.{
  ℕ, ◌≡◌, refl, ap, ◌∙◌, inl, inr, true, false, Bool-cases, Option, none, some, List, [], ◌∷◌, ◌++◌,
  map, Text, codes, same_text, length, select_hit, select_miss, select-append, All, ok, arith,
}
use paper_trading_agent.RiskManager.{Flag}
use paper_trading_agent.Trace.Json.{text, Fields, field, jsonable}
use paper_trading_agent.Trace.{llm, check, Step, new_step, stored, Reply}
use paper_trading_agent.Trace.Numbering.{NumberedFrom, NumberedFrom-append}
use paper_trading_agent.Explainer.{ExplanationCall, Retrieved}
use paper_trading_agent.Explainer.Retrieval.{RetrievalMethod}
use paper_trading_agent.Explainer.Node.{TailDay, RiskExplanation, explanation_of}
use paper_trading_agent.TraceAudit.{
  retrieved_from, is_explainer_retrieval, is_explainer_reply, CitationCheck, check_reply,
  rebuild_explanation_check,
}
use paper_trading_agent.TraceAudit.Explaining.{retrievals, replies, Accounts}

-- The fields of risk_explanations that the audit compares.
abbrev pub stored_check : RiskExplanation → CitationCheck
stored_check e = record {
  retrieved = e.retrieved;
  cited_headline_ids = e.cited_headline_ids;
  validation_problems = e.validation_problems;
  citations_valid = e.citations_valid;
}

retrievals-stored : (ss : List Step) → retrievals (map stored ss) ≡ map stored (retrievals ss)
retrievals-stored [] = refl
retrievals-stored (s ∷ ss) = elim (Bool-cases (is_explainer_retrieval s)) [
  | inl e ↦ rw e (ap (λ ts. stored s ∷ ts) (retrievals-stored ss))
  | inr e ↦ rw e (retrievals-stored ss)
]

replies-stored : (ss : List Step) → replies (map stored ss) ≡ map stored (replies ss)
replies-stored [] = refl
replies-stored (s ∷ ss) = elim (Bool-cases (is_explainer_reply s)) [
  | inl e ↦ rw e (ap (λ ts. stored s ∷ ts) (replies-stored ss))
  | inr e ↦ rw e (replies-stored ss)
]

module _ (model_validate_json : Text → Option ExplanationCall) where
  -- A trace with one reply: the check is that of the reply.
  pub rebuild-one :
      (ss : List Step) (s : Step) (retrieved : Retrieved)
      → retrieved_from [] (map stored (retrievals ss)) ≡ ok retrieved
      → replies ss ≡ s ∷ []
      → rebuild_explanation_check model_validate_json (map stored ss)
        ≡ check_reply model_validate_json retrieved (stored s)
  unfolding rebuild_explanation_check
  rebuild-one ss s retrieved found one =
      rw (replies-stored ss, rebuild_explanation_check)
        (rw one (rw (retrievals-stored ss) (rw found refl)))

  pub check_reply-of :
      (method : RetrievalMethod) (flags : List Flag) (tail : List TailDay) (retrieved : Retrieved)
      (s : Step) (content : Text) (rest : Fields) (call : ExplanationCall)
      → s.output ≡ field (codes "content") (text content) rest
      → model_validate_json content ≡ some call
      → check_reply model_validate_json retrieved (stored s)
        ≡ ok (some (stored_check (explanation_of method flags tail retrieved call)))
  unfolding jsonable same_text
  check_reply-of method flags tail retrieved s content rest call e parsed = rw e (rw parsed refl)

-- The steps of an explained decision: they account for the retrievals, and hold one reply.
pub record Explained (retrieved : Retrieved) (reply : Reply) (steps : List Step) : Type 0 where
  pub numbered : NumberedFrom 0 steps
  pub found : retrieved_from [] (map stored (retrievals steps)) ≡ ok retrieved
  pub answer : Step
  pub one_reply : replies steps ≡ answer ∷ []
  pub tool_calls : Fields
  pub content : answer.output ≡ field (codes "content") reply.content tool_calls

-- The reply and the check are two more steps.
pub Explained-of :
    (retrieved : Retrieved) (reply : Reply) (ss : List Step) (s : Step) (rest : Fields)
    (input output : Fields) (now : ℕ)
    → Accounts retrieved ss
    → s.node ≡ codes "explainer"
    → s.kind ≡ llm
    → s.step ≡ length ss
    → s.output ≡ field (codes "content") reply.content rest
    → Explained retrieved reply (
        (ss ++ s ∷ [])
        ++ new_step (codes "explainer") check input output none now (length (ss ++ s ∷ [])) ∷ [])
unfolding same_text
Explained-of retrieved reply ss s rest input output now a of_node of_kind number e =
    let c = new_step (codes "explainer") check input output none now (length (ss ++ s ∷ [])) in
    let no_search : is_explainer_retrieval s ≡ false = rw of_node (rw of_kind refl) in
    let is_answer : is_explainer_reply s ≡ true = rw of_node (rw of_kind refl) in
    let searches : retrievals ((ss ++ s ∷ []) ++ c ∷ []) ≡ retrievals ss =
      select-append is_explainer_retrieval (ss ++ s ∷ []) (c ∷ [])
      ∙ append-nil _
      ∙ select-append is_explainer_retrieval ss (s ∷ [])
      ∙ ap (λ x. retrievals ss ++ x) (select_miss is_explainer_retrieval s [] no_search)
      ∙ append-nil _ in
    let answers : replies ((ss ++ s ∷ []) ++ c ∷ []) ≡ s ∷ [] =
      select-append is_explainer_reply (ss ++ s ∷ []) (c ∷ [])
      ∙ append-nil _
      ∙ select-append is_explainer_reply ss (s ∷ [])
      ∙ ap (λ x. replies ss ++ x) (select_hit is_explainer_reply s [] is_answer)
      ∙ ap (λ x. x ++ s ∷ []) a.silent in
    record {
      numbered =
          NumberedFrom-append 0 (ss ++ s ∷ []) c
            (NumberedFrom-append 0 ss s a.numbered (omega (arith, number))) (omega arith);
      found = ap (λ x. retrieved_from [] (map stored x)) searches ∙ a.found;
      answer = s;
      one_reply = answers;
      tool_calls = rest;
      content = e;
    }

no_steps :
    (ss : List Step)
    → All (λ s. same_text s.node (codes "explainer") ≡ false) ss
    → (retrievals ss ≡ []) × (replies ss ≡ [])
no_steps [] h = (refl, refl)
no_steps (s ∷ ss) (h, hs) = (
  select_miss is_explainer_retrieval s ss (rw h refl) ∙ (no_steps ss hs).0,
  select_miss is_explainer_reply s ss (rw h refl) ∙ (no_steps ss hs).1,
)

pub Accounts-nothing :
    (ss : List Step)
    → NumberedFrom 0 ss
    → All (λ s. same_text s.node (codes "explainer") ≡ false) ss
    → Accounts [] ss
unfolding retrieved_from
Accounts-nothing ss numbered others = record {
  numbered = numbered;
  found = rw (no_steps ss others).0 refl;
  silent = (no_steps ss others).1;
}
