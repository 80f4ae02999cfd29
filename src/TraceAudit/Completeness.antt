-- ===== src/TraceAudit/Completeness.antt =====
-- completeness of app/agent/trace_audit.py: every stored explanation that has a trace is rebuilt from it and
-- compared with what is stored, field by field.
pub mod Agreement
use paper_trading_agent.Base.{
  ℕ, ◌≡◌, refl, ap, sym, ◌∙◌, Bool, true, false, ◌&&◌, ◌||◌, not, inl, inr, Option, none, some,
  List, [], ◌∷◌, ◌++◌, map, leb, ◌==◌, ℤ, eq_of_parts, eq_ℤ, Bool-cases, Text, same_text,
  same_text_iff, length, select, All, Result, ok, ◌>>=◌, >>=-eq-ok, ok_injective, arith,
}
use paper_trading_agent.Numbers.Sorting.{sorted}
use paper_trading_agent.Trace.{TraceRow}
use paper_trading_agent.Explainer.{ExplanationCall, Retrieved, lookup, Problem}
use paper_trading_agent.Explainer.Node.{RiskExplanation, problem_text}
use paper_trading_agent.TraceAudit.{
  CitationCheck, AuditError, load_steps, rebuild_explanation_check,
}
use paper_trading_agent.TraceAudit.Answers.{stored_check}

-- `!=` of two lists of ids, of two lists of texts and of two dicts, each negated.
unfoldable pub same_ids : List ℤ → List ℤ → Bool
same_ids [] [] = true
same_ids [] (y ∷ ys) = false
same_ids (x ∷ xs) [] = false
same_ids (x ∷ xs) (y ∷ ys) = eq_ℤ x y && same_ids xs ys

unfoldable pub same_texts : List Text → List Text → Bool
same_texts [] [] = true
same_texts [] (y ∷ ys) = false
same_texts (x ∷ xs) [] = false
same_texts (x ∷ xs) (y ∷ ys) = same_text x y && same_texts xs ys

abbrev pub has_ids : List ℤ → Option (List ℤ) → Bool
has_ids ids none = false
has_ids ids (some found) = same_ids ids found

abbrev pub entries_in : Retrieved → Retrieved → Bool
entries_in [] other = true
entries_in ((day, ids) ∷ rest) other = has_ids ids (lookup day other) && entries_in rest other

unfoldable pub same_retrieved : Retrieved → Retrieved → Bool
same_retrieved a b = (length a == length b) && entries_in a b

abbrev pub same_bool : Bool → Bool → Bool
same_bool a b = (a && b) || (not a && not b)

abbrev pub texts_of : List Problem → List Text
texts_of = map problem_text

pub data CheckField : Type 0 where
  retrieved cited_headline_ids validation_problems citations_valid : CheckField

-- A line of the report, without the values that differ.
pub data Mismatch : Type 0 where
  no_traced_reply : ℕ → Mismatch
  differs : ℕ → CheckField → Mismatch

abbrev pub unless_same : Bool → CheckField → List CheckField
unless_same true field = []
unless_same false field = field ∷ []

unfoldable pub differing_fields : CitationCheck → CitationCheck → List CheckField
differing_fields rebuilt row =
    unless_same (same_retrieved rebuilt.retrieved row.retrieved) retrieved
    ++ unless_same (same_ids rebuilt.cited_headline_ids row.cited_headline_ids) cited_headline_ids
    ++ unless_same
        (same_texts (texts_of rebuilt.validation_problems) (texts_of row.validation_problems))
        validation_problems
    ++ unless_same (same_bool rebuilt.citations_valid row.citations_valid) citations_valid

unfoldable pub mismatches_of : ℕ → CitationCheck → Option CitationCheck → List Mismatch
mismatches_of id row none = no_traced_reply id ∷ []
mismatches_of id row (some rebuilt) = map (differs id) (differing_fields rebuilt row)

-- EXISTS (SELECT 1 FROM trace_steps …)
abbrev pub has_trace : ℕ → List TraceRow → Bool
has_trace id [] = false
has_trace id (r ∷ rs) = (r.decision_id == id) || has_trace id rs

abbrev pub is_among : ℕ → List ℕ → Bool
is_among id [] = false
is_among id (i ∷ is) = (i == id) || is_among id is

-- The condition on `decision_ids`, where None and the empty list ask for all.
abbrev pub is_wanted : List ℕ → ℕ → Bool
is_wanted [] id = true
is_wanted (i ∷ is) id = is_among id (i ∷ is)

abbrev pub ordered : ℕ × RiskExplanation → ℕ × RiskExplanation → Bool
ordered a b = leb a.0 b.0

-- The explanations that are checked.
unfoldable pub traced_explanations :
    List (ℕ × RiskExplanation) → List TraceRow → List ℕ → List (ℕ × RiskExplanation)
traced_explanations explanations table decision_ids = sorted ordered (
    select (λ (row : ℕ × RiskExplanation). has_trace row.0 table && is_wanted decision_ids row.0)
      explanations)

module _ (model_validate_json : Text → Option ExplanationCall) (table : List TraceRow) where
  abbrev pub rebuilt_for : ℕ → Result AuditError (Option CitationCheck)
  rebuilt_for id = rebuild_explanation_check model_validate_json (load_steps table id)

  unfoldable pub check_rows : List (ℕ × RiskExplanation) → Result AuditError (List Mismatch)
  check_rows [] = ok []
  check_rows ((id, e) ∷ rows) = rebuilt_for id >>= λ rebuilt.
      check_rows rows >>= λ later. ok (mismatches_of id (stored_check e) rebuilt ++ later)

  -- The number of the explanations checked, and the mismatches.
  unfoldable pub completeness :
      List (ℕ × RiskExplanation) → List ℕ → Result AuditError (ℕ × List Mismatch)
  completeness explanations decision_ids =
      let stored = traced_explanations explanations table decision_ids in
      check_rows stored >>= λ mismatches. ok (length stored, mismatches)
