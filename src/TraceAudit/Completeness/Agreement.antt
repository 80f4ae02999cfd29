-- ===== src/TraceAudit/Completeness/Agreement.antt =====
-- completeness of app/agent/trace_audit.py: what it means that no mismatch is reported.
use paper_trading_agent.Base.{
  ℕ, ◌≡◌, refl, ap, sym, ◌∙◌, Bool, true, false, inl, inr, Option, none, some, List, [], ◌∷◌, ◌++◌,
  map, ℤ, eq_of_parts, Bool-cases, Text, same_text, same_text_iff, length, All, ok, >>=-eq-ok,
  ok_injective, arith, ltb, ◌==◌, ◌&&◌, ◌||◌, ◌⊎◌, count_if, select,
}
use paper_trading_agent.Numbers.Sorting.{length-sorted, All-of-sorted}
use paper_trading_agent.Trace.{TraceRow}
use paper_trading_agent.Explainer.{ExplanationCall, Retrieved, lookup}
use paper_trading_agent.Explainer.Node.{RiskExplanation}
use paper_trading_agent.TraceAudit.{CitationCheck, load_steps, rebuild_explanation_check}
use paper_trading_agent.TraceAudit.Answers.{stored_check}
use paper_trading_agent.TraceAudit.Completeness.{
  same_ids, same_texts, has_ids, entries_in, same_retrieved, same_bool, texts_of, unless_same,
  ordered, has_trace, is_among, is_wanted, differing_fields, mismatches_of, traced_explanations,
  check_rows, completeness, retrieved, cited_headline_ids, validation_problems, citations_valid,
  differs,
}

-- What `==` on each of the four fields says of two checks.
pub record Agree (rebuilt row : CitationCheck) : Type 0 where
  pub retrieved :
      (day : Text) (ids : List ℤ)
      → lookup day rebuilt.retrieved ≡ some ids
      → lookup day row.retrieved ≡ some ids
  pub same_days : length rebuilt.retrieved ≡ length row.retrieved
  pub cited : rebuilt.cited_headline_ids ≡ row.cited_headline_ids
  pub problems : texts_of rebuilt.validation_problems ≡ texts_of row.validation_problems
  pub valid : rebuilt.citations_valid ≡ row.citations_valid

same_ids-eq : (xs ys : List ℤ) → same_ids xs ys ≡ true → xs ≡ ys
unfolding same_ids
same_ids-eq [] [] h = refl
same_ids-eq [] (y ∷ ys) h = cc
same_ids-eq (x ∷ xs) [] h = cc
same_ids-eq (x ∷ xs) (y ∷ ys) h =
    let first : x ≡ y = eq_of_parts x y (ground arith) in
    let rest : xs ≡ ys = same_ids-eq xs ys (ground arith) in cc

same_texts-eq : (xs ys : List Text) → same_texts xs ys ≡ true → xs ≡ ys
unfolding same_texts
same_texts-eq [] [] h = refl
same_texts-eq [] (y ∷ ys) h = cc
same_texts-eq (x ∷ xs) [] h = cc
same_texts-eq (x ∷ xs) (y ∷ ys) h =
    let first : x ≡ y = (same_text_iff x y).0 (ground arith) in
    let rest : xs ≡ ys = same_texts-eq xs ys (ground arith) in cc

same_bool-eq : (a b : Bool) → same_bool a b ≡ true → a ≡ b
same_bool-eq true true h = refl
same_bool-eq true false h = cc
same_bool-eq false true h = cc
same_bool-eq false false h = refl

has_ids-eq : (ids : List ℤ) (found : Option (List ℤ)) → has_ids ids found ≡ true → found ≡ some ids
has_ids-eq ids none h = cc
has_ids-eq ids (some found) h = ap some (sym (same_ids-eq ids found h))

entries_in-lookup :
    (a b : Retrieved) (day : Text) (ids : List ℤ)
    → entries_in a b ≡ true
    → lookup day a ≡ some ids
    → lookup day b ≡ some ids
entries_in-lookup [] b day ids h e = cc
entries_in-lookup ((d, first) ∷ rest) b day ids h e = elim (Bool-cases (same_text day d)) [
  | inl same ↦
      (let here : lookup day ((d, first) ∷ rest) ≡ some first = rw same refl in
        let day_eq : day ≡ d = (same_text_iff day d).0 same in
        ap (λ x. lookup x b) day_eq ∙ has_ids-eq first (lookup d b) (ground arith) ∙ sym here ∙ e)
  | inr other ↦
      (let later : lookup day ((d, first) ∷ rest) ≡ lookup day rest = rw other refl in
        entries_in-lookup rest b day ids (ground arith) (sym later ∙ e))
]

same_retrieved-lookup :
    (a b : Retrieved)
    → same_retrieved a b ≡ true
    → ((day : Text) (ids : List ℤ) → lookup day a ≡ some ids → lookup day b ≡ some ids)
      × (length a ≡ length b)
unfolding same_retrieved
same_retrieved-lookup a b h =
    (λ day ids e. entries_in-lookup a b day ids (ground arith) e, ground arith)

unless_same-none :
    (r c p v : Bool)
    → unless_same r retrieved
        ++ unless_same c cited_headline_ids
        ++ unless_same p validation_problems
        ++ unless_same v citations_valid
      ≡ []
    → (r ≡ true) × (c ≡ true) × (p ≡ true) × (v ≡ true)
unless_same-none true true true true h = (refl, refl, refl, refl)
unless_same-none true true true false h = cc
unless_same-none true true false v h = cc
unless_same-none true false p v h = cc
unless_same-none false c p v h = cc

differing_fields-Agree :
    (rebuilt row : CitationCheck) → differing_fields rebuilt row ≡ [] → Agree rebuilt row
unfolding differing_fields
differing_fields-Agree rebuilt row h =
    let (r, c, p, v) =
      unless_same-none (same_retrieved rebuilt.retrieved row.retrieved)
        (same_ids rebuilt.cited_headline_ids row.cited_headline_ids)
        (same_texts (texts_of rebuilt.validation_problems) (texts_of row.validation_problems))
        (same_bool rebuilt.citations_valid row.citations_valid) h in
    let (looked, days) = same_retrieved-lookup _ _ r in
    record {
      retrieved = looked;
      same_days = days;
      cited = same_ids-eq _ _ c;
      problems = same_texts-eq _ _ p;
      valid = same_bool-eq _ _ v;
    }

map-none : {A B : Type 0} (f : A → B) (xs : List A) → map f xs ≡ [] → xs ≡ []
map-none f [] h = refl
map-none f (x ∷ xs) h = cc

append-none : {A : Type 0} (xs ys : List A) → xs ++ ys ≡ [] → (xs ≡ []) × (ys ≡ [])
append-none [] ys h = (refl, h)
append-none (x ∷ xs) ys h = cc

mismatches_of-none :
    (id : ℕ) (row : CitationCheck) (rebuilt : Option CitationCheck)
    → mismatches_of id row rebuilt ≡ []
    → (c : CitationCheck) × (rebuilt ≡ some c) × Agree c row
unfolding mismatches_of
mismatches_of-none id row none h = cc
mismatches_of-none id row (some c) h =
    (c, refl, differing_fields-Agree c row (map-none (differs id) (differing_fields c row) h))

-- The decision has a row in the trace and is among the ids, or there are no ids.
abbrev pub is_due : List TraceRow → List ℕ → ℕ × RiskExplanation → Bool
is_due table decision_ids row =
    ltb 0 (count_if (λ (r : TraceRow). r.decision_id == row.0) table)
    && ((length decision_ids == 0) || ltb 0 (count_if (λ i. i == row.0) decision_ids))

has_trace_lem :
    (id : ℕ) (table : List TraceRow)
    → has_trace id table ≡ ltb 0 (count_if (λ (r : TraceRow). r.decision_id == id) table)
has_trace_lem id [] = refl
has_trace_lem id (r ∷ rs) = ground (arith, has_trace_lem id rs)

is_among_lem : (id : ℕ) (ids : List ℕ) → is_among id ids ≡ ltb 0 (count_if (λ i. i == id) ids)
is_among_lem id [] = refl
is_among_lem id (i ∷ is) = ground (arith, is_among_lem id is)

is_wanted_lem :
    (id : ℕ) (ids : List ℕ)
    → is_wanted ids id ≡ ((length ids == 0) || ltb 0 (count_if (λ i. i == id) ids))
is_wanted_lem id [] = refl
is_wanted_lem id (i ∷ is) = ground (arith, is_among_lem id (i ∷ is))

is_due_lem :
    (table : List TraceRow) (ids : List ℕ) (row : ℕ × RiskExplanation)
    → (has_trace row.0 table && is_wanted ids row.0) ≡ is_due table ids row
is_due_lem table ids row = rw (has_trace_lem row.0 table) (rw (is_wanted_lem row.0 ids) refl)

abbrev is_checked : List TraceRow → List ℕ → ℕ × RiskExplanation → Bool
is_checked table ids row = has_trace row.0 table && is_wanted ids row.0

length-selected :
    (table : List TraceRow) (ids : List ℕ) (rows : List (ℕ × RiskExplanation))
    → length (select (is_checked table ids) rows) ≡ count_if (is_due table ids) rows
length-selected table ids [] = refl
length-selected table ids (row ∷ rows) = elim (Bool-cases (is_checked table ids row)) [
  | inl e ↦
      rw e (rw (sym (is_due_lem table ids row) ∙ e) (omega (arith, length-selected table ids rows)))
  | inr e ↦
      rw e (rw (sym (is_due_lem table ids row) ∙ e) (omega (arith, length-selected table ids rows)))
]

All-due :
    (P : ℕ × RiskExplanation → Type 0) (table : List TraceRow) (ids : List ℕ)
    (rows : List (ℕ × RiskExplanation))
    → All P (select (is_checked table ids) rows)
    → All (λ row. (is_due table ids row ≡ false) ⊎ P row) rows
All-due P table ids [] h = tt
All-due P table ids (row ∷ rows) h = elim (Bool-cases (is_checked table ids row)) [
  | inl e ↦ (let there = rw e at h in (inr there.0, All-due P table ids rows there.1))
  | inr e ↦ (inl (sym (is_due_lem table ids row) ∙ e), All-due P table ids rows (rw e at h))
]

module _ (model_validate_json : Text → Option ExplanationCall) (table : List TraceRow) where
  -- The rows of the trace give a check back that agrees with the stored one.
  abbrev pub Reproduced : ℕ × RiskExplanation → Type 0
  Reproduced row =
      (c : CitationCheck) × (rebuild_explanation_check model_validate_json (load_steps table row.0)
        ≡ ok (some c))
      × Agree c (stored_check row.1)

  check_rows-none :
      (rows : List (ℕ × RiskExplanation))
      → check_rows model_validate_json table rows ≡ ok []
      → All Reproduced rows
  unfolding check_rows
  check_rows-none [] h = tt
  check_rows-none ((id, e) ∷ rows) h =
      let (rebuilt, found, h1) = >>=-eq-ok _ _ h in
      let (later, checked, h2) = >>=-eq-ok _ _ h1 in
      let (none_here, none_later) =
        append-none (mismatches_of id (stored_check e) rebuilt) later (ok_injective h2) in
      let (c, same, agree) = mismatches_of-none id (stored_check e) rebuilt none_here in
      ((c, found ∙ ap ok same, agree), check_rows-none rows (checked ∙ ap ok none_later))

  -- When the check reports no mismatch, it counted every stored explanation whose decision has a row in
  -- the trace and is among the ids, or any where no ids are given; and the steps of each of those rebuild
  -- a citation check with the headlines retrieved for each day, the cited headlines, the texts of the
  -- problems and the verdict that are stored.
  pub completeness_lem :
      (explanations : List (ℕ × RiskExplanation)) (decision_ids : List ℕ) (n : ℕ)
      → completeness model_validate_json table explanations decision_ids ≡ ok (n, [])
      → (n ≡ count_if (is_due table decision_ids) explanations)
        × All (λ row. (is_due table decision_ids row ≡ false) ⊎ Reproduced row) explanations
  unfolding completeness traced_explanations
  completeness_lem explanations decision_ids n h =
      let (mismatches, checked, done) = >>=-eq-ok _ _ h in
      let same = ok_injective done in
      (
        sym (ap (λ p. p.0) same)
            ∙ length-sorted ordered _
            ∙ length-selected table decision_ids explanations,
        All-due Reproduced table decision_ids explanations (
            All-of-sorted ordered Reproduced _ (
              check_rows-none (traced_explanations explanations table decision_ids)
                (checked ∙ ap ok (ap (λ p. p.1) same)))),
      )
