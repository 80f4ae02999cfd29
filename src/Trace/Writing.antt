-- ===== src/Trace/Writing.antt =====
-- record_trace of app/agent/trace.py: what is written, and when it refuses.
use mathlib.Core.List.{append-nil, append_assoc}
use paper_trading_agent.Base.{
  ℕ, ◌+◌, ◌<◌, ltb, count_if, count_if-append, sym, ◌∙◌, ◌≡◌, refl, ap, inl, inr, ◌⊎◌, true, false,
  Bool, List, [], ◌∷◌, ◌++◌, map, Bool-cases, length, length-map, All, ok, err, Text, arith,
}
use paper_trading_agent.Trace.Json.{Fields, obj, dumps, jsonable, jsonable_fields, dumps-jsonable}
use paper_trading_agent.Trace.KeyPattern.{looks_like_key, KeyIn, looks_like_key_iff}
use paper_trading_agent.Trace.{
  Step, TraceRecorder, TraceRow, key_like, duplicate_step, stored, has_key, trace_rows, is_step,
  has_step, insert_rows, record_trace,
}
use paper_trading_agent.Trace.Numbering.{NumberedFrom}

-- No key stands in the texts of a step.
abbrev pub IsClean : Step → Type 0
IsClean s = (¬ (KeyIn (dumps (obj s.input)))) × (¬ (KeyIn (dumps (obj s.output))))

abbrev pub row_of : ℕ → Step → TraceRow
row_of decision_id s = record { decision_id = decision_id; traced = stored s }

-- Reading back what was dumped changes no text.
dumps-stored : (fs : Fields) → dumps (obj (jsonable_fields fs)) ≡ dumps (obj fs)
unfolding jsonable
dumps-stored fs = dumps-jsonable (obj fs)

no_key : (s : Text) → looks_like_key s ≡ false → ¬ (KeyIn s)
no_key s no_match k = let found = (looks_like_key_iff s).1 k in cc

has_key-cases :
    (s : Step)
    → ((has_key (stored s) ≡ false) × IsClean s) ⊎ ((has_key (stored s) ≡ true) × (¬ (IsClean s)))
has_key-cases s = rw (dumps-stored s.input) (
    rw (dumps-stored s.output) (elim (Bool-cases (looks_like_key (dumps (obj s.input)))) [
      | inl e ↦ inr (rw e refl, λ h. h.0 ((looks_like_key_iff _).0 e))
      | inr e ↦ elim (Bool-cases (looks_like_key (dumps (obj s.output)))) [
        | inl f ↦ inr (rw e f, λ h. h.1 ((looks_like_key_iff _).0 f))
        | inr f ↦ inl (rw e f, (no_key _ e, no_key _ f))
      ]
    ]))

-- The first step in which a key stands.
pub record FirstKey (steps : List Step) (s : Step) : Type 0 where
  pub before : List Step
  pub after : List Step
  pub whole : steps ≡ before ++ s ∷ after
  pub clean_before : All IsClean before
  pub unclean : ¬ (IsClean s)

FirstKey-later : (x s : Step) (ss : List Step) → IsClean x → FirstKey ss s → FirstKey (x ∷ ss) s
FirstKey-later x s ss c f = record {
  before = x ∷ f.before;
  after = f.after;
  whole = ap (λ ys. x ∷ ys) f.whole;
  clean_before = (c, f.clean_before);
  unclean = f.unclean;
}

-- How the writing of some steps ends.
abbrev pub RowsEnd : ℕ → List Step → Type 0
RowsEnd d ss =
    (All IsClean ss × (trace_rows d ss ≡ ok (map (row_of d) ss)))
    ⊎ ((s : Step) × FirstKey ss s × (trace_rows d ss ≡ err (key_like s.step)))

trace_rows-end : (d : ℕ) (ss : List Step) → RowsEnd d ss
unfolding trace_rows
trace_rows-end d [] = inl (tt, refl)
trace_rows-end d (x ∷ ss) = elim (has_key-cases x) [
  | inr (e, unclean) ↦ inr (
    x,
    record { before = []; after = ss; whole = refl; clean_before = tt; unclean = unclean },
    rw e refl,
  )
  | inl (e, clean) ↦ elim (trace_rows-end d ss) [
    | inl (cleans, done) ↦ inl ((clean, cleans), rw e (rw done refl))
    | inr (s, first, raised) ↦ inr (s, FirstKey-later x s ss clean first, rw e (rw raised refl))
  ]
]

-- The step's number is that of a row that the decision has in the table.
abbrev pub is_taken : ℕ → List TraceRow → Step → Bool
is_taken d table s = ltb 0 (count_if (is_step d s.step) table)

has_step_lem :
    (d n : ℕ) (table : List TraceRow) → has_step d n table ≡ ltb 0 (count_if (is_step d n) table)
has_step_lem d n [] = refl
has_step_lem d n (row ∷ rows) = ground (arith, has_step_lem d n rows)

-- The row of an earlier step takes no number of the later ones.
taken_after :
    (d m n : ℕ) (s : Step) (table : List TraceRow) (ss : List Step)
    → s.step ≡ m
    → m < n
    → NumberedFrom n ss
    → count_if (is_taken d (table ++ row_of d s ∷ [])) ss ≡ count_if (is_taken d table) ss
taken_after d m n s table [] e below h = refl
taken_after d m n s table (t ∷ ts) e below (h, hs) =
    let later = taken_after d m (n + 1) s table ts e (omega arith) hs in
    let one = count_if-append (is_step d t.step) table (row_of d s ∷ []) in
    ground (arith, later, one)

-- How the INSERTs of the rows of numbered steps end.
abbrev pub InsertsEnd : ℕ → List TraceRow → List Step → Type 0
InsertsEnd d table ss =
    ((count_if (is_taken d table) ss ≡ 0)
      × (insert_rows (map (row_of d) ss) table ≡ ok (table ++ map (row_of d) ss)))
    ⊎ ((0 < count_if (is_taken d table) ss)
        × (insert_rows (map (row_of d) ss) table ≡ err duplicate_step))

insert_rows-end :
    (d n : ℕ) (table : List TraceRow) (ss : List Step) → NumberedFrom n ss → InsertsEnd d table ss
unfolding insert_rows
insert_rows-end d n table [] h = inl (refl, ap ok (sym (append-nil table)))
insert_rows-end d n table (s ∷ ss) (h, hs) =
    let same = taken_after d n (n + 1) s table ss h (omega arith) hs in
    elim (Bool-cases (is_taken d table s)) [
      | inl e ↦ inr (rw e (omega arith), rw (has_step_lem d s.step table) (rw e refl))
      | inr e ↦ elim (insert_rows-end d (n + 1) (table ++ row_of d s ∷ []) ss hs) [
        | inl (free, done) ↦ inl (
          rw e (omega (arith, same, free)),
          rw (has_step_lem d s.step table)
              (rw e (done ∙ ap ok (append_assoc table (row_of d s ∷ []) (map (row_of d) ss)))),
        )
        | inr (taken, raised) ↦
            inr (rw e (omega (arith, same, taken)), rw (has_step_lem d s.step table) (rw e raised))
      ]
    ]

-- For numbered steps, record_trace raises for the first step in whose input or output a key stands; where
-- there is none, it raises if the decision has a row with the number of one of the steps, and otherwise
-- adds one row for each step, in order, and returns their number.
pub record_trace_lem :
    (d : ℕ) (r : TraceRecorder) (table : List TraceRow)
    → NumberedFrom 0 r.steps
    → (All IsClean r.steps
        × (count_if (is_taken d table) r.steps ≡ 0)
        × (record_trace d r table ≡ ok (table ++ map (row_of d) r.steps, length r.steps)))
      ⊎ (All IsClean r.steps
          × (0 < count_if (is_taken d table) r.steps)
          × (record_trace d r table ≡ err duplicate_step))
      ⊎ ((s : Step) × FirstKey r.steps s × (record_trace d r table ≡ err (key_like s.step)))
unfolding record_trace
record_trace_lem d r table numbered = elim (trace_rows-end d r.steps) [
  | inr (s, first, raised) ↦ inr (inr (s, first, rw raised refl))
  | inl (clean, rows) ↦ elim (insert_rows-end d 0 table r.steps numbered) [
    | inr (taken, raised) ↦ inr (inl (clean, taken, rw rows (rw raised refl)))
    | inl (free, done) ↦ inl (
      clean,
      free,
      rw rows (
          rw done
            (ap (λ n. ok (table ++ map (row_of d) r.steps, n)) (length-map (row_of d) r.steps))),
    )
  ]
]

rows_key_free :
    (d : ℕ) (ss : List Step)
    → All (λ s. has_key (stored s) ≡ false) ss
    → trace_rows d ss ≡ ok (map (row_of d) ss)
unfolding trace_rows
rows_key_free d [] h = refl
rows_key_free d (s ∷ ss) (h, hs) = rw h (rw (rows_key_free d ss hs) refl)

pub record_trace_key_free :
    (d : ℕ) (r : TraceRecorder) (table : List TraceRow)
    → All (λ s. has_key (stored s) ≡ false) r.steps
    → NumberedFrom 0 r.steps
    → count_if (is_taken d table) r.steps ≡ 0
    → record_trace d r table ≡ ok (table ++ map (row_of d) r.steps, length r.steps)
unfolding record_trace
record_trace_key_free d r table h numbered free =
    elim (insert_rows-end d 0 table r.steps numbered) [
      | inr (taken, raised) ↦ absurd (omega (arith, free, taken))
      | inl (_, done) ↦ rw (rows_key_free d r.steps h) (
          rw done
            (ap (λ n. ok (table ++ map (row_of d) r.steps, n)) (length-map (row_of d) r.steps)))
    ]
