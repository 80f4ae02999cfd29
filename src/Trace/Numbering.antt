-- ===== src/Trace/Numbering.antt =====
-- app/agent/trace.py: the events of a decision's trace as a step relation, and what they keep of the recorder.
use paper_trading_agent.Base.{
  ℕ, zero, suc, ◌+◌, ◌-◌, ◌≡◌, refl, sym, ◌∙◌, subst, inl, inr, Option, none, some, List, [], ◌∷◌,
  ◌++◌, Bool-cases, Option-cases, ◌==◌, Text, length, get_elem?, All, arith,
}
use paper_trading_agent.Trace.Json.{Fields}
use paper_trading_agent.Trace.{
  Kind, llm, Step, TraceRecorder, new_recorder, new_step, add, Message, on_chat_model_start, Reply,
  with_duration, with_reply, with_error, find_run, drop_run, change_step, on_llm_end, on_llm_error,
}

-- What a recorder can become: steps are added, calls start, and calls end in any order or never.
pub data Traced : TraceRecorder → Type 0 where
  begun : Traced new_recorder
  added :
      {r : TraceRecorder} (node : Text) (kind : Kind) (input output : Fields) (model : Option Text)
      (now : ℕ)
      → Traced r
      → Traced (add node kind input output model now r).0
  chat_started :
      {r : TraceRecorder} (messages : List Message) (run_id : ℕ) (tag : Option Text)
      (params : Fields) (now counter : ℕ)
      → Traced r
      → Traced (on_chat_model_start messages run_id tag params now counter r)
  llm_ended :
      {r : TraceRecorder} (reply : Option Reply) (run_id counter : ℕ)
      → Traced r
      → Traced (on_llm_end reply run_id counter r)
  llm_failed :
      {r : TraceRecorder} (message : Text) (run_id counter : ℕ)
      → Traced r
      → Traced (on_llm_error message run_id counter r)

-- The steps bear the numbers from `n` on.
abbrev pub NumberedFrom : ℕ → List Step → Type 0
NumberedFrom n [] = Unit
NumberedFrom n (s ∷ ss) = (s.step ≡ n) × NumberedFrom (n + 1) ss

-- A call that has not ended has an LLM step.
abbrev pub IsLlmStep : List Step → ℕ × (ℕ × ℕ) → Type 0
IsLlmStep steps (run_id, (index, t0)) =
    (s : Step) × (get_elem? steps index ≡ some s) × (s.kind ≡ llm)

pub record IsTrace (r : TraceRecorder) : Type 0 where
  pub numbered : NumberedFrom 0 r.steps
  pub calls : All (IsLlmStep r.steps) r.unfinished

pub NumberedFrom-append :
    (n : ℕ) (ss : List Step) (s : Step)
    → NumberedFrom n ss
    → s.step ≡ n + length ss
    → NumberedFrom n (ss ++ s ∷ [])
NumberedFrom-append n [] s h e = (omega (arith, e), tt)
NumberedFrom-append n (x ∷ ss) s (h, hs) e =
    (h, NumberedFrom-append (n + 1) ss s hs (omega (arith, e)))

get_elem?-append :
    (ss ts : List Step) (i : ℕ) {s : Step}
    → get_elem? ss i ≡ some s
    → get_elem? (ss ++ ts) i ≡ some s
get_elem?-append [] ts i e = cc
get_elem?-append (x ∷ ss) ts zero e = e
get_elem?-append (x ∷ ss) ts (suc i) e = get_elem?-append ss ts i e

get_elem?-last : (ss : List Step) (s : Step) → get_elem? (ss ++ s ∷ []) (length ss) ≡ some s
get_elem?-last [] s = refl
get_elem?-last (x ∷ ss) s = get_elem?-last ss s

-- More steps keep the calls.
calls-append :
    (ss : List Step) (s : Step) (open_calls : List (ℕ × (ℕ × ℕ)))
    → All (IsLlmStep ss) open_calls
    → All (IsLlmStep (ss ++ s ∷ [])) open_calls
calls-append ss s [] h = tt
calls-append ss s ((run_id, (index, t0)) ∷ rest) ((x, e, k), hs) =
    ((x, get_elem?-append ss (s ∷ []) index e, k), calls-append ss s rest hs)

abbrev kind_or : Option Step → Kind
kind_or none = llm
kind_or (some s) = s.kind

-- A change of a step that keeps its number and its kind.
module _ (f : Step → Step) (same_number : (s : Step) → (f s).step ≡ s.step)
    (same_kind : (s : Step) → (f s).kind ≡ s.kind) where
  NumberedFrom-change_step :
      (n i : ℕ) (ss : List Step) → NumberedFrom n ss → NumberedFrom n (change_step i f ss)
  unfolding change_step
  NumberedFrom-change_step n i [] h = tt
  NumberedFrom-change_step n zero (s ∷ ss) (h, hs) = (same_number s ∙ h, hs)
  NumberedFrom-change_step n (suc i) (s ∷ ss) (h, hs) =
      (h, NumberedFrom-change_step (n + 1) i ss hs)

  kind-change_step :
      (i j : ℕ) (ss : List Step) (s : Step)
      → get_elem? ss j ≡ some s
      → s.kind ≡ llm
      → (s' : Step) × (get_elem? (change_step i f ss) j ≡ some s') × (s'.kind ≡ llm)
  unfolding change_step
  kind-change_step i j [] s e k = cc
  kind-change_step zero zero (x ∷ ss) s e k =
      (f x, refl, same_kind x ∙ subst (λ o. kind_or o ≡ llm) (sym e) k)
  kind-change_step zero (suc j) (x ∷ ss) s e k = (s, e, k)
  kind-change_step (suc i) zero (x ∷ ss) s e k = (s, e, k)
  kind-change_step (suc i) (suc j) (x ∷ ss) s e k = kind-change_step i j ss s e k

  calls-drop_run :
      (i run_id : ℕ) (ss : List Step) (open_calls : List (ℕ × (ℕ × ℕ)))
      → All (IsLlmStep ss) open_calls
      → All (IsLlmStep (change_step i f ss)) (drop_run run_id open_calls)
  unfolding drop_run
  calls-drop_run i run_id ss [] h = tt
  calls-drop_run i run_id ss ((k, (index, t0)) ∷ rest) ((s, e, q), hs) =
      let later = calls-drop_run i run_id ss rest hs in
      elim (Bool-cases (run_id == k)) [
        | inl same ↦ rw same later
        | inr differs ↦ rw differs (kind-change_step i index ss s e q, later)
      ]

  -- Ending a call keeps a trace in order.
  IsTrace-change_step :
      (i run_id : ℕ) (r : TraceRecorder)
      → IsTrace r
      → IsTrace
          (record { steps = change_step i f r.steps; unfinished = drop_run run_id r.unfinished })
  IsTrace-change_step i run_id r h = record {
    numbered = NumberedFrom-change_step 0 i r.steps h.numbered;
    calls = calls-drop_run i run_id r.steps r.unfinished h.calls;
  }

IsTrace-add :
    (node : Text) (kind : Kind) (input output : Fields) (model : Option Text) (now : ℕ)
    (r : TraceRecorder)
    → IsTrace r
    → IsTrace (add node kind input output model now r).0
unfolding add
IsTrace-add node kind input output model now r h =
    let s = new_step node kind input output model now (length r.steps) in
    record {
      numbered = NumberedFrom-append 0 r.steps s h.numbered (omega arith);
      calls = calls-append r.steps s r.unfinished h.calls;
    }

IsTrace-on_chat_model_start :
    (messages : List Message) (run_id : ℕ) (tag : Option Text) (params : Fields) (now counter : ℕ)
    (r : TraceRecorder)
    → IsTrace r
    → IsTrace (on_chat_model_start messages run_id tag params now counter r)
unfolding on_chat_model_start
IsTrace-on_chat_model_start messages run_id tag params now counter r h = record {
  numbered = NumberedFrom-append 0 r.steps _ h.numbered (omega arith);
  calls = ((_, get_elem?-last r.steps _, refl), calls-append r.steps _ r.unfinished h.calls);
}

with_reply-keeps :
    (reply : Option Reply) (s : Step)
    → ((with_reply reply s).step ≡ s.step) × ((with_reply reply s).kind ≡ s.kind)
with_reply-keeps none s = (refl, refl)
with_reply-keeps (some m) s = (refl, refl)

IsTrace-on_llm_end :
    (reply : Option Reply) (run_id counter : ℕ) (r : TraceRecorder)
    → IsTrace r
    → IsTrace (on_llm_end reply run_id counter r)
unfolding on_llm_end
IsTrace-on_llm_end reply run_id counter r h = elim (Option-cases (find_run run_id r.unfinished)) [
  | inl e ↦ rw (e, on_llm_end) h
  | inr ((index, t0), e) ↦
      rw (e, on_llm_end)
        (IsTrace-change_step (λ s. with_reply reply (with_duration (counter - t0) s))
          (λ s. (with_reply-keeps reply _).0) (λ s. (with_reply-keeps reply _).1) index run_id r h)
]

IsTrace-on_llm_error :
    (message : Text) (run_id counter : ℕ) (r : TraceRecorder)
    → IsTrace r
    → IsTrace (on_llm_error message run_id counter r)
unfolding on_llm_error
IsTrace-on_llm_error message run_id counter r h =
    elim (Option-cases (find_run run_id r.unfinished)) [
      | inl e ↦ rw (e, on_llm_error) h
      | inr ((index, t0), e) ↦
          rw (e, on_llm_error)
            (IsTrace-change_step (λ s. with_duration (counter - t0) (with_error message s))
              (λ s. refl) (λ s. refl) index run_id r h)
    ]

-- Whatever steps are added and whichever calls start, end or fail, in whatever order, the steps of a
-- recorder are numbered from 0 in their order, and each call that has not ended has a step, which is
-- an LLM step.
pub Traced-IsTrace : {r : TraceRecorder} → Traced r → IsTrace r
Traced-IsTrace begun = record { numbered = tt; calls = tt }
Traced-IsTrace (added {r} node kind input output model now t) =
    IsTrace-add node kind input output model now r (Traced-IsTrace t)
Traced-IsTrace (chat_started {r} messages run_id tag params now counter t) =
    IsTrace-on_chat_model_start messages run_id tag params now counter r (Traced-IsTrace t)
Traced-IsTrace (llm_ended {r} reply run_id counter t) =
    IsTrace-on_llm_end reply run_id counter r (Traced-IsTrace t)
Traced-IsTrace (llm_failed {r} message run_id counter t) =
    IsTrace-on_llm_error message run_id counter r (Traced-IsTrace t)
