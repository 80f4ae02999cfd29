-- ===== src/Trace.antt =====
-- app/agent/trace.py: the recorder of a decision's steps, and its table trace_steps.
-- A `run_id` and an instant are numbers, the performance counter is read in milliseconds. What LangChain
-- passes to the callbacks is an argument, and so is the clock's reading.
pub mod Json
pub mod KeyPattern
pub mod Numbering
pub mod Writing
mod Tests
use paper_trading_agent.Base.{
  ℕ, zero, suc, ◌+◌, ◌-◌, Bool, true, false, ◌&&◌, ◌||◌, Option, none, some, List, [], ◌∷◌, ◌++◌,
  map, if◌then◌else◌, ◌==◌, Text, codes, same_text, length, Result, ok, err, ◌>>=◌,
}
use paper_trading_agent.Trace.Json.{
  Value, text, arr, obj, Items, nil, cons, Fields, end, field, get, dumps, jsonable_fields,
}
use paper_trading_agent.Trace.KeyPattern.{looks_like_key}

-- The kinds that the column `kind` allows.
pub data Kind : Type 0 where
  llm retrieval check rule : Kind

abbrev pub is_llm : Kind → Bool
is_llm llm = true
is_llm _ = false

abbrev pub is_retrieval : Kind → Bool
is_retrieval retrieval = true
is_retrieval _ = false

pub record Step : Type 0 where
  pub step : ℕ
  pub parent_step : Option ℕ
  pub node : Text
  pub kind : Kind
  pub input : Fields
  pub output : Fields
  pub model : Option Text
  pub input_tokens : Option ℕ
  pub output_tokens : Option ℕ
  pub started_at : ℕ
  pub duration_ms : Option ℕ
  pub error : Option Text

-- The calls that have not ended, the last started first: the step of each and when it started.
pub record TraceRecorder : Type 0 where
  pub steps : List Step
  pub unfinished : List (ℕ × (ℕ × ℕ))

abbrev pub new_recorder : TraceRecorder
new_recorder = record { steps = []; unfinished = [] }

-- The arguments of `add` that have a value at every call; the others are None there.
abbrev pub new_step : Text → Kind → Fields → Fields → Option Text → ℕ → ℕ → Step
new_step node kind input output model now number = record {
  step = number;
  parent_step = none;
  node = node;
  kind = kind;
  input = input;
  output = output;
  model = model;
  input_tokens = none;
  output_tokens = none;
  started_at = now;
  duration_ms = none;
  error = none;
}

-- TraceRecorder.add, and the number of the step it adds.
unfoldable pub add :
    Text → Kind → Fields → Fields → Option Text → ℕ → TraceRecorder → TraceRecorder × ℕ
add node kind input output model now r =
    let steps = r.steps ++ new_step node kind input output model now (length r.steps) ∷ [] in
    (record r { steps = steps }, length r.steps)

-- record(): a step of the active recorder, if there is one.
unfoldable pub record_step :
    Text → Kind → Fields → Fields → ℕ → Option TraceRecorder → Option TraceRecorder × Option ℕ
record_step node kind input output now none = (none, none)
record_step node kind input output now (some r) =
    let (r', number) = add node kind input output none now r in (some r', some number)

-- PARAM_ALLOWLIST
abbrev pub param_allowlist : List Text
param_allowlist =
    codes "model"
    ∷ codes "model_name"
    ∷ codes "max_tokens"
    ∷ codes "temperature"
    ∷ codes "thinking"
    ∷ codes "output_config"
    ∷ codes "response_format"
    ∷ codes "effort"
    ∷ codes "_type"
    ∷ []

abbrev pub is_listed : Text → List Text → Bool
is_listed key [] = false
is_listed key (k ∷ ks) = same_text key k || is_listed key ks

unfoldable pub allowed_params : Fields → Fields
allowed_params end = end
allowed_params (field k v fs) =
    let rest = allowed_params fs in if is_listed k param_allowlist then field k v rest else rest

-- A text that is not empty, as Python's `or` and a text column take it.
abbrev pub named : Option Value → Option Text
named (some (text (c ∷ s))) = some (c ∷ s)
named _ = none

abbrev pub or_else : Option Text → Option Text → Option Text
or_else (some x) y = some x
or_else none y = y

pub record Message : Type 0 where
  pub role : Text
  pub content : Value

abbrev pub message_items : List Message → Items
message_items [] = nil
message_items (m ∷ ms) =
    cons (obj (field (codes "role") (text m.role) (field (codes "content") m.content end)))
      (message_items ms)

-- `messages` is the first batch of the call, `langgraph_node` what LangGraph tags the call with.
unfoldable pub on_chat_model_start :
    List Message → ℕ → Option Text → Fields → ℕ → ℕ → TraceRecorder → TraceRecorder
unfolding add allowed_params
on_chat_model_start messages run_id langgraph_node invocation_params now counter r =
    let params = allowed_params invocation_params in
    let node : Text = elim langgraph_node [ some (c ∷ s) ↦ c ∷ s | _ ↦ codes "unknown" ] in
    let input =
      field (codes "messages") (arr (message_items messages))
        (field (codes "params") (obj params) end) in
    let model =
      or_else (named (get (codes "model") params)) (named (get (codes "model_name") params)) in
    let (r', number) = add node llm input end model now r in
    record r' { unfinished = (run_id, (number, counter)) ∷ r'.unfinished }

-- The reply's message, as far as the recorder reads it.
pub record Reply : Type 0 where
  pub content : Value
  pub tool_calls : Items
  pub input_tokens : Option ℕ
  pub output_tokens : Option ℕ
  pub model_name : Option Text

-- `_open.pop(run_id, …)`: the entry, and the other calls.
abbrev pub find_run : ℕ → List (ℕ × (ℕ × ℕ)) → Option (ℕ × ℕ)
find_run run_id [] = none
find_run run_id ((k, entry) ∷ rest) = if run_id == k then some entry else find_run run_id rest

unfoldable pub drop_run : ℕ → List (ℕ × (ℕ × ℕ)) → List (ℕ × (ℕ × ℕ))
drop_run run_id [] = []
drop_run run_id ((k, entry) ∷ rest) =
    let others = drop_run run_id rest in if run_id == k then others else (k, entry) ∷ others

-- `self.steps[index]` is changed in place.
unfoldable pub change_step : ℕ → (Step → Step) → List Step → List Step
change_step index f [] = []
change_step zero f (s ∷ ss) = f s ∷ ss
change_step (suc index) f (s ∷ ss) = s ∷ change_step index f ss

abbrev pub with_duration : ℕ → Step → Step
with_duration ms s = record s { duration_ms = some ms }

-- What a reply sets; a response with no message sets the duration alone.
abbrev pub with_reply : Option Reply → Step → Step
with_reply none s = s
with_reply (some m) s = record s {
  output = field (codes "content") m.content (field (codes "tool_calls") (arr m.tool_calls) end);
  input_tokens = m.input_tokens;
  output_tokens = m.output_tokens;
  model = or_else m.model_name s.model;
}

abbrev pub with_error : Text → Step → Step
with_error message s = record s { error = some message }

unfoldable pub on_llm_end : Option Reply → ℕ → ℕ → TraceRecorder → TraceRecorder
unfolding drop_run change_step
on_llm_end reply run_id counter r = elim (find_run run_id r.unfinished) [
  | none ↦ r
  | some (index, t0) ↦ record {
    steps = change_step index (λ s. with_reply reply (with_duration (counter - t0) s)) r.steps;
    unfinished = drop_run run_id r.unfinished;
  }
]

unfoldable pub on_llm_error : Text → ℕ → ℕ → TraceRecorder → TraceRecorder
unfolding drop_run change_step
on_llm_error message run_id counter r = elim (find_run run_id r.unfinished) [
  | none ↦ r
  | some (index, t0) ↦ record {
    steps = change_step index (λ s. with_duration (counter - t0) (with_error message s)) r.steps;
    unfinished = drop_run run_id r.unfinished;
  }
]

-- A row of trace_steps.
pub record TraceRow : Type 0 where
  pub decision_id : ℕ
  pub traced : Step

-- `key_like` is the ValueError of a step with something like a key in its input or output, by its number, and
-- `duplicate_step` the UniqueViolation of UNIQUE (decision_id, step).
pub data TraceError : Type 0 where
  key_like : ℕ → TraceError
  duplicate_step : TraceError

-- A step as its row keeps it, with JSON values for the input and the output.
abbrev pub stored : Step → Step
stored s = record s { input = jsonable_fields s.input; output = jsonable_fields s.output }

abbrev pub has_key : Step → Bool
has_key s = looks_like_key (dumps (obj s.input)) || looks_like_key (dumps (obj s.output))

unfoldable pub trace_rows : ℕ → List Step → Result TraceError (List TraceRow)
trace_rows decision_id [] = ok []
trace_rows decision_id (s ∷ ss) =
    let rest = trace_rows decision_id ss in
    if has_key (stored s)
    then err (key_like s.step)
    else (do rows ← rest; ok (record { decision_id = decision_id; traced = stored s } ∷ rows))

-- The row is that of a step of a decision.
abbrev pub is_step : ℕ → ℕ → TraceRow → Bool
is_step decision_id number row = (row.decision_id == decision_id) && (row.traced.step == number)

abbrev pub has_step : ℕ → ℕ → List TraceRow → Bool
has_step decision_id number [] = false
has_step decision_id number (row ∷ rows) =
    is_step decision_id number row || has_step decision_id number rows

-- The INSERTs of executemany, under UNIQUE (decision_id, step).
unfoldable pub insert_rows : List TraceRow → List TraceRow → Result TraceError (List TraceRow)
insert_rows [] table = ok table
insert_rows (row ∷ rows) table =
    let rest = insert_rows rows (table ++ row ∷ []) in
    if has_step row.decision_id row.traced.step table then err duplicate_step else rest

-- record_trace: the table after it, and the number of rows.
unfoldable pub record_trace :
    ℕ → TraceRecorder → List TraceRow → Result TraceError (List TraceRow × ℕ)
unfolding trace_rows insert_rows
record_trace decision_id r table = do
  rows ← trace_rows decision_id r.steps
  table' ← insert_rows rows table
  ok (table', length rows)
