-- ===== src/Explainer.antt =====
-- app/agent/explainer.py: when a risk ruling is explained, and the check of the model's citations.
-- Dates are their ISO texts. What the language model returns is an argument. A problem's text is its kind
-- and the names that stand in it.
pub mod Trigger
pub mod Grounding
pub mod Retrieval
pub mod Node
mod Tests
use paper_trading_agent.Base.{
  ℕ, ◌≡◌, Bool, true, false, not, ◌&&◌, ◌||◌, Option, none, some, List, [], ◌∷◌, ◌++◌, map,
  if◌then◌else◌, ltb, ◌==◌, ℤ, eq_ℤ, Text, same_text, select,
}
use paper_trading_agent.Numbers.Sorting.{sorted}
use paper_trading_agent.RiskManager.{
  Flag, var_unavailable, over_var_budget, var_budget_veto, var_budget_scale, high_correlation,
}

-- TRIGGER_FLAGS
abbrev pub is_trigger : Flag → Bool
is_trigger var_budget_scale = true
is_trigger var_budget_veto = true
is_trigger _ = false

unfoldable pub triggered : List Flag → List Flag
triggered risk_flags = select is_trigger risk_flags

pub record DriverExplanation : Type 0 where
  pub date : Text
  pub cause : Text
  pub headline_ids : List ℤ

pub record ExplanationCall : Type 0 where
  pub summary : Text
  pub drivers : List DriverExplanation

-- The headlines retrieved for each driver day, a dict.
abbrev pub Retrieved : Type 0
Retrieved = List (Text × List ℤ)

abbrev pub lookup : Text → Retrieved → Option (List ℤ)
lookup day [] = none
lookup day ((d, ids) ∷ rest) = if same_text day d then some ids else lookup day rest

-- `retrieved[day] = ids`
unfoldable pub assign : Text → List ℤ → Retrieved → Retrieved
assign day ids [] = (day, ids) ∷ []
assign day ids ((d, old) ∷ rest) =
    let later = assign day ids rest in if same_text day d then (d, ids) ∷ rest else (d, old) ∷ later

pub data Problem : Type 0 where
  unknown_driver_date : Text → Problem
  not_retrieved : ℤ → Text → Problem
  no_driver_entry : List Text → Problem

abbrev pub contains : ℤ → List ℤ → Bool
contains hid [] = false
contains hid (h ∷ hs) = eq_ℤ hid h || contains hid hs

unfoldable pub check_ids : Text → List ℤ → List ℤ → List Problem
check_ids day allowed [] = []
check_ids day allowed (hid ∷ hids) =
    let rest = check_ids day allowed hids in
    if contains hid allowed then rest else not_retrieved hid day ∷ rest

unfoldable pub check_driver : Retrieved → DriverExplanation → List Problem
unfolding check_ids
check_driver retrieved d = elim (lookup d.date retrieved) [
  | none ↦ unknown_driver_date d.date ∷ check_ids d.date [] d.headline_ids
  | some allowed ↦ check_ids d.date allowed d.headline_ids
]

unfoldable pub check_drivers : Retrieved → List DriverExplanation → List Problem
unfolding check_driver
check_drivers retrieved [] = []
check_drivers retrieved (d ∷ ds) = check_driver retrieved d ++ check_drivers retrieved ds

unfoldable pub cited_ids : List DriverExplanation → List ℤ
cited_ids [] = []
cited_ids (d ∷ ds) = d.headline_ids ++ cited_ids ds

abbrev pub has_entry : List DriverExplanation → Text → Bool
has_entry [] day = false
has_entry (d ∷ ds) day = same_text d.date day || has_entry ds day

-- Python's order of texts, a ≤ b.
unfoldable pub text_le : Text → Text → Bool
text_le [] b = true
text_le (x ∷ a) [] = false
text_le (x ∷ a) (y ∷ b) = ltb x y || (x == y && text_le a b)

unfoldable pub missing : Retrieved → List DriverExplanation → List Text
unfolding text_le
missing retrieved drivers =
    sorted text_le (select (λ day. not (has_entry drivers day)) (map (λ r. r.0) retrieved))

abbrev pub missing_problem : List Text → List Problem
missing_problem [] = []
missing_problem (day ∷ days) = no_driver_entry (day ∷ days) ∷ []

unfoldable pub validate : ExplanationCall → Retrieved → List ℤ × List Problem
unfolding check_drivers cited_ids missing
validate call retrieved = (
  cited_ids call.drivers,
  check_drivers retrieved call.drivers ++ missing_problem (missing retrieved call.drivers),
)
