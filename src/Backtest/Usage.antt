-- ===== src/Backtest/Usage.antt =====
-- The tokens of a run of app/agent/backtest.py over its parts, and what they cost.
use paper_trading_agent.Base.{
  ℕ, ◌+◌, ◌≡◌, refl, ap, ◌∙◌, inl, inr, true, Option, none, some, List, [], ◌∷◌, ◌++◌, Bool-cases,
  Text, same_text, same_text_iff, All, arith,
}
use native.Mathlib.Nat.{add-mul}
use paper_trading_agent.Llm.{Price, Tokens, Usage, best_match, prices_per_mtok}
use paper_trading_agent.Llm.Cost.{priced_cost, price_or}
use paper_trading_agent.Backtest.Resume.{is_unfinished, RunStatus}
use paper_trading_agent.Backtest.Finish.{
  RunEnd, add_tokens, add_counts, add_all, add_usage, BodyEnd, returned, raised, status_of, finish,
  end_backtest, reopened, run_parts,
}

price_or-add :
    (found : Option (Text × Price)) (a b : Tokens)
    → price_or found (add_tokens a b) ≡ price_or found a + price_or found b
price_or-add none a b = refl
price_or-add (some (name, price)) a b = omega (
  arith,
  add-mul a.input_tokens b.input_tokens price.per_input,
  add-mul a.output_tokens b.output_tokens price.per_output,
)

priced_cost-add_counts :
    (model : Text) (t : Tokens) (total : Usage)
    → priced_cost (add_counts model t total)
      ≡ priced_cost total + price_or (best_match model prices_per_mtok) t
unfolding add_counts
priced_cost-add_counts model t [] = omega arith
priced_cost-add_counts model t ((m, old) ∷ total) = elim (Bool-cases (same_text model m)) [
  | inl e ↦ rw e (
      rw ((same_text_iff model m).0 e)
        (omega (arith, price_or-add (best_match m prices_per_mtok) old t)))
  | inr e ↦ rw e (omega (arith, priced_cost-add_counts model t total))
]

priced_cost-add_all :
    (total usage : Usage)
    → priced_cost (add_all total usage) ≡ priced_cost total + priced_cost usage
unfolding add_all
priced_cost-add_all total [] = omega arith
priced_cost-add_all total ((model, t) ∷ usage) = omega (
  arith,
  priced_cost-add_all (add_counts model t total) usage,
  priced_cost-add_counts model t total,
)

-- What the recorded tokens cost.
abbrev pub recorded_cost : Option Usage → ℕ
recorded_cost none = 0
recorded_cost (some usage) = priced_cost usage

recorded_cost-add_usage :
    (before : Option Usage) (usage : Usage)
    → priced_cost (add_usage before usage) ≡ recorded_cost before + priced_cost usage
recorded_cost-add_usage none usage = priced_cost-add_all [] usage
recorded_cost-add_usage (some total) usage = priced_cost-add_all total usage

-- The costs of the parts.
abbrev pub parts_cost : List (BodyEnd × (Usage × ℕ)) → ℕ
parts_cost [] = 0
parts_cost ((how, (usage, now)) ∷ parts) = priced_cost usage + parts_cost parts

-- A run with this status, whose recorded tokens cost so much.
pub record Ended (status : RunStatus) (cost : ℕ) (row : RunEnd) : Type 0 where
  pub ends : row.status ≡ status
  pub costs : recorded_cost row.llm_usage ≡ cost

end_backtest-Ended :
    (how : BodyEnd) (usage : Usage) (now : ℕ) (row : RunEnd)
    → Ended
        (status_of how)
        (recorded_cost row.llm_usage + priced_cost usage)
        (end_backtest how usage now (reopened row))
unfolding end_backtest finish
end_backtest-Ended returned usage now row = record {
  ends = refl;
  costs = recorded_cost-add_usage row.llm_usage usage;
}
end_backtest-Ended raised usage now row = record {
  ends = refl;
  costs = recorded_cost-add_usage row.llm_usage usage;
}

failed_unfinished : (how : BodyEnd) → how ≡ raised → is_unfinished (status_of how) ≡ true
failed_unfinished returned e = cc
failed_unfinished raised e = refl

-- A run that is not finished, gone through some parts that raised and a last one: its status is SUCCESS
-- if the last part returned, and FAILED if it raised, never RUNNING; and its recorded tokens cost what
-- was recorded before and what the tokens of all its parts cost, over the models that have a price.
pub run_parts_lem :
    (parts : List (BodyEnd × (Usage × ℕ))) (how : BodyEnd) (usage : Usage) (now : ℕ) (row : RunEnd)
    → All (λ (part : BodyEnd × (Usage × ℕ)). part.0 ≡ raised) parts
    → is_unfinished row.status ≡ true
    → Ended
        (status_of how)
        (recorded_cost row.llm_usage + parts_cost parts + priced_cost usage)
        (run_parts (parts ++ (how, (usage, now)) ∷ []) row)
unfolding run_parts
run_parts_lem [] how usage now row h unfinished = rw unfinished (
    let e = end_backtest-Ended how usage now row in
    record { ends = e.ends; costs = omega (arith, e.costs) })
run_parts_lem ((how', (usage', now')) ∷ parts) how usage now row (h, hs) unfinished =
    let e = end_backtest-Ended how' usage' now' row in
    let next = end_backtest how' usage' now' (reopened row) in
    let still : is_unfinished next.status ≡ true =
      ap is_unfinished e.ends ∙ failed_unfinished how' h in
    let rest = run_parts_lem parts how usage now next hs still in
    rw unfinished (record { ends = rest.ends; costs = omega (arith, rest.costs, e.costs) })
