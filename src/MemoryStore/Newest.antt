-- ===== src/MemoryStore/Newest.antt =====
-- app/repository/memory.py: what a run changes in the listing of decisions.
use paper_trading_agent.Base.{
  ℕ, suc, ◌<◌, ◌≡◌, refl, Bool, false, Option, List, [], ◌∷◌, inl, inr, Bool-cases, pos, select,
  select-append, if◌then◌else◌, All, arith,
}
use mathlib.Core.List.{append-nil}
use paper_trading_agent.Numbers.Sorting.{sorted-last_first}
use paper_trading_agent.State.{Symbol}
use paper_trading_agent.MemoryStore.{
  StoredDecision, InMemoryStore, seed_symbol, is_asked, created_later, list_decisions,
  stub_decision, trigger_run,
}

-- All decisions were made before a time.
abbrev Before : ℕ → List StoredDecision → Type 0
Before time = All (λ (d : StoredDecision). d.created_at < time)

Before-not-later :
    (x : StoredDecision) (ds : List StoredDecision)
    → Before x.created_at ds
    → All (λ d. created_later d x ≡ false) ds
Before-not-later x [] h = tt
Before-not-later x (d ∷ ds) (h, hs) = (ground arith, Before-not-later x ds hs)

module _ (p : StoredDecision → Bool) where
  All-select :
      (P : StoredDecision → Type 0) (ds : List StoredDecision) → All P ds → All P (select p ds)
  All-select P [] h = tt
  All-select P (d ∷ ds) (h, hs) = elim (Bool-cases (p d)) [
    | inl e ↦ rw e (h, All-select P ds hs)
    | inr e ↦ rw e (All-select P ds hs)
  ]

-- A run that starts after every decision so far puts its decision first in the listing of all
-- decisions or of its symbol's, in place of the last of a full page; other listings stay the same.
list_decisions_after_run :
    (store : InMemoryStore) (started_at finished_at : ℕ) (symbol : Option Symbol) (n : ℕ)
    → Before started_at store.decisions
    → list_decisions symbol (pos (suc n)) (trigger_run started_at finished_at store).0 ≡ (
        if is_asked symbol seed_symbol
        then stub_decision store.next_decision_id started_at ∷ list_decisions symbol (pos n) store
        else list_decisions symbol (pos (suc n)) store)
unfolding list_decisions trigger_run
list_decisions_after_run store started_at finished_at symbol n h =
    let asked : StoredDecision → Bool = λ (d : StoredDecision). is_asked symbol d.symbol in
    let new = stub_decision store.next_decision_id started_at in
    let kept = select asked store.decisions in
    rw (select-append asked store.decisions (new ∷ []))
      (elim (Bool-cases (is_asked symbol seed_symbol)) [
        | inl e ↦ rw e (
            rw
              (sorted-last_first created_later new kept
                (Before-not-later new kept (All-select asked _ store.decisions h)))
              refl)
        | inr e ↦ rw e (rw (append-nil kept) refl)
      ])
