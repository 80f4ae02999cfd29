-- ===== src/MemoryStore/Numbering.antt =====
-- app/repository/memory.py: the stores that runs lead to, as a step relation, and their numbers.
use paper_trading_agent.Base.{ℕ, suc, ◌+◌, ◌≡◌, refl, List, [], ◌∷◌, ◌++◌, length, arith}
use paper_trading_agent.MemoryStore.{
  StoredDecision, InMemoryStore, new_store, stub_decision, trigger_run,
}

-- A new store, and what runs make of it.
data Used : InMemoryStore → Type 0 where
  made : (now : ℕ) → Used (new_store now)
  run :
      {store : InMemoryStore} (started_at finished_at : ℕ)
      → Used store
      → Used (trigger_run started_at finished_at store).0

-- The decisions bear the ids from `n` on.
abbrev pub IdsFrom : ℕ → List StoredDecision → Type 0
IdsFrom n [] = Unit
IdsFrom n (d ∷ ds) = (d.id ≡ n) × IdsFrom (n + 1) ds

IdsFrom-append :
    (n : ℕ) (ds : List StoredDecision) (d : StoredDecision)
    → IdsFrom n ds
    → d.id ≡ n + length ds
    → IdsFrom n (ds ++ d ∷ [])
IdsFrom-append n [] d h e = (omega (arith, e), tt)
IdsFrom-append n (x ∷ ds) d (h, hs) e = (h, IdsFrom-append (n + 1) ds d hs (omega (arith, e)))

length-one_more :
    (ds : List StoredDecision) (d : StoredDecision) → length (ds ++ d ∷ []) ≡ suc (length ds)
length-one_more [] d = refl
length-one_more (x ∷ ds) d = omega (arith, length-one_more ds d)

record IsNumbered (store : InMemoryStore) : Type 0 where
  ids : IdsFrom 1 store.decisions
  next_decision : store.next_decision_id ≡ 1 + length store.decisions
  next_run : store.next_run_id ≡ length store.decisions

-- However many runs are triggered, and whatever the clock says, the decisions of a store bear the ids
-- from 1 on in their order, the next decision's id is the one after them, and the next run's id is
-- their number.
Used-IsNumbered : (store : InMemoryStore) → Used store → IsNumbered store
unfolding trigger_run
Used-IsNumbered _ (made now) = record { ids = (refl, tt); next_decision = refl; next_run = refl }
Used-IsNumbered _ (run {store} started_at finished_at used) =
    let before = Used-IsNumbered store used in
    let d = stub_decision store.next_decision_id started_at in
    let one_more = length-one_more store.decisions d in
    record {
      ids = IdsFrom-append 1 store.decisions d before.ids before.next_decision;
      next_decision = omega (arith, before.next_decision, one_more);
      next_run = omega (arith, before.next_run, one_more);
    }
