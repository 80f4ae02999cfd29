-- ===== src/MemoryStore/Tests.antt =====
-- A store after one run.
use paper_trading_agent.Base.{◌≡◌, refl, none, some, [], ◌∷◌, map, pos, negsuc, codes, same_text}
use paper_trading_agent.Numbers.Sorting.{sorted}
use paper_trading_agent.MemoryStore.{
  StoredDecision, InMemoryStore, new_store, seed_position, list_store_positions, list_decisions,
  trigger_run,
}

abbrev once : InMemoryStore
once = (trigger_run 5 6 (new_store 3)).0

newest_first : map (λ (d : StoredDecision). d.id) (list_decisions none (pos 50) once) ≡ 2 ∷ 1 ∷ []
unfolding list_decisions trigger_run sorted
newest_first = refl

a_negative_limit :
    map (λ (d : StoredDecision). d.id) (list_decisions (some []) (negsuc 0) once) ≡ 2 ∷ []
unfolding list_decisions trigger_run sorted
a_negative_limit = refl

by_symbol : list_store_positions (some (codes "aapl")) once ≡ seed_position 3 ∷ []
unfolding list_store_positions trigger_run same_text
by_symbol = refl
