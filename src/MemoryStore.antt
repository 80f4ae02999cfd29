-- ===== src/MemoryStore.antt =====
-- app/repository/memory.py: the store without a database, for the same protocol as the one with one. An
-- amount is a whole number of 1/10000 dollar, a confidence one of 1/100; `now` is the clock's answer. The
-- texts and the snapshots of a decision are left out, no operation reads them.
pub mod Numbering
pub mod Newest
mod Tests
use paper_trading_agent.Base.{
  ℕ, suc, ◌+◌, ◌-◌, Bool, true, Option, none, some, List, [], ◌∷◌, ◌++◌, map, leb, ℤ, pos, negsuc,
  length, take, codes, same_text, upper, select,
}
use paper_trading_agent.Numbers.Sorting.{sorted}
use paper_trading_agent.State.{Symbol, Action, buy, hold}

pub record StoredPosition : Type 0 where
  pub symbol : Symbol
  pub quantity : ℕ
  pub avg_entry_price : ℤ
  pub current_price : Option ℤ
  pub unrealized_pnl : Option ℤ
  pub opened_at : ℕ

pub record StoredDecision : Type 0 where
  pub id : ℕ
  pub symbol : Symbol
  pub action : Action
  pub confidence : ℕ
  pub created_at : ℕ

pub data ResultStatus : Type 0 where
  success failed : ResultStatus

pub record RunResult : Type 0 where
  pub run_id : ℕ
  pub started_at : ℕ
  pub finished_at : ℕ
  pub status : ResultStatus
  pub decisions : List StoredDecision

-- `positions` is the dict's values by key.
pub record InMemoryStore : Type 0 where
  pub decisions : List StoredDecision
  pub positions : List (Symbol × StoredPosition)
  pub next_decision_id : ℕ
  pub next_run_id : ℕ

abbrev pub seed_symbol : Symbol
seed_symbol = codes "AAPL"

abbrev pub seed_position : ℕ → StoredPosition
seed_position now = record {
  symbol = seed_symbol;
  quantity = 10;
  avg_entry_price = pos 1_900_000;
  current_price = some (pos 1_935_000);
  unrealized_pnl = some (pos 350_000);
  opened_at = now;
}

abbrev pub seed_decision : ℕ → ℕ → StoredDecision
seed_decision id now = record {
  id = id;
  symbol = seed_symbol;
  action = buy;
  confidence = 62;
  created_at = now;
}

-- The store as __init__ leaves it.
abbrev pub new_store : ℕ → InMemoryStore
new_store now = record {
  decisions = seed_decision 1 now ∷ [];
  positions = (seed_symbol, seed_position now) ∷ [];
  next_decision_id = 1 + 1;
  next_run_id = 1;
}

-- `not symbol or x == symbol.upper()`: the empty text counts as no symbol.
abbrev pub is_asked : Option Symbol → Symbol → Bool
is_asked none x = true
is_asked (some []) x = true
is_asked (some (c ∷ s)) x = same_text x (upper (c ∷ s))

unfoldable pub list_store_positions : Option Symbol → InMemoryStore → List StoredPosition
list_store_positions symbol store =
    select (λ (p : StoredPosition). is_asked symbol p.symbol)
      (map (λ (entry : Symbol × StoredPosition). entry.1) store.positions)

-- `xs[:limit]`
abbrev pub slice_to : {A : Type 0} → ℤ → List A → List A
slice_to (pos n) xs = take n xs
slice_to (negsuc n) xs = take (length xs - suc n) xs

-- May come first: the newest first, and of equally new ones the first (a sort with `reverse` is stable).
abbrev pub created_later : StoredDecision → StoredDecision → Bool
created_later a b = leb b.created_at a.created_at

unfoldable pub list_decisions : Option Symbol → ℤ → InMemoryStore → List StoredDecision
list_decisions symbol limit store = slice_to limit (
    sorted created_later
      (select (λ (d : StoredDecision). is_asked symbol d.symbol) store.decisions))

abbrev pub stub_decision : ℕ → ℕ → StoredDecision
stub_decision id now = record {
  id = id;
  symbol = seed_symbol;
  action = hold;
  confidence = 55;
  created_at = now;
}

-- The clock is asked twice.
unfoldable pub trigger_run : ℕ → ℕ → InMemoryStore → InMemoryStore × RunResult
trigger_run started_at finished_at store =
    let decision = stub_decision store.next_decision_id started_at in
    (
      record store {
        decisions = store.decisions ++ decision ∷ [];
        next_decision_id = store.next_decision_id + 1;
        next_run_id = store.next_run_id + 1;
      },
      record {
        run_id = store.next_run_id;
        started_at = started_at;
        finished_at = finished_at;
        status = success;
        decisions = decision ∷ [];
      },
    )
