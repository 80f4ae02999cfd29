-- ===== src/Positions.antt =====
-- app/repository/backtest.py: the positions of one portfolio, by symbol, from its open lots. An amount is a
-- whole number of 1/10000 of the fourth decimal place that the columns keep.
use paper_trading_agent.Base.{
  ℕ, ◌*◌, min, ◌≡◌, refl, ap, sym, ◌∙◌, subst, inl, inr, Bool, true, ◌&&◌, Option, none, some, List,
  [], ◌∷◌, ◌++◌, ◌==◌, if◌then◌else◌, Bool-cases, ℤ, pos, pos_part, neg_part, sub_ℕ, ◌+ℤ◌, scale,
  same_text, same_text_iff, upper, select, select-ext, All, arith,
}
use mathlib.Core.List.{append-nil, append_assoc}
use paper_trading_agent.Numbers.Ratio.{round_half_even}
use paper_trading_agent.State.{Symbol}
use paper_trading_agent.Outcomes.{Row, is_open, same_book, is_open_lot, total_quantity}

-- app/models.py: `current_price` and `unrealized_pnl` are always None here.
pub record Position : Type 0 where
  pub symbol : Symbol
  pub quantity : ℕ
  pub avg_entry_price : ℤ
  pub opened_at : ℕ

-- WHERE backtest_id = … AND status = 'OPEN', and AND symbol = … where a symbol is asked for
-- (the empty text counts as none).
abbrev pub is_queried : Option ℕ → Option Symbol → Row → Bool
is_queried book none r = same_book r.backtest_id book && is_open r.status
is_queried book (some []) r = same_book r.backtest_id book && is_open r.status
is_queried book (some (c ∷ s)) r =
    same_book r.backtest_id book && is_open r.status && same_text r.symbol (upper (c ∷ s))

-- `by_symbol.setdefault(lot["symbol"], []).append(lot)`
unfoldable pub add_lot : Row → List (Symbol × List Row) → List (Symbol × List Row)
add_lot r [] = (r.symbol, r ∷ []) ∷ []
add_lot r ((s, lots) ∷ groups) =
    if same_text r.symbol s then (s, lots ++ r ∷ []) ∷ groups else (s, lots) ∷ add_lot r groups

unfoldable pub group_from : List (Symbol × List Row) → List Row → List (Symbol × List Row)
unfolding add_lot
group_from groups [] = groups
group_from groups (r ∷ rs) = group_from (add_lot r groups) rs

unfoldable pub weighted_cost : List Row → ℤ
weighted_cost [] = pos 0
weighted_cost (r ∷ rs) = scale r.entry_price r.quantity +ℤ weighted_cost rs

unfoldable pub first_opened : Row → List Row → ℕ
first_opened r [] = r.opened_at
first_opened r (s ∷ rs) = min r.opened_at (first_opened s rs)

-- `round(weighted_cost / total_qty, 4)`: the amount of a share, to the fourth place, ties to even.
unfoldable pub average_price : ℤ → ℕ → ℤ
average_price cost total =
    sub_ℕ (10_000 * round_half_even (pos_part cost) (10_000 * total))
      (10_000 * round_half_even (neg_part cost) (10_000 * total))

-- One group's position, if it holds any shares.
unfoldable pub add_position : Symbol × List Row → List Position → List Position
unfolding weighted_cost first_opened average_price
add_position (s, []) rest = rest
add_position (s, r ∷ rs) rest =
    let total = total_quantity (r ∷ rs) in
    if total == 0
    then rest
    else record {
      symbol = s;
      quantity = total;
      avg_entry_price = average_price (weighted_cost (r ∷ rs)) total;
      opened_at = first_opened r rs;
    }
      ∷ rest

unfoldable pub positions_of : List (Symbol × List Row) → List Position
unfolding add_position
positions_of [] = []
positions_of (g ∷ groups) = add_position g (positions_of groups)

unfoldable pub list_positions : Option ℕ → Option Symbol → List Row → List Position
unfolding positions_of group_from
list_positions book symbol rows =
    positions_of (group_from [] (select (is_queried book symbol) rows))

-- `positions[0].quantity if positions else 0`
abbrev pub current_qty : List Position → ℕ
current_qty [] = 0
current_qty (p ∷ ps) = p.quantity

-- Lots of one symbol make one group.
group_from-one :
    (s : Symbol) (lots rs : List Row)
    → All (λ (r : Row). r.symbol ≡ s) rs
    → group_from ((s, lots) ∷ []) rs ≡ (s, lots ++ rs) ∷ []
unfolding group_from
group_from-one s lots [] h = rw (append-nil lots) refl
group_from-one s lots (r ∷ rs) (h, hs) =
    let same : same_text r.symbol s ≡ true = (same_text_iff r.symbol s).1 h in
    rw same (
      group_from-one s (lots ++ r ∷ []) rs hs
      ∙ ap (λ ls. (s, ls) ∷ []) (append_assoc lots (r ∷ []) rs))

group_from-first :
    (s : Symbol) (r : Row) (rs : List Row)
    → r.symbol ≡ s
    → All (λ (x : Row). x.symbol ≡ s) rs
    → group_from [] (r ∷ rs) ≡ (r.symbol, r ∷ rs) ∷ []
unfolding group_from
group_from-first s r rs h hs =
    group_from-one r.symbol (r ∷ []) rs (subst (λ x. All (λ (y : Row). y.symbol ≡ x) rs) (sym h) hs)

current_qty-one :
    (s : Symbol) (rs : List Row)
    → All (λ (x : Row). x.symbol ≡ s) rs
    → current_qty (positions_of (group_from [] rs)) ≡ total_quantity rs
unfolding positions_of total_quantity group_from
current_qty-one s [] h = refl
current_qty-one s (r ∷ rs) (h, hs) = rw (group_from-first s r rs h hs) (ground arith)

queried_iff :
    (book : Option ℕ) (c : ℕ) (s : Symbol) (r : Row)
    → is_queried book (some (c ∷ s)) r ≡ is_open_lot book (upper (c ∷ s)) r
queried_iff book c s r = ground arith

All-symbol :
    (book : Option ℕ) (s : Symbol) (rows : List Row)
    → All (λ (r : Row). r.symbol ≡ s) (select (is_open_lot book s) rows)
All-symbol book s [] = tt
All-symbol book s (r ∷ rs) = elim (Bool-cases (is_open_lot book s r)) [
  | inl h ↦ rw h ((same_text_iff r.symbol s).0 (ground arith), All-symbol book s rs)
  | inr h ↦ rw h (All-symbol book s rs)
]

-- The quantity that the risk manager reads for a symbol, which is not the empty text, is what the open
-- lots of that portfolio hold under the symbol in upper case.
pub current_qty-list_positions :
    (book : Option ℕ) (c : ℕ) (s : Symbol) (rows : List Row)
    → current_qty (list_positions book (some (c ∷ s)) rows)
      ≡ total_quantity (select (is_open_lot book (upper (c ∷ s))) rows)
unfolding list_positions
current_qty-list_positions book c s rows =
    let lots = select (is_open_lot book (upper (c ∷ s))) rows in
    rw (select-ext _ _ rows (queried_iff book c s))
      (current_qty-one (upper (c ∷ s)) lots (All-symbol book (upper (c ∷ s)) rows))
