-- ===== src/ReturnDataset/Tests.antt =====
-- scripts/build_return_dataset.py on a few bars and headlines.
use paper_trading_agent.Base.{
  false, length, ◌==◌, ℕ, ◌≡◌, refl, none, some, List, [], ◌∷◌, map, get_elem?, same_text, pos,
  codes, sub_ℕ, ok, arith,
}
use paper_trading_agent.Numbers.Sorting.{sorted}
use paper_trading_agent.ReturnDataset.{
  Arguments, load_headlines, build, write_files, one_row, CloseRow, DatedHeadline, Example,
  symbol_closes, closes_from, ordinals_of, bisect, return_at, forward_return, raw_of_all, splits,
  split_from, all_symbols, holdout_of,
}
use paper_trading_agent.ReturnDataset.Forward.{from_day, return_over, forward_return_lem}
use paper_trading_agent.ReturnDataset.Build.{Ends, build_lem}

abbrev bar : ℕ → ℕ → CloseRow
bar day close = record { symbol = codes "AAPL"; day = day; close = close }

abbrev spy : ℕ → ℕ → CloseRow
spy day close = record { symbol = codes "SPY"; day = day; close = close }

-- Days 15 and 16 are a weekend; day 14 stands twice, and its last row counts.
abbrev bars : List CloseRow
bars =
    bar 17 110
    ∷ bar 13 100
    ∷ bar 14 99
    ∷ bar 14 104
    ∷ spy 13 200
    ∷ spy 14 200
    ∷ spy 17 202
    ∷ bar 18 90
    ∷ spy 18 201
    ∷ []

abbrev apple : List (ℕ × ℕ)
apple = symbol_closes bars (codes "AAPL")

-- From the Saturday on: Monday's close, and Tuesday's.
weekend : forward_return apple 15 1 ≡ ok (some (record { num = sub_ℕ 90 110; den_pred = 109 }))
unfolding forward_return closes_from ordinals_of bisect return_at sorted same_text
weekend = refl

too_late : forward_return apple 17 2 ≡ ok none
unfolding forward_return closes_from ordinals_of bisect return_at sorted same_text
too_late = refl

forward_return_lem_example :
    let days = from_day 15 (ordinals_of apple) in
    forward_return apple 15 1 ≡ ok (return_over apple (get_elem? days 0) (get_elem? days 1))
forward_return_lem_example = forward_return_lem apple 15 1

abbrev title : ℕ → DatedHeadline
title day = record { symbol = codes "AAPL"; day = day; title = [] }

abbrev example_on : ℕ → Example
example_on day = record {
  symbol = codes "AAPL";
  day = day;
  headlines = title day ∷ [];
  n_headlines = 1;
  excess_return = record { num = pos 1; den_pred = 9 };
}

abbrev three : List Example
three = example_on 13 ∷ example_on 17 ∷ record (example_on 13) { symbol = codes "TSLA" } ∷ []

three_files :
    (map (λ (e : Example). e.day) (splits (codes "TSLA" ∷ []) 15 three).train ≡ 13 ∷ [])
    × (map (λ (e : Example). e.day) (splits (codes "TSLA" ∷ []) 15 three).val_time ≡ 17 ∷ [])
    × (map (λ (e : Example). e.day) (splits (codes "TSLA" ∷ []) 15 three).val_symbol ≡ 13 ∷ [])
unfolding splits split_from sorted same_text
three_files = (refl, refl, refl)

held_out :
    holdout_of 1 (all_symbols (codes "aapl" ∷ codes "tsla" ∷ codes "spy" ∷ [])) ≡ codes "TSLA" ∷ []
unfolding holdout_of all_symbols same_text
held_out = refl

abbrev arguments : Arguments
arguments = record {
  start = 10;
  end = 20;
  horizon = 1;
  lookback_days = 3;
  max_headlines = 25;
  val_start = 15;
  holdout_symbols = 1;
}

spy_is_there : (length (symbol_closes bars (codes "SPY")) == 0) ≡ false
unfolding closes_from same_text
spy_is_there = refl

abbrev alone : Example
alone = record {
  symbol = codes "AAPL";
  day = 13;
  headlines = [];
  n_headlines = 0;
  excess_return = record { num = pos 1; den_pred = 99 };
}

-- A split of one row: its file is written, the next one is not.
one_row_stops : write_files ([] ∷ (alone ∷ []) ∷ [] ∷ []) ≡ ([] ∷ (alone ∷ []) ∷ [], some one_row)
unfolding write_files
one_row_stops = refl

build_lem_example :
    let words = codes "aapl" ∷ codes "tsla" ∷ [] in
    let titles = title 13 ∷ title 15 ∷ [] in
    (raw : List Example) × (raw_of_all bars (load_headlines (all_symbols words) 10 20 titles) 1 3 25
      ≡ ok raw)
    × Ends arguments words bars raw (build arguments words bars titles)
build_lem_example =
    build_lem arguments (codes "aapl" ∷ codes "tsla" ∷ []) bars (title 13 ∷ title 15 ∷ [])
      spy_is_there (omega arith, (omega arith, tt))
