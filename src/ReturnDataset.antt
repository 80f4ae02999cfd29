-- ===== src/ReturnDataset.antt =====
-- scripts/build_return_dataset.py: examples of headlines with the excess return that followed, in three files.
-- A day is the number of a date, a close a whole number of a price unit. The rows that pandas reads from
-- the two CSV files, in their order, are arguments. The label itself, which divides by a standard
-- deviation, a square root, is left out; which rows have a label is modelled.
pub mod Bisect
pub mod Forward
pub mod Examples
pub mod Split
pub mod Build
mod Tests
use paper_trading_agent.Base.{
  ℕ, zero, suc, ◌+◌, ◌-◌, ◌*◌, ◌/◌, ◌≤◌, Bool, true, false, not, ◌&&◌, ◌||◌, Option, none, some,
  List, [], ◌∷◌, ◌++◌, map, if◌then◌else◌, ltb, leb, ◌==◌, sub_ℕ, Text, same_text, length,
  get_elem?, take, select, last_n, upper, Result, ok, err, ◌>>=◌, or_raise, codes,
}
use paper_trading_agent.Numbers.Ratio.{Ratio, neg_R, add_R, leb_R}
use paper_trading_agent.Numbers.Sorting.{sorted}
use paper_trading_agent.State.{Symbol}
use paper_trading_agent.Explainer.{text_le}

-- A row of the bars.
pub record CloseRow : Type 0 where
  pub symbol : Symbol
  pub day : ℕ
  pub close : ℕ

-- A row of the headlines that has a date and a title.
pub record DatedHeadline : Type 0 where
  pub symbol : Symbol
  pub day : ℕ
  pub title : Text

-- An IndexError, a KeyError, the OverflowError of a date, rounds that the loop does not have, the two
-- SystemExits of main, and the StatisticsError of a standard deviation of one label.
pub data DatasetError : Type 0 where
  no_index no_key no_date no_round no_proxy nothing_built one_row : DatasetError

abbrev pub is_symbol : Symbol → List Symbol → Bool
is_symbol symbol [] = false
is_symbol symbol (s ∷ symbols) = same_text s symbol || is_symbol symbol symbols

-- `all_symbols`, of the words of the file of symbols.
abbrev pub dropped_symbols : List Symbol
dropped_symbols =
    codes "ETH"
    ∷ codes "BTC"
    ∷ codes "QQQ"
    ∷ codes "SPY"
    ∷ codes "IWM"
    ∷ codes "DIA"
    ∷ codes "VOO"
    ∷ []

unfoldable pub all_symbols : List Text → List Symbol
all_symbols words = select (λ s. not (is_symbol s dropped_symbols)) (map upper words)

unfoldable pub holdout_of : ℕ → List Symbol → List Symbol
holdout_of n symbols = if n == 0 then [] else last_n n symbols

-- A dict of days, as the list of its items.
abbrev pub set_close : ℕ → ℕ → List (ℕ × ℕ) → List (ℕ × ℕ)
set_close day close [] = (day, close) ∷ []
set_close day close ((d, c) ∷ items) =
    if d == day then (d, close) ∷ items else (d, c) ∷ set_close day close items

abbrev pub close_for : ℕ → List (ℕ × ℕ) → Option ℕ
close_for day [] = none
close_for day ((d, c) ∷ items) = if d == day then some c else close_for day items

abbrev pub add_row : Symbol → CloseRow → List (ℕ × ℕ) → List (ℕ × ℕ)
add_row symbol row items =
    if same_text row.symbol symbol then set_close row.day row.close items else items

-- `closes[symbol]` and `ordinals[symbol]` of load_bars; a symbol without rows has none.
unfoldable pub closes_from : List CloseRow → Symbol → List (ℕ × ℕ) → List (ℕ × ℕ)
closes_from [] symbol items = items
closes_from (row ∷ rows) symbol items = closes_from rows symbol (add_row symbol row items)

abbrev pub symbol_closes : List CloseRow → Symbol → List (ℕ × ℕ)
symbol_closes rows symbol = closes_from rows symbol []

unfoldable pub ordinals_of : List (ℕ × ℕ) → List ℕ
ordinals_of items = sorted leb (map (λ (item : ℕ × ℕ). item.0) items)

-- One round of the bisection: the next `lo` and `hi`.
abbrev pub narrowed : ℕ → ℕ → ℕ → ℕ → Option ℕ → Option (ℕ × ℕ)
narrowed day lo hi mid none = none
narrowed day lo hi mid (some d) = if ltb d day then some (mid + 1, hi) else some (lo, mid)

-- The loop, with a bound on its rounds.
unfoldable pub bisect : List ℕ → ℕ → ℕ → ℕ → ℕ → Result DatasetError ℕ
bisect days day zero lo hi = if ltb lo hi then err no_round else ok lo
bisect days day (suc rounds) lo hi =
    if ltb lo hi
    then elim (narrowed day lo hi ((lo + hi) / 2) (get_elem? days ((lo + hi) / 2))) [
      | none ↦ err no_index
      | some next ↦ bisect days day rounds next.0 next.1
    ]
    else ok lo

-- `(c1 - c0) / c0`, if `c0` is positive.
abbrev pub relative_change : ℕ → ℕ → Option Ratio
relative_change zero close = none
relative_change (suc p) close = some (record { num = sub_ℕ close (suc p); den_pred = p })

unfoldable pub return_at : List (ℕ × ℕ) → List ℕ → ℕ → ℕ → Result DatasetError (Option Ratio)
return_at closes days lo horizon =
    if leb (length days) lo || leb (length days) (lo + horizon)
    then ok none
    else (or_raise (get_elem? days lo) no_index >>= λ d0.
        or_raise (get_elem? days (lo + horizon)) no_index >>= λ d1.
        or_raise (close_for d0 closes) no_key >>= λ c0.
        or_raise (close_for d1 closes) no_key >>= λ c1. ok (relative_change c0 c1))

unfoldable pub forward_return : List (ℕ × ℕ) → ℕ → ℕ → Result DatasetError (Option Ratio)
forward_return closes day horizon =
    let days = ordinals_of closes in
    if length days == 0
    then ok none
    else (bisect days day (length days) 0 (length days) >>= λ lo. return_at closes days lo horizon)

-- load_headlines: the rows of the symbols within the dates; `by_day.get(day, [])`.
unfoldable pub load_headlines : List Symbol → ℕ → ℕ → List DatedHeadline → List DatedHeadline
load_headlines symbols start end =
    select (λ (h : DatedHeadline). is_symbol h.symbol symbols && (leb start h.day && leb h.day end))

abbrev pub headlines_on : List DatedHeadline → Symbol → ℕ → List DatedHeadline
headlines_on headlines symbol day =
    select (λ (h : DatedHeadline). same_text h.symbol symbol && (h.day == day)) headlines

-- The headlines of `day` and of the days before it, for the `left` offsets from `offset` on.
unfoldable pub window_from :
    List DatedHeadline → Symbol → ℕ → ℕ → ℕ → Result DatasetError (List DatedHeadline)
window_from headlines symbol day offset zero = ok []
window_from headlines symbol day offset (suc left) =
    let rest = window_from headlines symbol day (offset + 1) left in
    if ltb day offset
    then err no_date
    else (rest >>= λ older. ok (headlines_on headlines symbol (day - offset) ++ older))

pub record Example : Type 0 where
  pub symbol : Symbol
  pub day : ℕ
  pub headlines : List DatedHeadline
  pub n_headlines : ℕ
  pub excess_return : Ratio

module _ (bars : List CloseRow) (headlines : List DatedHeadline)
    (horizon lookback max_headlines : ℕ) where
  abbrev pub market_proxy : Symbol
  market_proxy = codes "SPY"

  abbrev pub example_of :
      Symbol → ℕ → List DatedHeadline → Option Ratio → Option Ratio → List Example
  example_of symbol day window none mkt = []
  example_of symbol day window (some fwd) none = []
  example_of symbol day window (some fwd) (some mkt) =
      record {
        symbol = symbol;
        day = day;
        headlines = take max_headlines window;
        n_headlines = length window;
        excess_return = add_R fwd (neg_R mkt);
      }
      ∷ []

  -- The body of the loops over symbols and days.
  unfoldable pub examples_on : Symbol → ℕ → Result DatasetError (List Example)
  examples_on symbol day = window_from headlines symbol day 0 lookback >>= λ window.
      if length window == 0
      then ok []
      else (forward_return (symbol_closes bars symbol) day horizon >>= λ fwd.
          forward_return (symbol_closes bars market_proxy) day horizon >>= λ mkt.
          ok (example_of symbol day window fwd mkt))

  unfoldable pub raw_examples : List (Symbol × ℕ) → Result DatasetError (List Example)
  raw_examples [] = ok []
  raw_examples ((symbol, day) ∷ rest) =
      examples_on symbol day >>= λ here. raw_examples rest >>= λ later. ok (here ++ later)

  -- The symbols of the headlines, in the order of their first rows, each with its days in order.
  abbrev pub symbols_in : List DatedHeadline → List Symbol
  symbols_in [] = []
  symbols_in (h ∷ rows) = h.symbol ∷ select (λ s. not (same_text h.symbol s)) (symbols_in rows)

  abbrev pub days_in : List DatedHeadline → List ℕ
  days_in [] = []
  days_in (h ∷ rows) = h.day ∷ select (λ d. not (h.day == d)) (days_in rows)

  abbrev pub days_of_symbol : Symbol → List (Symbol × ℕ)
  days_of_symbol symbol =
      map (λ d. (symbol, d))
        (sorted leb (days_in (select (λ (h : DatedHeadline). same_text h.symbol symbol) headlines)))

  abbrev pub days_of_all : List Symbol → List (Symbol × ℕ)
  days_of_all [] = []
  days_of_all (symbol ∷ symbols) = days_of_symbol symbol ++ days_of_all symbols

  unfoldable pub raw_of_all : Result DatasetError (List Example)
  raw_of_all = raw_examples (days_of_all (symbols_in headlines))

-- The rows that get a label: those of a symbol with 30 examples that are not all alike, where the
-- standard deviation is positive.
abbrev pub same_R : Ratio → Ratio → Bool
same_R a b = leb_R a b && leb_R b a

abbrev pub all_like : Ratio → List Ratio → Bool
all_like r [] = true
all_like r (s ∷ rs) = same_R r s && all_like r rs

abbrev pub varies : List Ratio → Bool
varies [] = false
varies (r ∷ rs) = not (all_like r rs)

abbrev pub values_of : Symbol → List Example → List Ratio
values_of symbol raw =
    map (λ (e : Example). e.excess_return) (select (λ (e : Example). same_text e.symbol symbol) raw)

abbrev pub is_labelled : List Example → Example → Bool
is_labelled raw e = leb 30 (length (values_of e.symbol raw)) && varies (values_of e.symbol raw)

unfoldable pub labelled : List Example → List Example
labelled raw = select (is_labelled raw) raw

pub record Splits : Type 0 where
  pub train : List Example
  pub val_time : List Example
  pub val_symbol : List Example

module _ (holdout : List Symbol) (val_start : ℕ) where
  abbrev pub no_examples : Splits
  no_examples = record { train = []; val_time = []; val_symbol = [] }

  abbrev pub put : Example → Splits → Splits
  put e s =
      if is_symbol e.symbol holdout
      then record s { val_symbol = s.val_symbol ++ e ∷ [] }
      else if leb val_start e.day
      then record s { val_time = s.val_time ++ e ∷ [] }
      else record s { train = s.train ++ e ∷ [] }

  unfoldable pub split_from : Splits → List Example → Splits
  split_from s [] = s
  split_from s (e ∷ examples) = split_from (put e s) examples

  -- `rows.sort(key=lambda r: (r["day"], r["symbol"]))`
  abbrev pub day_before : Example → Example → Bool
  day_before a b = ltb a.day b.day || ((a.day == b.day) && text_le a.symbol b.symbol)

  unfoldable pub splits : List Example → Splits
  splits examples =
      let s = split_from no_examples examples in
      record {
        train = sorted day_before s.train;
        val_time = sorted day_before s.val_time;
        val_symbol = sorted day_before s.val_symbol;
      }

pub record Arguments : Type 0 where
  pub start : ℕ
  pub end : ℕ
  pub horizon : ℕ
  pub lookback_days : ℕ
  pub max_headlines : ℕ
  pub val_start : ℕ
  pub holdout_symbols : ℕ

abbrev pub split_labelled : List Symbol → ℕ → List Example → Result DatasetError Splits
split_labelled holdout val_start [] = err nothing_built
split_labelled holdout val_start (e ∷ raw) = ok (splits holdout val_start (labelled (e ∷ raw)))

-- main, from the words of the symbols, the bars and the headlines to the three splits.
unfoldable pub build_splits :
    Arguments → List Text → List CloseRow → List DatedHeadline → Result DatasetError Splits
build_splits args words bars titles =
    let symbols = all_symbols words in
    let headlines = load_headlines symbols args.start args.end titles in
    if length (symbol_closes bars (codes "SPY")) == 0
    then err no_proxy
    else (raw_of_all bars headlines args.horizon args.lookback_days args.max_headlines >>= λ raw.
        split_labelled (holdout_of args.holdout_symbols symbols) args.val_start raw)

-- The loop that writes the files: those written, in order, and the exception, if there is one. After a file
-- of one row, `statistics.stdev` raises.
unfoldable pub write_files : List (List Example) → List (List Example) × Option DatasetError
write_files [] = ([], none)
write_files (rows ∷ later) =
    let (files, end) = write_files later in
    if length rows == 1 then (rows ∷ [], some one_row) else (rows ∷ files, end)

-- train, val_time and val_symbol, in this order.
abbrev pub files_of : Splits → List (List Example)
files_of s = s.train ∷ s.val_time ∷ s.val_symbol ∷ []

abbrev pub write_splits : Result DatasetError Splits → List (List Example) × Option DatasetError
write_splits (err e) = ([], some e)
write_splits (ok s) = write_files (files_of s)

-- main: the files that it has written, and the exception that ends it, if there is one.
unfoldable pub build :
    Arguments
    → List Text
    → List CloseRow
    → List DatedHeadline
    → List (List Example) × Option DatasetError
unfolding build_splits write_files
build args words bars titles = write_splits (build_splits args words bars titles)
