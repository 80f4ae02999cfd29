-- ===== src/ReturnDataset/Build.antt =====
-- main of scripts/build_return_dataset.py, from the rows of the CSV files to the three files of examples.
use paper_trading_agent.Base.{
  ℕ, ◌≤◌, ◌≡◌, ◌≢◌, ap, ◌++◌, ==_iff, Option, none, some, refl, ◌⊎◌, inl, inr, Bool, false, List,
  [], ◌∷◌, All, All-append, All-select, count_if, Bool-cases, leb, length, ◌==◌, Text, codes, ok,
}
use paper_trading_agent.Numbers.Sorting.{All-sorted}
use paper_trading_agent.State.{Symbol}
use paper_trading_agent.ReturnDataset.{
  CloseRow, DatedHeadline, Example, Splits, Arguments, DatasetError, nothing_built, is_symbol,
  all_symbols, holdout_of, load_headlines, symbol_closes, raw_of_all, labelled, is_labelled,
  no_examples, put, split_from, day_before, splits, split_labelled, build, build_splits, one_row,
  write_files, files_of, write_splits,
}
use paper_trading_agent.ReturnDataset.Examples.{IsFair, raw_of_all_lem}
use paper_trading_agent.ReturnDataset.Split.{Separated, count_in, splits_lem}

-- What holds of every example in the files.
abbrev pub AllIn : (Example → Type 0) → Splits → Type 0
AllIn P s = All P s.train × All P s.val_time × All P s.val_symbol

module _ (holdout : List Symbol) (val_start : ℕ) (P : Example → Type 0) where
  put-AllIn : (e : Example) (s : Splits) → P e → AllIn P s → AllIn P (put holdout val_start e s)
  put-AllIn e s h (t, v, w) = elim (Bool-cases (is_symbol e.symbol holdout)) [
    | inl held ↦ rw held (t, v, All-append P s.val_symbol (e ∷ []) w (h, tt))
    | inr free ↦ elim (Bool-cases (leb val_start e.day)) [
      | inl late ↦ rw free (rw late (t, All-append P s.val_time (e ∷ []) v (h, tt), w))
      | inr early ↦ rw free (rw early (All-append P s.train (e ∷ []) t (h, tt), v, w))
    ]
  ]

  split_from-AllIn :
      (s : Splits) (examples : List Example)
      → AllIn P s
      → All P examples
      → AllIn P (split_from holdout val_start s examples)
  unfolding split_from
  split_from-AllIn s [] h all = h
  split_from-AllIn s (e ∷ examples) h (fair, all) =
      split_from-AllIn (put holdout val_start e s) examples (put-AllIn e s fair h) all

  splits-AllIn :
      (examples : List Example) → All P examples → AllIn P (splits holdout val_start examples)
  unfolding splits
  splits-AllIn examples all =
      let before = day_before holdout val_start in
      let (t, v, w) = split_from-AllIn (no_examples holdout val_start) examples (tt, tt, tt) all in
      (All-sorted before P _ t, All-sorted before P _ v, All-sorted before P _ w)

-- The files that a run writes, for the examples that were built.
abbrev pub Written : Arguments → List Text → List CloseRow → List Example → Splits → Type 0
Written args words bars raw s =
    let holdout = holdout_of args.holdout_symbols (all_symbols words) in
    Separated holdout args.val_start s
    × AllIn (IsFair bars args.horizon args.lookback_days args.max_headlines) s
    × ((p : Example → Bool) → count_in holdout args.val_start p s ≡ count_if p (labelled raw))

-- How the writing of some splits ends: all are written and none has one row, or it raises after the first
-- that has one row, which is written with those before it.
abbrev pub WritesEnd : List (List Example) → List (List Example) × Option DatasetError → Type 0
WritesEnd parts end =
    (All (λ rows. length rows ≢ 1) parts × (end ≡ (parts, none)))
    ⊎ ((before : List (List Example)) × (rows : List Example) × (after : List (List Example))
        × (parts ≡ before ++ rows ∷ after)
        × All (λ part. length part ≢ 1) before
        × (length rows ≡ 1)
        × (end ≡ (before ++ rows ∷ [], some one_row)))

write_files-WritesEnd : (parts : List (List Example)) → WritesEnd parts (write_files parts)
unfolding write_files
write_files-WritesEnd [] = inl (tt, refl)
write_files-WritesEnd (part ∷ parts) = elim (Bool-cases (length part == 1)) [
  | inl e ↦ inr ([], part, parts, refl, tt, (==_iff (length part) 1).0 e, rw e refl)
  | inr e ↦
      (let many : length part ≢ 1 = λ h. (let found = (==_iff (length part) 1).1 h in cc) in
        elim (write_files-WritesEnd parts) [
          | inl (none_of_one, done) ↦ inl ((many, none_of_one), rw e (rw done refl))
          | inr (before, rows, after, whole, others, one, done) ↦ inr (
            part ∷ before,
            rows,
            after,
            ap (λ ps. part ∷ ps) whole,
            (many, others),
            one,
            rw e (rw done refl),
          )
        ])
]

-- How main ends after the examples: with the files, or with the SystemExit where there are no examples.
abbrev pub Ends :
    Arguments
    → List Text
    → List CloseRow
    → List Example
    → List (List Example) × Option DatasetError
    → Type 0
Ends args words bars raw end =
    ((s : Splits) × Written args words bars raw s × WritesEnd (files_of s) end)
    ⊎ ((raw ≡ []) × (end ≡ ([], some nothing_built)))

split_labelled-Ends :
    (args : Arguments) (words : List Text) (bars : List CloseRow) (raw : List Example)
    → All (IsFair bars args.horizon args.lookback_days args.max_headlines) raw
    → Ends args words bars raw (
        write_splits
          (split_labelled (holdout_of args.holdout_symbols (all_symbols words)) args.val_start raw))
unfolding labelled
split_labelled-Ends args words bars [] fair = inr (refl, refl)
split_labelled-Ends args words bars (e ∷ raw) fair =
    let holdout = holdout_of args.holdout_symbols (all_symbols words) in
    let Fair = IsFair bars args.horizon args.lookback_days args.max_headlines in
    let kept = labelled (e ∷ raw) in
    let (separated, counted) = splits_lem holdout args.val_start kept in
    inl (
      splits holdout args.val_start kept,
      (
        separated,
        splits-AllIn holdout args.val_start Fair kept
            (All-select Fair (is_labelled (e ∷ raw)) (e ∷ raw) fair),
        counted,
      ),
      write_files-WritesEnd (files_of (splits holdout args.val_start kept)),
    )

-- Where the bars have SPY and no headline's day is a number below the lookback, the examples are built, and
-- a run ends with the SystemExit just where there are none. Else each example that gets a label is in
-- exactly one of three splits. Training has no held-out symbol and no day from the validation's first
-- day on, val_time has no held-out symbol, and val_symbol no other. Each example's headlines are of its
-- symbol and of its day or the days before it within the lookback, and its excess return is that of its
-- symbol less that of SPY, each from the close of the first trading day not before its day to the close
-- `horizon` trading days later. If no split has exactly one row, the files of all three are written;
-- otherwise the run raises once it has written the first that has, and the later ones are not written.
pub build_lem :
    (args : Arguments) (words : List Text) (bars : List CloseRow) (titles : List DatedHeadline)
    → (length (symbol_closes bars (codes "SPY")) == 0) ≡ false
    → All (λ (h : DatedHeadline). args.lookback_days ≤ h.day) titles
    → (raw : List Example) × (raw_of_all bars
          (load_headlines (all_symbols words) args.start args.end titles)
          args.horizon
          args.lookback_days
          args.max_headlines
        ≡ ok raw)
      × Ends args words bars raw (build args words bars titles)
unfolding build build_splits load_headlines
build_lem args words bars titles proxy dated =
    let headlines = load_headlines (all_symbols words) args.start args.end titles in
    let (raw, e, fair) =
      raw_of_all_lem bars args.horizon args.lookback_days args.max_headlines headlines
        (All-select (λ (h : DatedHeadline). args.lookback_days ≤ h.day) _ titles dated) in
    (raw, e, rw proxy (rw e (split_labelled-Ends args words bars raw fair)))
