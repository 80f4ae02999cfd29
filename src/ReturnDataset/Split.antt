-- ===== src/ReturnDataset/Split.antt =====
-- The three files of scripts/build_return_dataset.py.
use paper_trading_agent.Base.{
  ℕ, ◌+◌, ◌≤◌, ◌<◌, ◌≡◌, inl, inr, Bool, true, false, List, [], ◌∷◌, All, All-append, count_if,
  count_if-append, leb, Bool-cases, arith,
}
use paper_trading_agent.Numbers.Sorting.{All-sorted, count_if-sorted}
use paper_trading_agent.State.{Symbol}
use paper_trading_agent.ReturnDataset.{
  Example, Splits, is_symbol, no_examples, put, split_from, day_before, splits,
}

module _ (holdout : List Symbol) (val_start : ℕ) where
  abbrev pub IsTrain : Example → Type 0
  IsTrain e = (is_symbol e.symbol holdout ≡ false) × (e.day < val_start)

  abbrev pub IsValTime : Example → Type 0
  IsValTime e = (is_symbol e.symbol holdout ≡ false) × (val_start ≤ e.day)

  abbrev pub IsValSymbol : Example → Type 0
  IsValSymbol e = is_symbol e.symbol holdout ≡ true

  -- What each file holds.
  abbrev pub Separated : Splits → Type 0
  Separated s = All IsTrain s.train × All IsValTime s.val_time × All IsValSymbol s.val_symbol

  -- How many examples of the three files pass a test.
  abbrev pub count_in : (Example → Bool) → Splits → ℕ
  count_in p s = count_if p s.train + count_if p s.val_time + count_if p s.val_symbol

  put-Separated : (e : Example) (s : Splits) → Separated s → Separated (put holdout val_start e s)
  put-Separated e s (t, v, w) = elim (Bool-cases (is_symbol e.symbol holdout)) [
    | inl held ↦ rw held (t, v, All-append IsValSymbol s.val_symbol (e ∷ []) w (held, tt))
    | inr free ↦ elim (Bool-cases (leb val_start e.day)) [
      | inl late ↦
          rw free
            (rw late (t, All-append IsValTime s.val_time (e ∷ []) v ((free, ground arith), tt), w))
      | inr early ↦
          rw free
            (rw early (All-append IsTrain s.train (e ∷ []) t ((free, ground arith), tt), v, w))
    ]
  ]

  put-count :
      (p : Example → Bool) (e : Example) (s : Splits)
      → count_in p (put holdout val_start e s) ≡ count_in p s + count_if p (e ∷ [])
  put-count p e s = elim (Bool-cases (is_symbol e.symbol holdout)) [
    | inl held ↦ rw held (omega (arith, count_if-append p s.val_symbol (e ∷ [])))
    | inr free ↦ elim (Bool-cases (leb val_start e.day)) [
      | inl late ↦ rw free (rw late (omega (arith, count_if-append p s.val_time (e ∷ []))))
      | inr early ↦ rw free (rw early (omega (arith, count_if-append p s.train (e ∷ []))))
    ]
  ]

  split_from-Separated :
      (s : Splits) (examples : List Example)
      → Separated s
      → Separated (split_from holdout val_start s examples)
  unfolding split_from
  split_from-Separated s [] h = h
  split_from-Separated s (e ∷ examples) h =
      split_from-Separated (put holdout val_start e s) examples (put-Separated e s h)

  split_from-count :
      (p : Example → Bool) (s : Splits) (examples : List Example)
      → count_in p (split_from holdout val_start s examples) ≡ count_in p s + count_if p examples
  unfolding split_from
  split_from-count p s [] = omega arith
  split_from-count p s (e ∷ examples) =
      omega (arith, split_from-count p (put holdout val_start e s) examples, put-count p e s)

  -- Each example is in exactly one of the files. The training file has no held-out symbol and no day from
  -- the validation's first day on, val_time has no held-out symbol and only days from then on, and
  -- val_symbol has held-out symbols only.
  pub splits_lem :
      (examples : List Example)
      → Separated (splits holdout val_start examples)
        × ((p : Example → Bool)
            → count_in p (splits holdout val_start examples) ≡ count_if p examples)
  unfolding splits
  splits_lem examples =
      let s = split_from holdout val_start (no_examples holdout val_start) examples in
      let before = day_before holdout val_start in
      let (t, v, w) = split_from-Separated (no_examples holdout val_start) examples (tt, tt, tt) in
      (
        (
          All-sorted before IsTrain s.train t,
          All-sorted before IsValTime s.val_time v,
          All-sorted before IsValSymbol s.val_symbol w,
        ),
        λ p. omega (
          arith,
          count_if-sorted before p s.train,
          count_if-sorted before p s.val_time,
          count_if-sorted before p s.val_symbol,
          split_from-count p (no_examples holdout val_start) examples,
        ),
      )
